-- ===== src/Store/Laws.antt =====
-- What statements make of the tables.
use aura_cp.Prelude.{
  ◌≡◌, ◌≢◌, refl, sym, ◌∙◌, true, false, Option, none, some, Bytes, bytes_eq, any, Bool-cases, inl,
  inr, bytes_beq_iff, bytes_beq_ne, bytes_beq_refl,
}
use aura_cp.Rows.{first}
use aura_cp.Rows.Selects.{
  mapped, any-first, any-found, first-append, first-append_other, first-update, first-update_other,
}
use aura_cp.Store.{Tables, Certificate, certificate, upsert_certificate, merged, cert_of}

-- What is in the table for the domain of a row that is upserted.
abbrev pub merged_into : Certificate → Option Certificate → Certificate
merged_into c none = c
merged_into c (some old) = merged c old

pub upsert-same :
    (c : Certificate) (t : Tables)
    → certificate c.domain (upsert_certificate c t) ≡ some (merged_into c (certificate c.domain t))
unfolding certificate upsert_certificate
upsert-same c t =
    let p = cert_of c.domain in
    elim (Bool-cases (any p t.certificates)) [
      | inl there ↦ rw there (first-update p (merged c) t.certificates (λ x. refl) ∙ found there)
      | inr absent ↦
          rw (absent, any-first p t.certificates absent)
            (first-append p t.certificates c (any-first p t.certificates absent)
              (bytes_beq_refl c.domain))
    ]
  where
    found :
        any (cert_of c.domain) t.certificates ≡ true
        → mapped (merged c) (first (cert_of c.domain) t.certificates)
          ≡ some (merged_into c (first (cert_of c.domain) t.certificates))
    found there = let (row, e) = any-found (cert_of c.domain) t.certificates there in rw e refl

pub upsert-other :
    (c : Certificate) (d : Bytes) (t : Tables)
    → c.domain ≢ d
    → certificate d (upsert_certificate c t) ≡ certificate d t
unfolding certificate upsert_certificate
upsert-other c d t ne = elim (Bool-cases (any (cert_of c.domain) t.certificates)) [
  | inl there ↦ rw there (
      first-update_other (cert_of d) (cert_of c.domain) (merged c) t.certificates
        λ x e. let apart = another x e in (apart, apart))
  | inr absent ↦
      rw absent (first-append_other (cert_of d) t.certificates c (bytes_beq_ne c.domain d ne))
]
  where
    another : (x : Certificate) → cert_of c.domain x ≡ true → cert_of d x ≡ false
    another x e =
        bytes_beq_ne x.domain d λ same. ne (sym ((bytes_beq_iff x.domain c.domain).0 e) ∙ same)
