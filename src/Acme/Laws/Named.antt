-- ===== src/Acme/Laws/Named.antt =====
-- The files and the expiry that the row of a certificate names.
use aura_cp.Prelude.{
  ℕ, ◌≡◌, ◌⊎◌, refl, ap, sym, ◌∙◌, Option, none, some, Bytes, ◌==◌, bytes_eq, Bool-cases, inl, inr,
  bytes_beq_iff, arith,
}
use aura_cp.Paths.{cert_path, key_path}
use aura_cp.Store.{Tables, Certificate, certificate, upsert_certificate, merged, coalesce}
use aura_cp.Store.Laws.{merged_into, upsert-same, upsert-other}
use aura_cp.Acme.{renewing, row_of, saved}

pub row_of-domain : (x : Bytes) (o : Option Certificate) → (row_of x o).domain ≡ x
row_of-domain x none = refl
row_of-domain x (some c) = refl

-- The files and the expiry that a row names: those from before, or those of a certificate that has been saved since.
-- Saving takes the expiry from the certificate, or keeps the one from before when it cannot be read.
abbrev pub Names :
    (leaf_expiry : Bytes → Option ℕ) (domain cert key : Bytes) (expires : ℕ) → Certificate → Type 0
Names leaf_expiry domain cert key expires c =
    (c.cert_path ≡ some cert) × (c.key_path ≡ some key) × (c.expires_at ≡ some expires)
    ⊎ (c.cert_path ≡ some (cert_path domain))
      × (c.key_path ≡ some (key_path domain))
      × ((c.expires_at ≡ some expires)
          ⊎ ((body : Bytes) × (at : ℕ) × (leaf_expiry body ≡ some at) × (c.expires_at ≡ some at)))

-- The table has a certificate for the domain that names them.
abbrev pub HasCertificate :
    (leaf_expiry : Bytes → Option ℕ) (domain cert key : Bytes) (expires : ℕ) → Tables → Type 0
HasCertificate leaf_expiry domain cert key expires t =
    (c : Certificate) × (certificate domain t ≡ some c)
    × Names leaf_expiry domain cert key expires c

module _ (leaf_expiry : Bytes → Option ℕ) (domain cert key : Bytes) (expires : ℕ) where
  abbrev pub Has : Tables → Type 0
  Has = HasCertificate leaf_expiry domain cert key expires

  abbrev Named : Certificate → Type 0
  Named = Names leaf_expiry domain cert key expires

  -- Rows of other domains are free.
  abbrev pub Fits : Certificate → Type 0
  Fits c = c.domain ≡ domain → Named c

  coalesce-is : {A : Type 0} (new old : Option A) (x : A) → new ≡ some x → coalesce new old ≡ some x
  coalesce-is new old x e = rw e refl

  merged-Named : (c row : Certificate) → Named c → Named (merged c row)
  merged-Named c row (inl (p, q, e)) = inl (
    coalesce-is c.cert_path row.cert_path cert p,
    coalesce-is c.key_path row.key_path key q,
    coalesce-is c.expires_at row.expires_at expires e,
  )
  merged-Named c row (inr (p, q, inl e)) = inr (
    coalesce-is c.cert_path row.cert_path (cert_path domain) p,
    coalesce-is c.key_path row.key_path (key_path domain) q,
    inl (coalesce-is c.expires_at row.expires_at expires e),
  )
  merged-Named c row (inr (p, q, inr (body, at, read, e))) = inr (
    coalesce-is c.cert_path row.cert_path (cert_path domain) p,
    coalesce-is c.key_path row.key_path (key_path domain) q,
    inr (body, at, read, coalesce-is c.expires_at row.expires_at at e),
  )

  pub upsert-Has : (c : Certificate) (t : Tables) → Fits c → Has t → Has (upsert_certificate c t)
  upsert-Has c t fits (row, found, named) = elim (Bool-cases (c.domain == domain)) [
    | inl same ↦
        let e = (bytes_beq_iff c.domain domain).0 same in
        (merged c row, at_domain e, merged-Named c row (fits e))
    | inr other ↦ (
      row,
      upsert-other c domain t
            (λ e. absurd (ground (arith, (bytes_beq_iff c.domain domain).1 e, other)))
          ∙ found,
      named,
    )
  ]
    where
      at_domain :
          c.domain ≡ domain → certificate domain (upsert_certificate c t) ≡ some (merged c row)
      at_domain e =
          ap (λ d. certificate d (upsert_certificate c t)) (sym e)
          ∙ upsert-same c t
          ∙ ap (λ o. some (merged_into c o)) (ap (λ d. certificate d t) e ∙ found)

  row-Named :
      (d : Bytes) (o : Option Certificate) (row : Certificate)
      → o ≡ some row
      → Named row
      → Named (renewing (row_of d o))
  row-Named d o row e named = rw e named

  pub start-Fits : (d : Bytes) (t : Tables) → Has t → Fits (renewing (row_of d (certificate d t)))
  start-Fits d t (row, found, named) same =
      row-Named d (certificate d t) row
        (ap (λ x. certificate x t) (sym (row_of-domain d (certificate d t)) ∙ same) ∙ found) named

  saved-Named :
      (now : ℕ) (body : Bytes) (c : Certificate) (o : Option ℕ)
      → leaf_expiry body ≡ o
      → c.domain ≡ domain
      → Named c
      → Named (saved now o c)
  saved-Named now body c none read same (inl (p, q, e)) =
      inr (ap (λ d. some (cert_path d)) same, ap (λ d. some (key_path d)) same, inl e)
  saved-Named now body c none read same (inr (p, q, e)) =
      inr (ap (λ d. some (cert_path d)) same, ap (λ d. some (key_path d)) same, e)
  saved-Named now body c (some at) read same named = inr (
    ap (λ d. some (cert_path d)) same,
    ap (λ d. some (key_path d)) same,
    inr (body, at, read, refl),
  )

  pub saved-Fits :
      (now : ℕ) (body : Bytes) (c : Certificate) → Fits c → Fits (saved now (leaf_expiry body) c)
  saved-Fits now body c fits same = saved-Named now body c (leaf_expiry body) refl same (fits same)
