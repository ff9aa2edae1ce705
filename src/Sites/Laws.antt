-- ===== src/Sites/Laws.antt =====
-- What removing a site leaves in the database.
use aura_cp.Prelude.{
  ◌≡◌, ◌≢◌, refl, sym, subst, ◌∙◌, false, not, none, Bytes, bytes_eq, bytes_beq_ne, bytes_beq_iff,
  arith,
}
use aura_cp.Rows.Selects.{first-kept, first-keep_other}
use aura_cp.Os.{State, ◌>>=◌}
use aura_cp.Os.Steady.{Preserves-bind, Preserves-relabel}
use aura_cp.Os.Triples.{Triple, After, Triple-bind, Triple-steady}
use aura_cp.Store.{
  Site, Certificate, Tables, site_by_domain, delete_site, certificate, delete_certificate,
  of_domain, cert_of, delete_all_php_settings,
}
use aura_cp.Host.{Host, commit}
use aura_cp.Acme.Laws.Tabled.{Tabled-on_machine, Tabled-query, Tabled-need}
use aura_cp.Sites.{Deps}
use aura_cp.Sites.Lifecycle.{forget, delete, tear_down}
use aura_cp.Sites.Creation.{Are}

module _ {W : Type 0} (d : Deps W) where
  -- No trace of the site in the tables, and nothing else changed in those of sites and certificates.
  abbrev pub IsForgotten : Bytes → Tables → Tables → Type 0
  IsForgotten domain t u =
      (site_by_domain domain u ≡ none)
      × (certificate domain u ≡ none)
      × ((other : Bytes)
          → other ≢ domain
          → (site_by_domain other u ≡ site_by_domain other t)
            × (certificate other u ≡ certificate other t))

  other_site :
      (domain other : Bytes)
      → other ≢ domain
      → (x : Site) → not (of_domain domain x) ≡ false
      → of_domain other x ≡ false
  other_site domain other ne x e =
      bytes_beq_ne x.domain other
        λ same. ne (sym same ∙ (bytes_beq_iff x.domain domain).0 (ground (arith, e)))

  other_cert :
      (domain other : Bytes)
      → other ≢ domain
      → (x : Certificate) → not (cert_of domain x) ≡ false
      → cert_of other x ≡ false
  other_cert domain other ne x e =
      bytes_beq_ne x.domain other
        λ same. ne (sym same ∙ (bytes_beq_iff x.domain domain).0 (ground (arith, e)))

  forgotten :
      (domain : Bytes) (t : Tables)
      → IsForgotten domain t
          (delete_site domain (delete_certificate domain (delete_all_php_settings domain t)))
  unfolding site_by_domain certificate delete_site delete_certificate delete_all_php_settings
  forgotten domain t = (
    first-kept (of_domain domain) t.sites,
    first-kept (cert_of domain) t.certificates,
    λ other ne. (
      first-keep_other (of_domain other) (λ x. not (of_domain domain x)) t.sites
          (other_site domain other ne),
      first-keep_other (cert_of other) (λ x. not (cert_of domain x)) t.certificates
          (other_cert domain other ne),
    ),
  )

  forget-Triple :
      (domain : Bytes) (t : Tables)
      → Triple
          (Are d t)
          (λ x h. IsForgotten domain t h.world.tables)
          (λ h. h.world.tables ≡ t)
          (forget d domain)
  unfolding forget commit ◌>>=◌
  forget-Triple domain t = record {
    at = λ h are.
        subst
          (λ u. IsForgotten domain u (
            delete_site domain
              (delete_certificate domain (delete_all_php_settings domain h.world.tables))))
          are.holds (forgotten domain h.world.tables);
  }

  delete-Triple :
      (domain : Bytes) (t : Tables)
      → Triple
          (Are d t)
          (λ x h. IsForgotten domain t h.world.tables)
          (λ h. h.world.tables ≡ t)
          (delete d domain)
  unfolding delete
  delete-Triple domain t =
      let untouched : (h : State (Host W)) → Are d t h → h.world.tables ≡ t = λ h are. are.holds in
      Triple-bind (λ st. Are d t) _ _ _
        (Triple-steady _ untouched (
          Preserves-bind _ _ (Tabled-query (site_by_domain domain))
            λ row. Preserves-relabel _ _ (Tabled-need row)))
        λ st.
          Triple-bind (λ x. Are d t) _ _ _
            (Triple-steady _ untouched (Tabled-on_machine (tear_down d domain st)))
            λ x. forget-Triple domain t

  -- When Delete succeeds, the tables have neither the site nor its certificate and every other site and
  -- certificate as before; when it fails, the tables are as before, so that Delete can be called again.
  pub delete_lem :
      (domain : Bytes) (h : State (Host W))
      → After
          (λ x g. IsForgotten domain h.world.tables g.world.tables)
          (λ g. g.world.tables ≡ h.world.tables)
          (delete d domain h).0
          (delete d domain h).1
  delete_lem domain h = (delete-Triple domain h.world.tables).at h (record { holds = refl })
