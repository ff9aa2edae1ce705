-- ===== src/Permissions/Sites.antt =====
-- Which sites a site manager reaches.
use text.Mathlib.TextEquality.{eq_iff}
use aura_cp.Prelude.{
  Bool-cases, ◌≡◌, ◌≢◌, refl, inl, inr, Bool, true, false, List, [], ◌∷◌, Option, none, some,
  String, ◌==◌, string_eq, if◌then◌else◌, any,
}
use aura_cp.Permissions.{allowed_sites, collect_sites}

abbrev pub is_star : String → Bool
is_star d = d == "*"

collect_sites_lem :
    (ds : List String) → collect_sites ds ≡ (if any is_star ds then none else some ds)
unfolding collect_sites
collect_sites_lem [] = refl
collect_sites_lem (d ∷ ds) = elim (Bool-cases (d == "*")) [
  | inl e ↦ rw e refl
  | inr e ↦ elim (Bool-cases (any is_star ds)) [
    | inl f ↦ rw (e, collect_sites_lem ds, f) refl
    | inr f ↦ rw (e, collect_sites_lem ds, f) refl
  ]
]

-- A stored text that is not empty and decodes to a list of domains gives access to exactly the domains listed, except that a
-- star anywhere in it gives access to all.
pub allowed_sites_lem :
    (unmarshal : String → Option (List String)) (json : String) (ds : List String)
    → json ≢ ""
    → unmarshal json ≡ some ds
    → allowed_sites unmarshal json ≡ (if any is_star ds then ([], true) else (ds, false))
unfolding allowed_sites
allowed_sites_lem unmarshal json ds ne h = elim (Bool-cases (json == "")) [
  | inl e ↦ absurd (ne ((eq_iff json "").0 e))
  | inr e ↦ elim (Bool-cases (any is_star ds)) [
    | inl f ↦ rw (e, h, collect_sites_lem ds, f) refl
    | inr f ↦ rw (e, h, collect_sites_lem ds, f) refl
  ]
]
