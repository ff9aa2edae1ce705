-- ===== src/Auth/Laws/Scope.antt =====
-- Which sites a user sees, and which are in scope.
use aura_cp.Prelude.{
  ℕ, ◌≡◌, ◌↔◌, ◌⊎◌, ◌||◌, refl, inl, inr, Bool, true, false, List, [], ◌∷◌, none, some, String,
  arith, ◌==◌, string_eq, if◌then◌else◌, keep, any, Bool-cases, subst, sym,
}
use text.Mathlib.TextEquality.{eq_iff}
use aura_cp.Permissions.{admin, allowed_sites}
use aura_cp.Permissions.Roles.{OneOf}
use aura_cp.Web.Middleware.{Request}
use aura_cp.Auth.Accounts.{User, Panel}
use aura_cp.Auth.Handlers.{Crypto, current_user}
use aura_cp.Auth.Users.{reaches, judged, visible, scoped_domain, list_sites}
use aura_cp.Rows.Laws.{keep-true, keep-false}

module _ (f : String → Bool) (d : String) where
  OneOf-keep : (ds : List String) → OneOf d (keep f ds) ↔ ((OneOf d ds) × (f d ≡ true))
  unfolding keep
  OneOf-keep [] = ((λ h. elim h [ ]), (λ h. elim h.0 [ ]))
  OneOf-keep (e ∷ ds) = elim (Bool-cases (f e)) [
    | inl b ↦ rw (keep-true f e ds b) (
      (λ h. elim h [
        | inl same ↦ (inl same, subst (λ x. f x ≡ true) (sym same) b)
        | inr q ↦ (inr ((OneOf-keep ds).0 q).0, ((OneOf-keep ds).0 q).1)
      ]),
      (λ h. elim h.0 [ inl same ↦ inl same | inr q ↦ inr ((OneOf-keep ds).1 (q, h.1)) ]),
    )
    | inr b ↦ rw (keep-false f e ds b) (
      (λ h. (inr ((OneOf-keep ds).0 h).0, ((OneOf-keep ds).0 h).1)),
      (λ h. elim h.0 [
        | inl same ↦ absurd (clash (subst (λ x. f x ≡ true) same h.1) b)
        | inr q ↦ (OneOf-keep ds).1 (q, h.1)
      ]),
    )
  ]
    where
      clash : {x : Bool} → x ≡ true → x ≡ false → ⊥
      clash h k = ground arith

named : (d : String) (ds : List String) → any (λ x. x == d) ds ≡ true → OneOf d ds
named d [] h = cc
named d (e ∷ ds) h = elim (Bool-cases (e == d)) [
  | inl same ↦ inl (sym ((eq_iff e d).0 same))
  | inr other ↦ inr (named d ds (rw other at h))
]

present : (d : String) (ds : List String) → OneOf d ds → any (λ x. x == d) ds ≡ true
present d [] h = elim h [ ]
present d (e ∷ ds) (inl same) = rw ((eq_iff e d).1 (sym same)) refl
present d (e ∷ ds) (inr h) = right (e == d) _ (present d ds h)
  where
    right : (a b : Bool) → b ≡ true → (a || b) ≡ true
    right a b e = ground arith

module _ (c : Crypto) where
  judged-none : (u : User) (d : String) → (judged c (some u) d ≡ none) ↔ (reaches c u d ≡ true)
  judged-none u d = elim (Bool-cases (reaches c u d)) [
    | inl e ↦ rw e ((λ h. refl), (λ h. refl))
    | inr e ↦ rw e ((λ h. cc), (λ h. cc))
  ]

  visible-keep :
      (u : User) (ds : List String)
      → (u.role == admin) ≡ false
      → visible c (some u) ds ≡ keep (reaches c u) ds
  visible-keep u ds e = choice (u.role == admin) e
    where
      choice :
          (b : Bool) → b ≡ false → (if b then ds else keep (reaches c u) ds) ≡ keep (reaches c u) ds
      choice b h = rw h refl

  visible_iff :
      (u : User) (d : String) (ds : List String)
      → OneOf d (visible c (some u) ds) ↔ (OneOf d ds × (judged c (some u) d ≡ none))
  visible_iff u d ds = elim (Bool-cases (u.role == admin)) [
    | inl e ↦ rw e ((λ h. (h, refl)), (λ h. h.0))
    | inr e ↦ (
      (λ h.
          let kept = (OneOf-keep (reaches c u) d ds).0 (subst (OneOf d) (visible-keep u ds e) h) in
          (kept.0, (judged-none u d).1 kept.1)),
      (λ h.
          subst (OneOf d) (sym (visible-keep u ds e))
            ((OneOf-keep (reaches c u) d ds).1 (h.0, (judged-none u d).0 h.1))),
    )
  ]

  -- The scope of a user: every site for an administrator or without a restriction, else those it names.
  abbrev pub HasScope : User → String → Type 0
  HasScope u d =
      (u.role ≡ admin)
      ⊎ ((allowed_sites c.unmarshal_sites u.sites_scope).1 ≡ true)
      ⊎ OneOf d (allowed_sites c.unmarshal_sites u.sites_scope).0

  scoped_iff :
      (a b : Bool) (d : String) (ds : List String)
      → ((a || (b || any (λ x. x == d) ds)) ≡ true) ↔ ((a ≡ true) ⊎ (b ≡ true) ⊎ OneOf d ds)
  scoped_iff true b d ds = ((λ h. inl refl), (λ h. refl))
  scoped_iff false true d ds = ((λ h. inr (inl refl)), (λ h. refl))
  scoped_iff false false d ds = (
    (λ h. inr (inr (named d ds h))),
    (λ h. elim h [
      | inl e ↦ absurd (ground (arith, e))
      | inr r ↦ elim r [ inl e ↦ absurd (ground (arith, e)) | inr q ↦ present d ds q ]
    ]),
  )

  reaches_iff : (u : User) (d : String) → (reaches c u d ≡ true) ↔ HasScope u d
  reaches_iff u d =
      let scope = allowed_sites c.unmarshal_sites u.sites_scope in
      let both = scoped_iff (u.role == admin) scope.1 d scope.0 in
      (
        (λ h. elim (both.0 h) [ inl e ↦ inl ((eq_iff u.role admin).0 e) | inr r ↦ inr r ]),
        (λ h. both.1 (elim h [ inl e ↦ inl ((eq_iff u.role admin).1 e) | inr r ↦ inr r ])),
      )

  -- For a user who is signed in, the list of sites shows exactly those of the given sites that are in the
  -- user's scope, and the test that getSite makes lets through exactly the sites in that scope.
  pub list_sites_iff :
      (r : Request) (now : ℕ) (p : Panel) (u : User) (d : String) (ds : List String)
      → current_user r now p ≡ some u
      → (OneOf d (list_sites c r now ds p) ↔ (OneOf d ds × HasScope u d))
        × ((scoped_domain c r now d p ≡ none) ↔ HasScope u d)
  unfolding list_sites scoped_domain
  list_sites_iff r now p u d ds found =
      let in_scope : (judged c (some u) d ≡ none) ↔ HasScope u d = (
        (λ h. (reaches_iff u d).0 ((judged-none u d).0 h)),
        (λ h. (judged-none u d).1 ((reaches_iff u d).1 h)),
      ) in
      let shown = visible_iff u d ds in
      rw found (
        ((λ h. ((shown.0 h).0, in_scope.0 (shown.0 h).1)), (λ h. shown.1 (h.0, in_scope.1 h.1))),
        in_scope,
      )
