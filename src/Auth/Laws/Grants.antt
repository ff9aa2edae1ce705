-- ===== src/Auth/Laws/Grants.antt =====
-- What the route table lets a plain user do.
use aura_cp.Prelude.{
  ◌≡◌, ◌≢◌, refl, ◌⊎◌, inl, inr, Bool, true, false, ◌&&◌, ◌||◌, not, List, [], ◌∷◌, none, String,
  arith, ◌==◌, string_eq, all, any, All, Bool-cases, &&-eq-true,
}
use text.Mathlib.TextEquality.{eq_iff}
use aura_cp.Permissions.{admin, site_manager, find, parse, default_for_role, compiled_default}
use aura_cp.Permissions.Roles.{OneOf, site_resources, user-can}
use aura_cp.Auth.Accounts.{User, Panel}
use aura_cp.Auth.Handlers.{Crypto}
use aura_cp.Auth.Routes.{Guard, open_to_all, signed_in, admin_only, needs, Route, routes}
use aura_cp.Auth.Laws.Guards.{Passes}

-- The handlers that change something and still are for everyone: signing in and out, one's own second factor,
-- the first set-up, the door to a database's own tool, and the probe for certificate challenges, which is a GET
-- that makes a directory and writes and removes a file.
abbrev pub for_everyone : List String
for_everyone =
    "setupAdmin" ∷ "login" ∷ "mfaVerify" ∷ "logout" ∷ "mfaSetup" ∷ "mfaEnable" ∷ "mfaDisable"
    ∷ "manageDatabase" ∷ "siteSSLPreflight" ∷ []

-- The requests by GET that change something.
abbrev pub acting : List String
acting = "siteSSLPreflight" ∷ []

abbrev pub IsHarmless : Route → Type 0
IsHarmless r = (r.method ≡ "GET") × (OneOf r.handler acting → ⊥) ⊎ OneOf r.handler for_everyone

abbrev one_of : String → List String → Bool
one_of s ts = any (λ t. s == t) ts

one_of→OneOf : (s : String) (ts : List String) → one_of s ts ≡ true → OneOf s ts
one_of→OneOf s [] h = cc
one_of→OneOf s (t ∷ ts) h = elim (Bool-cases (s == t)) [
  | inl e ↦ inl ((eq_iff s t).0 e)
  | inr e ↦ inr (one_of→OneOf s ts (rw e at h))
]

OneOf→one_of : (s : String) (ts : List String) → OneOf s ts → one_of s ts ≡ true
OneOf→one_of s [] h = elim h [ ]
OneOf→one_of s (t ∷ ts) (inl e) = rw ((eq_iff s t).1 e) refl
OneOf→one_of s (t ∷ ts) (inr h) = right (s == t) _ (OneOf→one_of s ts h)
  where
    right : (a b : Bool) → b ≡ true → (a || b) ≡ true
    right a b e = ground arith

-- A guard that a plain user may pass.
abbrev passable : Guard → Bool
passable open_to_all = true
passable signed_in = true
passable admin_only = false
passable (needs resource action) = action == "read" && one_of resource site_resources

abbrev harmless : Route → Bool
harmless r = r.method == "GET" && not (one_of r.handler acting) || one_of r.handler for_everyone

harmless→IsHarmless : (r : Route) → harmless r ≡ true → IsHarmless r
harmless→IsHarmless r h = elim (Bool-cases (r.method == "GET" && not (one_of r.handler acting))) [
  | inl e ↦
      let (get, passive) = &&-eq-true (r.method == "GET") (not (one_of r.handler acting)) e in
      inl (
        (eq_iff r.method "GET").0 get,
        (λ q. absurd (clash (one_of r.handler acting) passive (OneOf→one_of r.handler acting q))),
      )
  | inr e ↦ inr (one_of→OneOf r.handler for_everyone (rw e at h))
]
  where
    clash : (b : Bool) → not b ≡ true → b ≡ true → ⊥
    clash b x y = ground arith

abbrev sound : Route → Bool
sound r = not (passable r.guard) || harmless r

routes-sound : all sound routes ≡ true
unfolding routes
routes-sound = refl

module _ (c : Crypto) (p : Panel) (u : User) (not_admin : u.role ≢ admin)
    (not_manager : u.role ≢ site_manager) (no_matrix : u.permissions ≡ "")
    (no_override : find u.role p.overrides ≡ none) where
  set_of : parse c.unmarshal_set p.overrides u.permissions u.role ≡ compiled_default u.role
  unfolding parse default_for_role
  set_of =
      rw no_matrix (elim (Bool-cases (u.role == admin)) [
        | inl e ↦ rw e refl
        | inr e ↦ rw (e, no_override) refl
      ])

  Passes-passable : (g : Guard) → Passes c p g u → passable g ≡ true
  Passes-passable open_to_all h = refl
  Passes-passable signed_in h = refl
  Passes-passable admin_only h = absurd (not_admin h)
  Passes-passable (needs resource action) h = elim (Bool-cases (u.role == admin)) [
    | inl e ↦ absurd (not_admin ((eq_iff u.role admin).0 e))
    | inr e ↦
        let (reads, site) =
          user-can u.role resource action not_admin not_manager (rw set_of at (rw e at h)) in
        both _ _ ((eq_iff action "read").1 reads) (OneOf→one_of resource site_resources site)
  ]
    where
      both : (a b : Bool) → a ≡ true → b ≡ true → (a && b) ≡ true
      both a b x y = ground arith

  sound-IsHarmless : (r : Route) → sound r ≡ true → Passes c p r.guard u → IsHarmless r
  sound-IsHarmless r s h =
      harmless→IsHarmless r (left (passable r.guard) (harmless r) (Passes-passable r.guard h) s)
    where
      left : (a b : Bool) → a ≡ true → (not a || b) ≡ true → b ≡ true
      left a b e f = ground arith

  all-IsHarmless :
      (rs : List Route) → all sound rs ≡ true → All (λ r. Passes c p r.guard u → IsHarmless r) rs
  all-IsHarmless [] h = tt
  all-IsHarmless (r ∷ rs) h =
      let (first, rest) = &&-eq-true (sound r) (all sound rs) h in
      (sound-IsHarmless r first, all-IsHarmless rs rest)

  -- A user who is neither administrator nor site manager, and for whom no permissions have been set, gets past
  -- the guards of requests by GET other than the probe for certificate challenges, and otherwise only of that
  -- probe, signing in and out, the first set-up, their own second factor, and opening a database in Adminer.
  pub routes-IsHarmless : All (λ r. Passes c p r.guard u → IsHarmless r) routes
  routes-IsHarmless = all-IsHarmless routes routes-sound
