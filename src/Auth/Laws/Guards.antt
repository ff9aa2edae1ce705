-- ===== src/Auth/Laws/Guards.antt =====
-- Which requests reach a handler behind a wrapper.
use aura_cp.Prelude.{
  ℕ, ◌≤◌, ◌≡◌, ◌≢◌, refl, ◌⊎◌, inl, inr, Bool, true, false, Option, none, some, Bytes, arith, ◌==◌,
  bytes_eq, string_eq, nat_eq, Bool-cases, Option-cases, bytes_beq_iff, nat_beq_iff, subst, sym,
  ◌∙◌,
}
use text.Mathlib.TextEquality.{eq_iff}
use aura_cp.Permissions.{admin}
use aura_cp.Web.Middleware.{Request}
use aura_cp.Rows.{first}
use aura_cp.Auth.Accounts.{
  User, Session, Panel, has_id, has_token, user_by_id, session, live_session,
}
use aura_cp.Auth.Handlers.{
  Reply, Crypto, refuse, token_of, complete, user_of, current_user, protect, require_admin,
  require_perm, granted,
}
use aura_cp.Auth.Routes.{Guard, open_to_all, signed_in, admin_only, needs, behind}
use aura_cp.Rows.Laws.{Any, Any-map, first-Any, first-any}

-- The user is signed in by the token: there is a session of it that has not expired and waits for no second
-- factor, and the user that it names is there.
abbrev pub IsSignedIn : Bytes → ℕ → User → Panel → Type 0
IsSignedIn token now u p =
    Any
      (λ s. (s.token ≡ token) × (s.mfa_pending ≡ false) × (now ≤ s.expires_at) × (s.user_id ≡ u.id))
      p.sessions
    × Any (λ v. v ≡ u) p.users

-- What the guard asks of a user that is signed in.
abbrev pub Passes : Crypto → Panel → Guard → User → Type 0
Passes c p open_to_all u = Unit {0}
Passes c p signed_in u = Unit {0}
Passes c p admin_only u = u.role ≡ admin
Passes c p (needs resource action) u = granted c p resource action u ≡ true

live_cases :
    (now : ℕ) (s : Session) (id : ℕ) (pending : Bool)
    → live_session now (some s) ≡ some (id, pending)
    → (now ≤ s.expires_at) × (s.user_id ≡ id) × (s.mfa_pending ≡ pending)
live_cases now s id pending h = ground arith

module _ (now : ℕ) (token : Bytes) (p : Panel) where
  -- A session that is found has the given user and flag, and has not expired.
  pub session-Any :
      (id : ℕ) (pending : Bool)
      → session now token p ≡ some (id, pending)
      → Any
          (λ s.
            (s.token ≡ token) × (s.mfa_pending ≡ pending) × (now ≤ s.expires_at) × (s.user_id ≡ id))
          p.sessions
  unfolding session
  session-Any id pending h = elim (Option-cases (first (has_token token) p.sessions)) [
    | inl e ↦ cc (e, h)
    | inr (s, e) ↦
        let (live, owner, flag) =
          live_cases now s id pending (subst (λ o. live_session now o ≡ some (id, pending)) e h) in
        Any-map _ _ p.sessions
          (λ x q.
            subst
              (λ y.
                (y.token ≡ token)
                × (y.mfa_pending ≡ pending)
                × (now ≤ y.expires_at)
                × (y.user_id ≡ id))
              (sym q.0) ((bytes_beq_iff s.token token).0 q.1, flag, live, owner))
          (first-Any (has_token token) p.sessions s e)
  ]

  complete-IsSignedIn :
      (o : Option (ℕ × Bool)) (u : User)
      → session now token p ≡ o
      → complete o p ≡ some u
      → IsSignedIn token now u p
  unfolding user_by_id
  complete-IsSignedIn none u e h = cc
  complete-IsSignedIn (some (id, true)) u e h = cc
  complete-IsSignedIn (some (id, false)) u e h =
      let same = (nat_beq_iff u.id id).0 (first-any (has_id id) p.users u h).1 in
      (
        Any-map _ _ p.sessions (λ x q. (q.0, q.1, q.2, q.3 ∙ sym same)) (session-Any id false e),
        Any-map _ _ p.users (λ x q. q.0) (first-Any (has_id id) p.users u h),
      )

-- What currentUser returns is a user whom the cookie's token signs in.
pub current_user-IsSignedIn :
    (r : Request) (now : ℕ) (p : Panel) (u : User)
    → current_user r now p ≡ some u
    → (token : Bytes) × (token_of r ≡ some token) × IsSignedIn token now u p
unfolding current_user
current_user-IsSignedIn r now p u h = by_token (token_of r) refl h
  where
    by_token :
        (o : Option Bytes)
        → token_of r ≡ o
        → user_of o now p ≡ some u
        → (token : Bytes) × (token_of r ≡ some token) × IsSignedIn token now u p
    by_token none e h = cc
    by_token (some token) e h = (token, e, complete-IsSignedIn now token p _ u refl h)

module _ (c : Crypto) (r : Request) (now : ℕ) (h : Panel → Reply × Panel) (p : Panel) where
  abbrev pub Refused : Reply × Panel → Type 0
  Refused x = (x ≡ refuse 401 p) ⊎ (x ≡ refuse 403 p)

  -- The handler's answer to a request of a user that passes the guard.
  abbrev pub Admitted : Guard → Reply × Panel → Type 0
  Admitted g x =
      (u : User) × ((token : Bytes) × (token_of r ≡ some token) × IsSignedIn token now u p)
      × Passes c p g u
      × (x ≡ h p)

  pub behind-cases :
      (g : Guard)
      → g ≢ open_to_all
      → (o : Option User) → current_user r now p ≡ o
      → Refused (behind c g r now h p)
        ⊎ ((u : User) × (o ≡ some u) × Passes c p g u × (behind c g r now h p ≡ h p))
  unfolding behind protect require_admin require_perm current_user
  behind-cases open_to_all ne o e = absurd (ne refl)
  behind-cases signed_in ne none e = inl (inl (rw e refl))
  behind-cases signed_in ne (some u) e = inr (u, refl, tt, rw e refl)
  behind-cases admin_only ne none e = inl (inl (rw e refl))
  behind-cases admin_only ne (some u) e = elim (Bool-cases (u.role == admin)) [
    | inl b ↦ inr (u, refl, (eq_iff u.role admin).0 b, rw (e, b) refl)
    | inr b ↦ inl (inr (rw (e, b) refl))
  ]
  behind-cases (needs resource action) ne none e = inl (inl (rw e refl))
  behind-cases (needs resource action) ne (some u) e =
      elim (Bool-cases (granted c p resource action u)) [
        | inl b ↦ inr (u, refl, b, rw (e, b) refl)
        | inr b ↦ inl (inr (rw (e, b) refl))
      ]

  -- Whatever handler stands behind a guard, a request gets 401 or 403 and changes nothing, or the cookie
  -- names a session that has not expired and waits for no second factor, of a user that is there and has the
  -- role or the permission that the guard asks for, and the handler answers it.
  pub behind-Admitted :
      (g : Guard)
      → g ≢ open_to_all
      → Refused (behind c g r now h p) ⊎ Admitted g (behind c g r now h p)
  behind-Admitted g ne = elim (behind-cases g ne (current_user r now p) refl) [
    | inl refused ↦ inl refused
    | inr (u, found, passes, same) ↦ inr (u, current_user-IsSignedIn r now p u found, passes, same)
  ]
