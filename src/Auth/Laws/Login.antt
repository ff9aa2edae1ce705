-- ===== src/Auth/Laws/Login.antt =====
-- Signing in, with and without a second factor.
use aura_cp.Prelude.{
  ℕ, ◌≤◌, ◌+◌, ◌≡◌, refl, Bool, true, false, ◌||◌, List, [], ◌∷◌, none, some, String, Bytes, arith,
  ◌==◌, bytes_eq, string_eq, nat_eq, ltb, if◌then◌else◌, any, Bool-cases, inl, inr, subst,
  nat_beq_iff, bytes_beq_refl,
}
use aura_cp.Web.Middleware.{Request}
use aura_cp.Rows.{first, update}
use aura_cp.Auth.Accounts.{
  User, Panel, has_id, has_token, mfa_enabled, user_by_email, user_by_id, create_session, session,
  clear_session_mfa_pending,
}
use aura_cp.Auth.Handlers.{
  Crypto, token_of, current_user, login, mfa_verify, code_matches, session_ttl,
}
use aura_cp.Rows.Laws.{Any, Any-map, first-Any, first-any, Distinct}
use aura_cp.Auth.Laws.Schema.{IsValid}

-- An id is found again where no two rows share one.
first-id :
    (u : User) (us : List User)
    → Distinct has_id (λ w. w.id) us
    → Any (λ w. w ≡ u) us
    → first (has_id u.id) us ≡ some u
unfolding first
first-id u [] d there = elim there [ ]
first-id u (w ∷ us) d (inl same) = rw same (rw ((nat_beq_iff u.id u.id).1 refl) refl)
first-id u (w ∷ us) d (inr there) =
    rw (differs w.id u.id (others us there d.0)) (first-id u us d.1 there)
  where
    differs : (a b : ℕ) → ((b == a) ≡ false) → (a == b) ≡ false
    differs a b h = ground arith

    left : (a b : Bool) → (a || b) ≡ false → a ≡ false
    left a b h = ground arith

    others :
        (vs : List User)
        → Any (λ v. v ≡ u) vs
        → any (has_id w.id) vs ≡ false
        → (u.id == w.id) ≡ false
    others [] q n = elim q [ ]
    others (v ∷ vs) (inl same) n = subst (λ x. (x.id == w.id) ≡ false) same (left _ _ n)
    others (v ∷ vs) (inr q) n = others vs q (ground arith)

-- A live session of the user, as the first of its token.
abbrev Begun : Panel → User → Bytes → Bool → (expires_at : ℕ) → Panel
Begun p u token pending expires_at = record p {
  sessions =
      record { token = token; user_id = u.id; mfa_pending = pending; expires_at = expires_at }
      ∷ p.sessions;
}

module _ (c : Crypto) (r : Request) (now : ℕ) (email : String) (password token : Bytes) (p : Panel)
    (v : IsValid p) (u : User) (known : user_by_email email p ≡ some u)
    (right : c.check_password u.password_hash password ≡ true)
    (fresh : any (has_token token) p.sessions ≡ false) where
  there : Any (λ w. w ≡ u) p.users
  unfolding user_by_email
  there = Any-map _ _ p.users (λ x q. q.0) (first-Any _ p.users u known)

  has_user : any (has_id u.id) p.users ≡ true
  has_user = (first-any (has_id u.id) p.users u (first-id u p.users v.ids there)).0

  found_again : user_by_id u.id p ≡ some u
  unfolding user_by_id
  found_again = first-id u p.users v.ids there

  login_panel :
      (login c r now (some (email, password)) (some token) p).1
      ≡ Begun p u token (mfa_enabled u) (now + session_ttl)
  unfolding login create_session
  login_panel = rw (known, right, fresh, has_user) refl

  module _ (r' : Request) (cookie : token_of r' ≡ some token) (later : ℕ)
      (soon : later ≤ now + session_ttl) where
    in_time : ltb (now + session_ttl) later ≡ false
    in_time = ground arith

    found_session_of :
        (pending : Bool)
        → session later token (Begun p u token pending (now + session_ttl)) ≡ some (u.id, pending)
    unfolding session first
    found_session_of pending = rw (bytes_beq_refl token, in_time) refl

    user_known :
        (pending : Bool) → user_by_id u.id (Begun p u token pending (now + session_ttl)) ≡ some u
    unfolding user_by_id
    user_known pending = first-id u p.users v.ids there

    current_of :
        (pending : Bool)
        → current_user r' later (Begun p u token pending (now + session_ttl))
          ≡ (if pending then none else some u)
    unfolding current_user
    current_of true = rw (cookie, found_session_of true) refl
    current_of false = rw (cookie, found_session_of false) (user_known false)

    -- In a panel whose ids are distinct, signing in with the right password and a new token makes the token that
    -- of the user for twelve hours, except that for a user with a second factor it signs nobody in yet.
    pub current_user-login :
        current_user r' later (login c r now (some (email, password)) (some token) p).1
        ≡ (if mfa_enabled u then none else some u)
    current_user-login = rw login_panel (current_of (mfa_enabled u))

    pending_panel : Panel
    pending_panel = Begun p u token true (now + session_ttl)

    confirmed : current_user r' later (clear_session_mfa_pending token pending_panel) ≡ some u
    unfolding current_user session first clear_session_mfa_pending pending_panel update user_by_id
    confirmed =
        rw (cookie, bytes_beq_refl token)
          (rw (bytes_beq_refl token, in_time) (first-id u p.users v.ids there))

    module _ (r'' : Request) (same_cookie : token_of r'' ≡ some token) (t : ℕ)
        (open_still : t ≤ now + session_ttl) (code : Bytes) (enabled : mfa_enabled u ≡ true) where
      ltb_late : ltb (now + session_ttl) t ≡ false
      ltb_late = ground arith

      known_still : user_by_id u.id pending_panel ≡ some u
      unfolding pending_panel
      known_still = user_known true

      pending_session : session t token pending_panel ≡ some (u.id, true)
      unfolding session first pending_panel
      pending_session = rw (bytes_beq_refl token, ltb_late) refl

      verify_panel : (mfa_verify c r'' t (some code) pending_panel).1 ≡ (
          if code_matches c r'' t u code
          then clear_session_mfa_pending token pending_panel
          else pending_panel)
      unfolding mfa_verify
      verify_panel =
          rw (same_cookie, pending_session, known_still)
            (elim (Bool-cases (code_matches c r'' t u code)) [
              | inl e ↦ rw e refl
              | inr e ↦ rw e refl
            ])

      -- After that, a user with a second factor is signed in exactly when the code that is sent along matches.
      pub current_user-mfa_verify :
          current_user r' later
            (mfa_verify c r'' t
              (some code)
              (login c r now (some (email, password)) (some token) p).1).1
          ≡ (if code_matches c r'' t u code then some u else none)
      unfolding pending_panel
      current_user-mfa_verify =
          rw (login_panel, enabled, verify_panel)
            (elim (Bool-cases (code_matches c r'' t u code)) [
              | inl e ↦ rw e confirmed
              | inr e ↦ rw e (current_of true)
            ])
