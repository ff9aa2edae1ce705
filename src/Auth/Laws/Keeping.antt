-- ===== src/Auth/Laws/Keeping.antt =====
-- What the handlers of internal/api/auth.go keep.
use aura_cp.Prelude.{
  ℕ, Bool, true, false, ◌||◌, [], Option, none, some, String, Bytes, arith, ◌==◌, bytes_eq,
  string_eq, nat_eq, ltb, length, Bool-cases, inl, inr,
}
use aura_cp.Permissions.{Overrides, admin}
use aura_cp.Web.Middleware.{Request}
use aura_cp.Auth.Accounts.{
  User, Panel, user_by_id, user_by_email, create_user, update_user_access, set_user_totp, session,
  create_session, count_users, clear_session_mfa_pending, delete_session, set_setting, add_audit,
}
use aura_cp.Auth.Handlers.{
  Reply, Crypto, Credentials, setup_admin, first_admin, hashed, registered, welcome, or_same, login,
  checked, open_session, started, mfa_verify, verify_with, found_session, verified, second_factor,
  code_matches, may_disable, logout, forget, token_of, mfa_setup, mfa_enable, mfa_disable, audit,
  current_user, protect, require_admin, require_perm,
}
use aura_cp.Auth.Totp.{verify_totp}
use aura_cp.Auth.Routes.{Guard, open_to_all, signed_in, admin_only, needs, behind}
use aura_cp.Auth.Laws.Schema.{Holds}

-- A predicate that every statement keeps, except the one that deletes a user.
pub record Survives (P : Panel → Type 0) : Type 0 where
  pub audited :
      (p : Panel) (actor action target : String) → P p → P (add_audit actor action target p)
  pub created :
      (p : Panel) (email : String) (hash : Bytes) (role permissions scope : String)
      → P p
      → Holds (λ x. P x.1) (create_user email hash role permissions scope p)
  pub access :
      (p : Panel) (email role permissions scope : String)
      → P p
      → P (update_user_access email role permissions scope p)
  pub totp : (p : Panel) (id : ℕ) (secret : Bytes) → P p → P (set_user_totp id secret p)
  pub begun :
      (p : Panel) (token : Bytes) (id : ℕ) (pending : Bool) (expires_at : ℕ)
      → P p
      → Holds P (create_session token id pending expires_at p)
  pub completed : (p : Panel) (token : Bytes) → P p → P (clear_session_mfa_pending token p)
  pub ended : (p : Panel) (token : Bytes) → P p → P (delete_session token p)
  pub setting : (p : Panel) (key value : String) → P p → P (set_setting key value p)
  pub overrides : (p : Panel) (o : Overrides) → P p → P (record p { overrides = o })

module _ {P : Panel → Type 0} (k : Survives P) where
  pub audit-keeps :
      (r : Request) (now : ℕ) (action target : String) (p : Panel)
      → P p
      → P (audit r now action target p)
  unfolding audit
  audit-keeps r now action target p h = k.audited p _ action target h

  pub behind-keeps :
      (c : Crypto) (g : Guard) (r : Request) (now : ℕ) (h : Panel → Reply × Panel) (p : Panel)
      → (P p → P (h p).1)
      → P p
      → P (behind c g r now h p).1
  unfolding behind protect require_admin require_perm
  behind-keeps c open_to_all r now h p kh v = kh v
  behind-keeps c signed_in r now h p kh v = ground arith
  behind-keeps c admin_only r now h p kh v = ground arith
  behind-keeps c (needs resource action) r now h p kh v = ground arith

  module _ (c : Crypto) (r : Request) (now : ℕ) where
    or_same-keeps : (o : Option Panel) (p : Panel) → Holds P o → P p → P (or_same c r now o p)
    or_same-keeps none p h v = v
    or_same-keeps (some q) p h v = h

    welcome-keeps :
        (token : Option Bytes) (id : ℕ) (email : String) (p : Panel)
        → P p
        → P (welcome c r now token id email p).1
    welcome-keeps none id email p v = v
    welcome-keeps (some token) id email p v =
        audit-keeps r now _ email _ (or_same-keeps _ p (k.begun p token id false _ v) v)

    registered-keeps :
        (o : Option (ℕ × Panel)) (token : Option Bytes) (email : String) (p : Panel)
        → Holds (λ x. P x.1) o
        → P p
        → P (registered c r now o token email p).1
    registered-keeps none token email p h v = v
    registered-keeps (some (id, q)) token email p h v = welcome-keeps token id email q h

    hashed-keeps :
        (hash : Option Bytes) (token : Option Bytes) (email : String) (p : Panel)
        → P p
        → P (hashed c r now hash token email p).1
    hashed-keeps none token email p v = v
    hashed-keeps (some hash) token email p v =
        registered-keeps _ token email p (k.created p email hash admin "" "" v) v

    first_admin-keeps :
        (input : Option Credentials) (token : Option Bytes) (p : Panel)
        → P p
        → P (first_admin c r now input token p).1
    first_admin-keeps none token p v = v
    first_admin-keeps (some (email, password)) token p v =
        elim (Bool-cases (email == "" || ltb (length password) 8)) [
          | inl e ↦ rw e v
          | inr e ↦ rw e (hashed-keeps (c.hash_password password) token email p v)
        ]

    pub setup_admin-keeps :
        (input : Option Credentials) (token : Option Bytes) (p : Panel)
        → P p
        → P (setup_admin c r now input token p).1
    unfolding setup_admin
    setup_admin-keeps input token p v = elim (Bool-cases (ltb 0 (count_users p))) [
      | inl e ↦ rw e v
      | inr e ↦ rw e (first_admin-keeps input token p v)
    ]

    started-keeps :
        (o : Option Panel) (token : Bytes) (u : User) (p : Panel)
        → Holds P o
        → P p
        → P (started c r now o token u p).1
    started-keeps none token u p h v = v
    started-keeps (some q) token u p h v = h

    open_session-keeps :
        (token : Option Bytes) (u : User) (p : Panel) → P p → P (open_session c r now token u p).1
    open_session-keeps none u p v = v
    open_session-keeps (some token) u p v = started-keeps _ token u p (k.begun p token u.id _ _ v) v

    checked-keeps :
        (o : Option User) (password : Bytes) (token : Option Bytes) (p : Panel)
        → P p
        → P (checked c r now o password token p).1
    checked-keeps none password token p v = v
    checked-keeps (some u) password token p v =
        elim (Bool-cases (c.check_password u.password_hash password)) [
          | inl e ↦ rw e (open_session-keeps token u p v)
          | inr e ↦ rw e v
        ]

    pub login-keeps :
        (input : Option Credentials) (token : Option Bytes) (p : Panel)
        → P p
        → P (login c r now input token p).1
    unfolding login
    login-keeps none token p v = v
    login-keeps (some (email, password)) token p v =
        checked-keeps (user_by_email email p) password token p v

    second_factor-keeps :
        (token : Bytes) (u : User) (code : Option Bytes) (p : Panel)
        → P p
        → P (second_factor c r now token u code p).1
    second_factor-keeps token u none p v = v
    second_factor-keeps token u (some code) p v = elim (Bool-cases (code_matches c r now u code)) [
      | inl e ↦ rw e (k.completed p token v)
      | inr e ↦ rw e v
    ]

    found_session-keeps :
        (token : Bytes) (o : Option (ℕ × Bool)) (code : Option Bytes) (p : Panel)
        → P p
        → P (found_session c r now token o code p).1
    found_session-keeps token none code p v = v
    found_session-keeps token (some (id, pending)) code p v =
        by_user token pending (user_by_id id p) code p v
      where
        by_user :
            (token : Bytes) (pending : Bool) (o : Option User) (code : Option Bytes) (p : Panel)
            → P p
            → P (verified c r now token pending o code p).1
        by_user token pending none code p v = v
        by_user token false (some u) code p v = v
        by_user token true (some u) code p v = second_factor-keeps token u code p v

    pub mfa_verify-keeps : (code : Option Bytes) (p : Panel) → P p → P (mfa_verify c r now code p).1
    unfolding mfa_verify
    mfa_verify-keeps code p v = by_token (token_of r)
      where
        by_token : (o : Option Bytes) → P (verify_with c r now o code p).1
        by_token none = v
        by_token (some token) = found_session-keeps token (session now token p) code p v

    pub logout-keeps : (p : Panel) → P p → P (logout c r now p).1
    unfolding logout
    logout-keeps p v = by_token (token_of r)
      where
        by_token : (o : Option Bytes) → P (forget c r now o p)
        by_token none = v
        by_token (some token) = k.ended p token v

    pub mfa_setup-keeps :
        (secret : Option Bytes) (p : Panel) → P p → P (mfa_setup c r now secret p).1
    unfolding mfa_setup
    mfa_setup-keeps none p v = v
    mfa_setup-keeps (some secret) p v = v

    pub mfa_enable-keeps :
        (input : Option (Bytes × Bytes)) (p : Panel) → P p → P (mfa_enable c r now input p).1
    unfolding mfa_enable
    mfa_enable-keeps none p v = v
    mfa_enable-keeps (some (secret, code)) p v =
        elim (Bool-cases (verify_totp c.hashing secret code now)) [
          | inl e ↦ rw e (k.totp p _ secret v)
          | inr e ↦ rw e v
        ]

    pub mfa_disable-keeps :
        (code : Option Bytes) (p : Panel) → P p → P (mfa_disable c r now code p).1
    unfolding mfa_disable
    mfa_disable-keeps none p v = v
    mfa_disable-keeps (some code) p v =
        elim (Bool-cases (may_disable c r now (current_user r now p) code)) [
          | inl e ↦ rw e (k.totp p _ [] v)
          | inr e ↦ rw e v
        ]
