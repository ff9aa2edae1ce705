-- ===== src/Auth/Handlers.antt =====
-- internal/api/auth.go: setting the panel up, signing in and out, the second factor, and the wrappers that let
-- only signed-in users reach a handler.
--
-- Password hashing (bcrypt), random tokens and secrets, JSON decoding and the clock are parameters: an `Option`
-- is `none` for an error. A body that only reports an error is `problem`.
use aura_cp.Prelude.{
  ℕ, ◌+◌, ◌*◌, Bool, true, false, ◌||◌, not, List, [], Option, none, some, String, Bytes, codes,
  ◌==◌, bytes_eq, string_eq, nat_eq, ltb, if◌then◌else◌, length,
}
use aura_cp.Permissions.{PermSet, can, parse, admin}
use aura_cp.Web.Middleware.{Request, cookie}
use aura_cp.Auth.Accounts.{
  User, Panel, secret_text, mfa_enabled, user_by_email, user_by_id, create_user, set_user_totp,
  count_users, create_session, session, clear_session_mfa_pending, delete_session, add_audit,
}
use aura_cp.Auth.Totp.{Hashing, verify_totp}

pub record UserView : Type 0 where
  pub email : String
  pub role : String
  pub mfa_enabled : Bool

pub data Body : Type 0 where
  problem : Body
  done : Body
  setup_required : Bool → Body
  signed_in : UserView → Body
  mfa_required : Body
  enrolment : (secret : Bytes) → Body
  created_user : (email role : String) (password : Bytes) → Body

-- what a handler does to the session cookie
pub data CookieChange : Type 0 where
  unchanged : CookieChange
  set_token : Bytes → CookieChange
  cleared : CookieChange

pub record Reply : Type 0 where
  pub status : ℕ
  pub body : Body
  pub cookie : CookieChange

abbrev pub answer : ℕ → Body → Reply
answer status body = record { status = status; body = body; cookie = unchanged }

abbrev pub refuse : ℕ → Panel → Reply × Panel
refuse status p = (answer status problem, p)

abbrev pub session_cookie : Bytes
session_cookie = codes "auracp_session"

-- twelve hours, in seconds
abbrev pub session_ttl : ℕ
session_ttl = 12 * 3600

abbrev pub view : User → UserView
view u = record { email = u.email; role = u.role; mfa_enabled = mfa_enabled u }

abbrev pub Credentials : Type 0
Credentials = String × Bytes

-- Passwords, tokens, and the JSON decoders of internal/perm.
pub record Crypto : Type 0 where
  pub hash_password : Bytes → Option Bytes
  pub check_password : (hash plain : Bytes) → Bool
  pub hashing : Hashing
  pub unmarshal_set : String → Option (Option PermSet)
  pub unmarshal_sites : String → Option (List String)

abbrev pub token_of : Request → Option Bytes
token_of r = cookie session_cookie r.cookies

abbrev pub complete : Option (ℕ × Bool) → Panel → Option User
complete none p = none
complete (some (id, true)) p = none
complete (some (id, false)) p = user_by_id id p

abbrev pub user_of : Option Bytes → ℕ → Panel → Option User
user_of none now p = none
user_of (some token) now p = complete (session now token p) p

-- currentUser: the user of a session that waits for nothing
unfoldable pub current_user : Request → ℕ → Panel → Option User
current_user r now p = user_of (token_of r) now p

abbrev pub actor : Option User → String
actor none = "system"
actor (some u) = u.email

-- Server.audit
unfoldable pub audit : Request → ℕ → (action target : String) → Panel → Panel
unfolding current_user add_audit
audit r now action target p = add_audit (actor (current_user r now p)) action target p

module _ {A : Type 0} where
  abbrev pub with_user : Option User → (User → Reply × A) → Reply × A → Reply × A
  with_user none h refused = refused
  with_user (some u) h refused = h u

abbrev pub user_view : Option User → Reply
user_view none = answer 200 (signed_in (record { email = ""; role = ""; mfa_enabled = false }))
user_view (some u) = answer 200 (signed_in (view u))

abbrev pub with_cookie : CookieChange → Reply → Reply
with_cookie c r = record { status = r.status; body = r.body; cookie = c }

unfoldable pub setup_status : Panel → Reply × Panel
setup_status p = (answer 200 (setup_required (count_users p == 0)), p)

module _ (c : Crypto) (r : Request) (now : ℕ) where
  -- the session of the new administrator; its error is dropped
  abbrev pub or_same : Option Panel → Panel → Panel
  or_same none p = p
  or_same (some q) p = q

  abbrev pub welcome : Option Bytes → ℕ → String → Panel → Reply × Panel
  welcome none id email p = refuse 500 p
  welcome (some token) id email p =
      let q = or_same (create_session token id false (now + session_ttl) p) p in
      let reply = user_view (user_by_id id q) in
      (
        record { status = 201; body = reply.body; cookie = set_token token },
        audit r now "setup.admin-created" email q,
      )

  abbrev pub registered : Option (ℕ × Panel) → Option Bytes → String → Panel → Reply × Panel
  registered none token email p = refuse 400 p
  registered (some (id, q)) token email p = welcome token id email q

  abbrev pub hashed : Option Bytes → Option Bytes → String → Panel → Reply × Panel
  hashed none token email p = refuse 500 p
  hashed (some hash) token email p = registered (create_user email hash admin "" "" p) token email p

  abbrev pub first_admin : Option Credentials → Option Bytes → Panel → Reply × Panel
  first_admin none token p = refuse 400 p
  first_admin (some (email, password)) token p =
      if email == "" || ltb (length password) 8
      then refuse 400 p
      else hashed (c.hash_password password) token email p

  -- setupAdmin; `token` is what RandomToken gives
  unfoldable pub setup_admin : Option Credentials → Option Bytes → Panel → Reply × Panel
  setup_admin input token p =
      if ltb 0 (count_users p) then refuse 403 p else first_admin input token p

  abbrev pub started : Option Panel → Bytes → User → Panel → Reply × Panel
  started none token u p = refuse 500 p
  started (some q) token u p = (
    with_cookie (set_token token)
        (answer 200 (if mfa_enabled u then mfa_required else signed_in (view u))),
    q,
  )

  abbrev pub open_session : Option Bytes → User → Panel → Reply × Panel
  open_session none u p = refuse 500 p
  open_session (some token) u p =
      started (create_session token u.id (mfa_enabled u) (now + session_ttl) p) token u p

  abbrev pub checked : Option User → Bytes → Option Bytes → Panel → Reply × Panel
  checked none password token p = refuse 401 p
  checked (some u) password token p =
      if c.check_password u.password_hash password then open_session token u p else refuse 401 p

  unfoldable pub login : Option Credentials → Option Bytes → Panel → Reply × Panel
  login none token p = refuse 400 p
  login (some (email, password)) token p = checked (user_by_email email p) password token p

  abbrev pub code_matches : User → Bytes → Bool
  code_matches u code = verify_totp c.hashing (secret_text u.totp_secret) code now

  abbrev pub second_factor : Bytes → User → Option Bytes → Panel → Reply × Panel
  second_factor token u none p = refuse 400 p
  second_factor token u (some code) p =
      if code_matches u code
      then (answer 200 (signed_in (view u)), clear_session_mfa_pending token p)
      else refuse 401 p

  abbrev pub verified : Bytes → Bool → Option User → Option Bytes → Panel → Reply × Panel
  verified token pending none code p = refuse 500 p
  verified token false (some u) code p = (answer 200 (signed_in (view u)), p)
  verified token true (some u) code p = second_factor token u code p

  abbrev pub found_session : Bytes → Option (ℕ × Bool) → Option Bytes → Panel → Reply × Panel
  found_session token none code p = refuse 401 p
  found_session token (some (id, pending)) code p = verified token pending (user_by_id id p) code p

  abbrev pub verify_with : Option Bytes → Option Bytes → Panel → Reply × Panel
  verify_with none code p = refuse 401 p
  verify_with (some token) code p = found_session token (session now token p) code p

  unfoldable pub mfa_verify : Option Bytes → Panel → Reply × Panel
  mfa_verify code p = verify_with (token_of r) code p

  unfoldable pub me : Panel → Reply × Panel
  unfolding current_user
  me p = with_user (current_user r now p) (λ u. (answer 200 (signed_in (view u)), p)) (refuse 401 p)

  abbrev pub forget : Option Bytes → Panel → Panel
  forget none p = p
  forget (some token) p = delete_session token p

  unfoldable pub logout : Panel → Reply × Panel
  logout p = (with_cookie cleared (answer 200 done), forget (token_of r) p)

  -- mfaSetup; `secret` is what NewTOTPSecret gives
  unfoldable pub mfa_setup : Option Bytes → Panel → Reply × Panel
  mfa_setup none p = refuse 500 p
  mfa_setup (some secret) p = (answer 200 (enrolment secret), p)

  -- The id that a user that is not there has is 0.
  abbrev pub id_of : Option User → ℕ
  id_of none = 0
  id_of (some u) = u.id

  -- mfaEnable, given the secret and the code
  unfoldable pub mfa_enable : Option (Bytes × Bytes) → Panel → Reply × Panel
  unfolding current_user
  mfa_enable none p = refuse 400 p
  mfa_enable (some (secret, code)) p =
      if verify_totp c.hashing secret code now
      then (answer 200 done, set_user_totp (id_of (current_user r now p)) secret p)
      else refuse 401 p

  abbrev pub may_disable : Option User → Bytes → Bool
  may_disable none code = true
  may_disable (some u) code = not (mfa_enabled u) || code_matches u code

  unfoldable pub mfa_disable : Option Bytes → Panel → Reply × Panel
  unfolding current_user
  mfa_disable none p = refuse 400 p
  mfa_disable (some code) p =
      let u = current_user r now p in
      if may_disable u code then (answer 200 done, set_user_totp (id_of u) [] p) else refuse 401 p

abbrev pub granted : Crypto → Panel → (resource action : String) → User → Bool
granted c p resource action u =
    u.role == admin || can (parse c.unmarshal_set p.overrides u.permissions u.role) resource action

-- The wrappers around a handler.
module _ (c : Crypto) (r : Request) (now : ℕ) (h : Panel → Reply × Panel) (p : Panel) where
  unfoldable pub protect : Reply × Panel
  unfolding current_user
  protect = with_user (current_user r now p) (λ u. h p) (refuse 401 p)

  unfoldable pub require_admin : Reply × Panel
  unfolding current_user
  require_admin =
      with_user (current_user r now p) (λ u. if u.role == admin then h p else refuse 403 p)
        (refuse 401 p)

  unfoldable pub require_perm : (resource action : String) → Reply × Panel
  unfolding current_user
  require_perm resource action =
      with_user (current_user r now p)
        (λ u. if granted c p resource action u then h p else refuse 403 p) (refuse 401 p)
