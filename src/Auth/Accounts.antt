-- ===== src/Auth/Accounts.antt =====
-- internal/store/auth.go and internal/store/admin.go: the tables of panel users, sessions and settings.
--
-- A table is a list of rows. A statement fails where a constraint of the schema (internal/store/migrate.go)
-- refuses it; a database that cannot be read or written is not modelled. Times are in seconds.
use aura_cp.Prelude.{
  ℕ, suc, Bool, false, ◌||◌, not, List, [], ◌∷◌, ◌++◌, Option, none, some, String, Bytes, ◌==◌,
  bytes_eq, string_eq, nat_eq, ltb, if◌then◌else◌, length, any, keep,
}
use aura_cp.Rows.{first, update}
use aura_cp.Permissions.{Overrides, find, put}

pub record User : Type 0 where
  pub id : ℕ
  pub email : String
  pub password_hash : Bytes
  pub role : String
  pub permissions : String
  pub sites_scope : String
  -- NULL is `none`
  pub totp_secret : Option Bytes

pub record Session : Type 0 where
  pub token : Bytes
  pub user_id : ℕ
  pub mfa_pending : Bool
  pub expires_at : ℕ

-- What the panel keeps: the tables, the role overrides in memory (internal/perm), and the audit log as
-- actor, action and target, newest first.
pub record Panel : Type 0 where
  -- the next AUTOINCREMENT value of panel_users
  pub next_id : ℕ
  pub users : List User
  pub sessions : List Session
  pub settings : List (String × String)
  pub overrides : Overrides
  pub audit : List (String × String × String)

abbrev pub secret_text : Option Bytes → Bytes
secret_text none = []
secret_text (some s) = s

unfoldable pub mfa_enabled : User → Bool
mfa_enabled u = not (secret_text u.totp_secret == [])

abbrev pub has_email : String → User → Bool
has_email email u = u.email == email

abbrev pub has_id : ℕ → User → Bool
has_id id u = u.id == id

unfoldable pub user_by_email : String → Panel → Option User
unfolding first
user_by_email email p = first (has_email email) p.users

unfoldable pub user_by_id : ℕ → Panel → Option User
unfolding first
user_by_id id p = first (has_id id) p.users

-- The new user's id, unless the address is taken.
unfoldable pub create_user :
    (email : String) (hash : Bytes) (role permissions sites_scope : String)
    → Panel
    → Option (ℕ × Panel)
create_user email hash role permissions sites_scope p =
    if any (has_email email) p.users
    then none
    else some (
      p.next_id,
      record p {
        next_id = suc p.next_id;
        users =
            p.users
            ++ record {
              id = p.next_id;
              email = email;
              password_hash = hash;
              role = role;
              permissions = permissions;
              sites_scope = sites_scope;
              totp_secret = none;
            }
              ∷ [];
      },
    )

unfoldable pub update_user_access : (email role permissions sites_scope : String) → Panel → Panel
update_user_access email role permissions sites_scope p = record p {
  users =
      update (has_email email)
        (λ u. record u { role = role; permissions = permissions; sites_scope = sites_scope })
        p.users;
}

-- An empty secret clears the column.
unfoldable pub set_user_totp : ℕ → Bytes → Panel → Panel
set_user_totp id secret p = record p {
  users =
      update (has_id id)
        (λ u. record u { totp_secret = if secret == [] then none else some secret }) p.users;
}

unfoldable pub count_users : Panel → ℕ
count_users p = length p.users

abbrev pub has_token : Bytes → Session → Bool
has_token token s = s.token == token

-- The token is the primary key, and the user must be there.
unfoldable pub create_session : Bytes → ℕ → Bool → (expires_at : ℕ) → Panel → Option Panel
create_session token user_id mfa_pending expires_at p =
    if any (has_token token) p.sessions || not (any (has_id user_id) p.users)
    then none
    else some (record p {
      sessions =
          record {
            token = token;
            user_id = user_id;
            mfa_pending = mfa_pending;
            expires_at = expires_at;
          }
          ∷ p.sessions;
    })

abbrev pub live_session : ℕ → Option Session → Option (ℕ × Bool)
live_session now none = none
live_session now (some s) = if ltb s.expires_at now then none else some (s.user_id, s.mfa_pending)

-- The user and the pending flag of a session that has not expired.
unfoldable pub session : ℕ → Bytes → Panel → Option (ℕ × Bool)
unfolding first
session now token p = live_session now (first (has_token token) p.sessions)

unfoldable pub clear_session_mfa_pending : Bytes → Panel → Panel
clear_session_mfa_pending token p = record p {
  sessions = update (has_token token) (λ s. record s { mfa_pending = false }) p.sessions;
}

unfoldable pub delete_session : Bytes → Panel → Panel
unfolding keep
delete_session token p = record p { sessions = keep (λ s. not (has_token token s)) p.sessions }

-- DELETE FROM panel_users, which takes the sessions of the user along (ON DELETE CASCADE).
unfoldable pub delete_user_by_email : String → Panel → Panel
unfolding keep
delete_user_by_email email p =
    let rest = keep (λ u. not (has_email email u)) p.users in
    record p { users = rest; sessions = keep (λ s. any (has_id s.user_id) rest) p.sessions }

-- GetSetting and SetSetting
unfoldable pub get_setting : String → Panel → Option String
get_setting key p = find key p.settings

unfoldable pub set_setting : (key value : String) → Panel → Panel
set_setting key value p = record p { settings = put key value p.settings }

-- AddAudit
unfoldable pub add_audit : (actor action target : String) → Panel → Panel
add_audit actor action target p = record p { audit = (actor, action, target) ∷ p.audit }
