-- ===== src/Auth/Events.antt =====
-- The requests that change what internal/api keeps of users, sessions, roles and settings, each behind the
-- wrapper that the route table gives its handler, and the start of the daemon.
use aura_cp.Prelude.{ℕ, List, [], ◌∷◌, Option, String, Bytes, ◌==◌, string_eq, if◌then◌else◌}
use aura_cp.Permissions.{PermSet}
use aura_cp.Web.Middleware.{Request}
use aura_cp.Auth.Accounts.{Panel}
use aura_cp.Auth.Handlers.{
  Reply, Crypto, Credentials, answer, done, setup_admin, login, mfa_verify, logout, mfa_setup,
  mfa_enable, mfa_disable,
}
use aura_cp.Auth.Users.{
  create_admin_user, update_admin_user, delete_admin_user, update_role_perms, reset_role_perms,
  put_settings, restart,
}
use aura_cp.Auth.Routes.{Guard, open_to_all, Route, routes, behind}

guard_in : String → List Route → Guard
guard_in name [] = open_to_all
guard_in name (r ∷ rs) = if r.handler == name then r.guard else guard_in name rs

-- The wrapper of a handler.
unfoldable pub guard_of : String → Guard
unfolding guard_in routes
guard_of name = guard_in name routes

-- With what a handler reads from the body and the path, and the random bytes that it draws.
pub data Event : Type 0 where
  sets_up : (input : Option Credentials) (token : Option Bytes) → Event
  signs_in : (input : Option Credentials) (token : Option Bytes) → Event
  verifies : (code : Option Bytes) → Event
  signs_out : Event
  enrols : (secret : Option Bytes) → Event
  enables : (input : Option (Bytes × Bytes)) → Event
  disables : (code : Option Bytes) → Event
  adds_user : (input : Option (String × String × Bytes × String × String)) (random : Bytes) → Event
  changes_user : (email : String) (input : Option (String × String × String)) → Event
  removes_user : (email : String) → Event
  changes_role : (role : String) (input : Option (Option PermSet)) → Event
  resets_role : (role : String) → Event
  changes_settings : (input : Option (List (String × String))) → Event
  restarts : Event

pub record Occurrence : Type 0 where
  pub request : Request
  pub now : ℕ
  pub event : Event

module _ (c : Crypto) (marshal : Option PermSet → String) where
  unfoldable pub serve : Request → ℕ → Event → Panel → Reply × Panel
  serve r now (sets_up input token) p =
      behind c (guard_of "setupAdmin") r now (setup_admin c r now input token) p
  serve r now (signs_in input token) p =
      behind c (guard_of "login") r now (login c r now input token) p
  serve r now (verifies code) p = behind c (guard_of "mfaVerify") r now (mfa_verify c r now code) p
  serve r now signs_out p = behind c (guard_of "logout") r now (logout c r now) p
  serve r now (enrols secret) p = behind c (guard_of "mfaSetup") r now (mfa_setup c r now secret) p
  serve r now (enables input) p = behind c (guard_of "mfaEnable") r now (mfa_enable c r now input) p
  serve r now (disables code) p =
      behind c (guard_of "mfaDisable") r now (mfa_disable c r now code) p
  serve r now (adds_user input random) p =
      behind c (guard_of "createAdminUser") r now (create_admin_user c r now input random) p
  serve r now (changes_user email input) p =
      behind c (guard_of "updateAdminUser") r now (update_admin_user c r now email input) p
  serve r now (removes_user email) p =
      behind c (guard_of "deleteAdminUser") r now (delete_admin_user c r now email) p
  serve r now (changes_role role input) p =
      behind c (guard_of "updateRolePerms") r now (update_role_perms marshal r now role input) p
  serve r now (resets_role role) p =
      behind c (guard_of "resetRolePerms") r now (reset_role_perms r now role) p
  serve r now (changes_settings input) p =
      behind c (guard_of "putSettings") r now (put_settings input) p
  serve r now restarts p = (answer 200 done, restart c p)

  -- The panel after what happens, the first event first.
  unfoldable pub history : List Occurrence → Panel → Panel
  history [] p = p
  history (o ∷ os) p = history os (serve o.request o.now o.event p).1
