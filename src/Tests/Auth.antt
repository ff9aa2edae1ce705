-- ===== src/Tests/Auth.antt =====
-- A panel with two users.
use aura_cp.Prelude.{
  ◌^◌, ◌%◌, ◌-◌, ◌+◌, Option, ◌/◌, ◌≡◌, ◌≢◌, refl, ◌⊎◌, inl, inr, ◌↔◌, true, false, List, [], ◌∷◌,
  none, some, String, Bytes, codes, ◌==◌, bytes_eq, string_eq, if◌then◌else◌, All, arith,
}
use text.Mathlib.TextEquality.{eq_iff}
use aura_cp.Prelude.Text.{trim_space}
use aura_cp.Permissions.{Crud, PermSet, all_crud, admin, default_for_role}
use aura_cp.Permissions.Roles.{OneOf}
use aura_cp.Web.Middleware.{Request}
use aura_cp.Auth.Accounts.{User, Panel, count_users, mfa_enabled}
use aura_cp.Auth.Totp.{Hashing, verify_totp}
use aura_cp.Auth.Handlers.{
  Reply, Crypto, refuse, current_user, login, mfa_verify, code_matches, setup_admin,
}
use aura_cp.Auth.Users.{list_sites, scoped_domain, restart}
use aura_cp.Auth.Routes.{routes, admin_only, behind}
use aura_cp.Auth.Events.{Occurrence, history, signs_in, restarts}
use aura_cp.Auth.Laws.Guards.{Refused, Admitted, Passes, behind-Admitted}
use aura_cp.Auth.Laws.Codes.{HasCode, verify_totp_iff}
use aura_cp.Auth.Laws.Schema.{IsValid}
use aura_cp.Auth.Laws.Lasting.{history-IsValid, history-setup_refused}
use aura_cp.Auth.Laws.Login.{current_user-login, current_user-mfa_verify}
use aura_cp.Auth.Laws.Grants.{IsHarmless, routes-IsHarmless}
use aura_cp.Auth.Laws.Scope.{HasScope, list_sites_iff}
use aura_cp.Auth.Laws.Roles.{restart-change_roles, change_roles}

distinct : (a b : String) → (a == b) ≡ false → a ≢ b
distinct a b e same = absurd (ground (arith, (eq_iff a b).1 same, e))

-- a digest of twenty bytes
abbrev digest : Bytes
digest = codes "01234567890123456789"

abbrev hashing : Hashing
hashing = record { hmac = λ key message. digest; decode = λ s. some s; to_upper = λ s. s }

abbrev set : PermSet
set = ("files", all_crud) ∷ []

-- A password is its own hash.
abbrev crypto : Crypto
crypto = record {
  hash_password = λ p. some p;
  check_password = λ hash p. hash == p;
  hashing = hashing;
  unmarshal_set = λ s. some (some set);
  unmarshal_sites = λ s. none;
}

abbrev marshal : Option PermSet → String
marshal s = "files"

abbrev alice : User
alice = record {
  id = 1;
  email = "alice@example.com";
  password_hash = codes "correct horse";
  role = admin;
  permissions = "";
  sites_scope = "";
  totp_secret = some (codes "SECRET");
}

abbrev bob : User
bob = record {
  id = 2;
  email = "bob@example.com";
  password_hash = codes "battery staple";
  role = "ROLE_USER";
  permissions = "";
  sites_scope = "";
  totp_secret = none;
}

abbrev panel : Panel
panel = record {
  next_id = 3;
  users = alice ∷ bob ∷ [];
  sessions = record { token = codes "t0"; user_id = 2; mfa_pending = false; expires_at = 100 } ∷ [];
  settings = [];
  overrides = [];
  audit = [];
}

panel-IsValid : IsValid panel
panel-IsValid = record {
  given_out = (omega arith, (omega arith, tt));
  ids = (refl, (refl, tt));
  emails = (refl, (refl, tt));
  tokens = (refl, tt);
  owners = (refl, tt);
}

abbrev request : Bytes → Request
request token = record {
  method = codes "GET";
  path = codes "/api/sites";
  header = λ name. [];
  cookies = (codes "auracp_session", token) ∷ [];
  remote_addr = codes "192.0.2.1:80";
  tls = true;
}

abbrev handler : Panel → Reply × Panel
handler p = refuse 500 p

behind-Admitted_example :
    Refused crypto
      (request (codes "t0"))
      50
      handler
      panel
      (behind crypto admin_only (request (codes "t0")) 50 handler panel)
    ⊎ Admitted crypto
        (request (codes "t0"))
        50
        handler
        panel
        admin_only
        (behind crypto admin_only (request (codes "t0")) 50 handler panel)
behind-Admitted_example =
    behind-Admitted crypto (request (codes "t0")) 50 handler panel admin_only (λ e. absurd (cc))

verify_totp_iff_example :
    (verify_totp hashing (codes "SECRET") (codes " 123456 ") 90 ≡ true)
    ↔ HasCode hashing
        (codes "SECRET")
        (trim_space (codes " 123456 "))
        ((90 / 30 + 2 ^ 64 - 1) % 2 ^ 64 ∷ 90 / 30 % 2 ^ 64 ∷ (90 / 30 + 1) % 2 ^ 64 ∷ [])
verify_totp_iff_example = verify_totp_iff hashing (codes "SECRET") (codes " 123456 ") 90

abbrev occurrences : List Occurrence
occurrences =
    record {
      request = request [];
      now = 10;
      event = signs_in (some ("bob@example.com", codes "battery staple")) (some (codes "t1"));
    }
    ∷ record { request = request []; now = 20; event = restarts }
    ∷ []

history-IsValid_example : IsValid (history crypto marshal occurrences panel)
history-IsValid_example = history-IsValid crypto marshal occurrences panel panel-IsValid

history-setup_refused_example :
    let q = history crypto marshal occurrences panel in
    setup_admin crypto
      (request [])
      30
      (some ("eve@example.com", codes "evil password"))
      (some (codes "t2"))
      q
    ≡ refuse 403 q
unfolding count_users
history-setup_refused_example =
    history-setup_refused crypto marshal occurrences panel (omega arith) (request []) 30
      (some ("eve@example.com", codes "evil password")) (some (codes "t2"))

current_user-login_example :
    current_user
      (request (codes "t1"))
      20
      (login crypto
        (request [])
        10
        (some ("bob@example.com", codes "battery staple"))
        (some (codes "t1"))
        panel).1
    ≡ (if mfa_enabled bob then none else some bob)
unfolding aura_cp.Auth.Accounts.user_by_email aura_cp.Rows.first aura_cp.Web.Middleware.cookie
current_user-login_example =
    current_user-login crypto (request []) 10 "bob@example.com" (codes "battery staple")
      (codes "t1") panel panel-IsValid bob refl refl refl (request (codes "t1")) refl 20
      (omega arith)

current_user-mfa_verify_example :
    current_user
      (request (codes "t1"))
      40
      (mfa_verify crypto
        (request (codes "t1"))
        20
        (some (codes "123456"))
        (login crypto
          (request [])
          10
          (some ("alice@example.com", codes "correct horse"))
          (some (codes "t1"))
          panel).1).1
    ≡ (if code_matches crypto (request (codes "t1")) 20 alice (codes "123456")
        then some alice
        else none)
unfolding aura_cp.Auth.Accounts.user_by_email aura_cp.Rows.first aura_cp.Web.Middleware.cookie
    mfa_enabled
current_user-mfa_verify_example =
    current_user-mfa_verify crypto (request []) 10 "alice@example.com" (codes "correct horse")
      (codes "t1") panel panel-IsValid alice refl refl refl (request (codes "t1")) refl 40
      (omega arith) (request (codes "t1")) refl 20 (omega arith) (codes "123456") refl

routes-IsHarmless_example : All (λ r. Passes crypto panel r.guard bob → IsHarmless r) routes
unfolding aura_cp.Permissions.find
routes-IsHarmless_example =
    routes-IsHarmless crypto panel bob (distinct _ _ refl) (distinct _ _ refl) refl refl

list_sites_iff_example :
    (OneOf "example.com"
        (list_sites crypto (request (codes "t0")) 50 ("example.com" ∷ "example.org" ∷ []) panel)
      ↔ (OneOf "example.com" ("example.com" ∷ "example.org" ∷ [])
          × HasScope crypto bob "example.com"))
    × ((scoped_domain crypto (request (codes "t0")) 50 "example.com" panel ≡ none)
        ↔ HasScope crypto bob "example.com")
unfolding current_user aura_cp.Auth.Accounts.session aura_cp.Auth.Accounts.user_by_id
    aura_cp.Rows.first aura_cp.Web.Middleware.cookie
list_sites_iff_example =
    list_sites_iff crypto (request (codes "t0")) 50 panel bob "example.com"
      ("example.com" ∷ "example.org" ∷ []) refl

restart-change_roles_example :
    let q =
      change_roles marshal
        (request [])
        5
        (("ROLE_USER", some set) ∷ ("ROLE_SITE_MANAGER", none) ∷ [])
        panel in
    default_for_role (restart crypto q).overrides "ROLE_USER"
    ≡ default_for_role q.overrides "ROLE_USER"
unfolding aura_cp.Permissions.find aura_cp.Auth.Accounts.get_setting
restart-change_roles_example =
    restart-change_roles crypto marshal (request []) 5
      (("ROLE_USER", some set) ∷ ("ROLE_SITE_MANAGER", none) ∷ []) panel "ROLE_USER"
      ((inr (inl refl), refl, refl), (inl refl, tt)) (refl, refl) (inr (inr (inl refl)))
