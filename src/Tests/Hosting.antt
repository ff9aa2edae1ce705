-- ===== src/Tests/Hosting.antt =====
-- A host: its nginx configuration, its versions of PHP and Node.js, and its certificate.
use aura_cp.Prelude.{
  ℕ, ◌≡◌, ◌≢◌, refl, ◌⊎◌, Bool, true, false, List, [], ◌∷◌, none, some, Bytes, codes, ◌==◌,
  bytes_eq, ok, bytes_beq_iff, arith,
}
use aura_cp.Os.{Kernel, State, Exec, pure}
use aura_cp.Os.Confined.{Confined}
use aura_cp.Auth.Accounts.{Panel}
use aura_cp.Store.{Certificate, Tables, certificate}
use aura_cp.Host.{Host}
use aura_cp.Nginx.Render
use aura_cp.Nginx.Render.{render}
use aura_cp.Nginx.Manager.{apply}
use aura_cp.Nginx.Laws.Placing.{Places, apply-Places}
use aura_cp.Acme.{Authority, issued, is_fresh}
use aura_cp.Acme.Issue.{ensure_cert, renew_due}
use aura_cp.Acme.Laws.Saved.{IsIssued, ensure_cert-ok}
use aura_cp.Acme.Laws.Kept.{actions, renew_due-leaves}
use aura_cp.Php
use aura_cp.Php.Laws.{actions-IsValid}
use aura_cp.Node
use aura_cp.Node.Laws.{actions-IsKept}
use aura_cp.Tests.Machine.{alice, example_com, machine}

distinct : (a b : Bytes) → (a == b) ≡ false → a ≢ b
distinct a b e same = ground (arith, (bytes_beq_iff a b).1 same, e)

abbrev site : Render.Spec
site = record {
  site_type = codes "static";
  domain = example_com;
  user = alice;
  root = [];
  upstream = [];
  php_version = [];
  cache = false;
  cache_ttl = [];
  basic_auth_user = codes "guest";
  basic_auth_hash = codes "x";
  block_bots = false;
  override = [];
  cert_path = [];
  key_path = [];
}

abbrev pub found : Bytes → ℕ → Bool
found name w = true

apply-Places_example : Confined (Places example_com) (apply machine found site)
apply-Places_example = apply-Places machine found site

abbrev panel : Panel
panel = record { next_id = 1; users = []; sessions = []; settings = []; overrides = []; audit = [] }

abbrev due_row : Certificate
due_row = record {
  domain = example_com;
  issuer = codes "letsencrypt";
  cert_path = some (codes "/etc/auracp/ssl/example.com.crt");
  key_path = some (codes "/etc/auracp/ssl/example.com.key");
  issued_at = some 0;
  expires_at = some 1000;
  status = codes "issued";
  last_error = [];
  attempts = 1;
}

abbrev pub tables : Tables
tables = record {
  sites = [];
  certificates = due_row ∷ [];
  php_runtimes = record { version = codes "8.4"; is_default = true } ∷ [];
  node_runtimes = [];
  php_settings = [];
  site_config = [];
  panel = panel;
}

abbrev pub host : State (Host ℕ)
host = record { world = record { machine = 0; tables = tables; client = none }; log = [] }

-- An authority that knows the account and grants every certificate.
abbrev pub authority : Authority ℕ
authority = record {
  etc_dir = codes "/etc/auracp";
  staging = false;
  now = λ w. 5000000000;
  decrypt = λ s. none;
  accepts = λ c. true;
  accepts_http = λ dir. ok tt;
  accepts_dns = λ token. ok tt;
  obtain = λ c domain. pure (issued (codes "CERT") (codes "KEY"));
  resolve_account = λ c. pure (some (record { uri = codes "https://ca/1"; body = [] }));
  register = λ c. pure none;
  fresh_key = λ w. some (codes "PEM");
  parses_key = λ key. true;
  leaf_expiry = λ pem. some 9000000;
  read_registration = λ body. none;
  print_registration = λ r. r.body;
  text = λ e. [];
  reloader = pure tt;
}

renew_due-leaves_example :
    certificate (codes "example.org") (renew_due machine authority host).1.world.tables
    ≡ certificate (codes "example.org") tables
renew_due-leaves_example =
    renew_due-leaves machine authority (codes "example.org") host
      ((λ e. absurd (distinct _ _ refl e)), tt)

abbrev php_actions : List Php.Laws.Action
php_actions =
    Php.Laws.installs (codes "8.5") true
    ∷ Php.Laws.removes (codes "8.4")
    ∷ Php.Laws.defaults (codes "8.4")
    ∷ Php.Laws.reconciles
    ∷ []

actions-IsValid_example :
    Php.Laws.IsValid (Php.Laws.actions machine found php_actions host).1.world.tables
actions-IsValid_example =
    actions-IsValid machine found php_actions host ((refl, tt), (codes "8.4", ((λ e. refl), tt)))

abbrev node_actions : List Node.Laws.Action
node_actions =
    Node.Laws.installs (codes "22.1.0") false
    ∷ Node.Laws.installs (codes "../x") true
    ∷ Node.Laws.defaults (codes "22.1.0")
    ∷ Node.Laws.reconciles
    ∷ Node.Laws.removes (codes "22.1.0")
    ∷ []

actions-IsKept_example :
    Node.Laws.IsValid (Node.Laws.actions machine false node_actions host).1.world.tables
actions-IsKept_example =
    actions-IsKept machine false node_actions host ((tt, (codes "22.1.0", tt)), tt)

ensure_cert-ok_example :
    IsIssued example_com (ensure_cert machine authority example_com host).1.world.tables
    ⊎ (is_fresh 5000000000 (certificate example_com tables) ≡ true)
      × ((ensure_cert machine authority example_com host).1 ≡ host)
unfolding ensure_cert aura_cp.Os.◌>>=◌ aura_cp.Os.asks aura_cp.Host.query certificate
    aura_cp.Host.on_machine aura_cp.Os.perform aura_cp.Os.need aura_cp.Os.guard pure
    aura_cp.Os.relabel aura_cp.Os.lift aura_cp.Os.ignored aura_cp.Host.set_client
    aura_cp.Host.commit
ensure_cert-ok_example = ensure_cert-ok machine authority example_com host refl
