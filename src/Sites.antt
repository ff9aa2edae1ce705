-- ===== src/Sites.antt =====
-- internal/site/site.go: the life of a site, over the machine and the database.
--
-- Parameters: the managers that may be nil, the PM2 installation, the installation of WordPress, and
-- exec.LookPath. The certificate of a new site is issued by a goroutine that Create starts; it is a method of its
-- own here.
pub mod Lifecycle
pub mod Creation
pub mod Laws
use aura_cp.Prelude.{
  suc, Bool, true, false, ◌&&◌, ◌||◌, not, ltz, List, [], ◌∷◌, ◌++◌, Option, none, some, Bytes,
  codes, ◌==◌, bytes_eq, if◌then◌else◌, ℤ, pos, negsuc, Result, ok, err,
}
use aura_cp.Errors.{Error, store_error, upstream_required, site_not_found, php_not_configured}
use aura_cp.Validate
use aura_cp.Paths.{doc_root, upstream}
use aura_cp.Os.{
  Kernel, Exec, pure, raise, lift, asks, need, guard, ignored, on_error, relabel, ◌>>=◌, ◌>>◌,
}
use aura_cp.Store
use aura_cp.Store.{
  Site, Tables, site_by_domain, create_site, delete_site, config_value, certificate,
  delete_certificate, delete_all_php_settings,
}
use aura_cp.Host.{Host, on_machine, query, commit, try_commit}
use aura_cp.Site.Users
use aura_cp.Site.Users.{exists}
use aura_cp.Site.Pools.{remove_pool}
use aura_cp.Site.Units.{UnitSpec, decimal}
use aura_cp.Site.Steps.{next_port}
use aura_cp.Site.Spec.{is_php, is_app}
use aura_cp.Nginx.Render
use aura_cp.Nginx.Manager
use aura_cp.Php.{write_site_pool}
use aura_cp.Acme.{Authority}
use aura_cp.Acme.Issue.{ensure_cert}

-- Spec; `module` is a keyword here, and the answers of the WordPress form are one value.
pub record Spec : Type 0 where
  pub site_type : Bytes
  pub domain : Bytes
  pub user : Bytes
  pub password : Bytes
  pub php_version : Bytes
  pub start_file : Bytes
  pub entry : Bytes
  pub upstream : Bytes
  pub node_version : Bytes
  pub use_pm2 : Bool
  pub wp_install : Bool

pub record Deps (W : Type 0) : Type 0 where
  pub kernel : Kernel W
  pub look_path : Bytes → W → Bool
  -- whether the managers of PHP and of Node.js versions are there
  pub has_php : Bool
  pub has_node : Bool
  pub bin_path : Bytes → Bytes
  pub pm2_path : Bytes → Bytes
  pub ensure_pm2 : Bytes → Exec W (Unit {0})
  pub install_wordpress : Spec → Exec W (Unit {0})
  pub authority : Authority W

-- SELECT MAX(port)
abbrev pub max_port : List Site → Option ℤ
max_port [] = none
max_port (s ∷ ss) = elim (max_port ss) [
  | none ↦ some s.port
  | some m ↦ some (if ltz m s.port then s.port else m)
]

abbrev pub port_for : Tables → Option ℤ
port_for t = next_port (some (max_port t.sites))

abbrev pub has_backend : Bytes → Bool
has_backend t = is_php t || is_app t

unfoldable pub app_label : Spec → Bytes
app_label s =
    if s.site_type == codes "wordpress"
    then codes "WordPress"
    else if s.site_type == codes "php"
    then codes "PHP " ++ s.php_version
    else if s.site_type == codes "nodejs"
    then codes "Node.js"
    else if s.site_type == codes "python"
    then codes "Python 3"
    else if s.site_type == codes "static"
    then codes "Static"
    else if s.site_type == codes "reverseproxy"
    then codes "Reverse Proxy"
    else s.site_type

-- paths.Upstream on an int
abbrev pub port_upstream : ℤ → Bytes
port_upstream (pos n) = upstream n
port_upstream (negsuc n) = codes "127.0.0.1:" ++ decimal (negsuc n)

-- A port of 0 stands for none.
abbrev pub backend_of : Tables → Spec → Result Error (ℤ × Bytes)
backend_of t s =
    if s.site_type == codes "reverseproxy"
    then if s.upstream == [] then err upstream_required else ok (pos 0, s.upstream)
    else if is_php s.site_type
    then elim (Validate.php_version s.php_version) [ err e ↦ err e | ok x ↦ ok (pos 0, []) ]
    else if is_app s.site_type
    then elim (port_for t) [ none ↦ err store_error | some p ↦ ok (p, port_upstream p) ]
    else ok (pos 0, [])

abbrev pub pinned : Spec → Option Bytes
pinned s =
    if s.site_type == codes "nodejs"
    then some (if s.node_version == [] then codes "default" else s.node_version)
    else none

-- the record of a new site
unfoldable pub new_site : Spec → ℤ → Bytes → Site
unfolding app_label
new_site s port up = record {
  site_type = s.site_type;
  domain = s.domain;
  site_user = s.user;
  root_path = doc_root s.user s.domain;
  app = app_label s;
  node_version = pinned s;
  port = port;
  upstream = up;
  php_version = s.php_version;
  pm2_enabled = s.use_pm2;
  status = codes "up";
  status_text = codes "Online";
}

-- The nginx configuration of a new site: no certificate and no features yet.
abbrev pub first_vhost : Spec → (upstream : Bytes) → Render.Spec
first_vhost s up = record {
  site_type = s.site_type;
  domain = s.domain;
  user = s.user;
  root = [];
  upstream = up;
  php_version = s.php_version;
  cache = false;
  cache_ttl = [];
  basic_auth_user = [];
  basic_auth_hash = [];
  block_bots = false;
  override = [];
  cert_path = [];
  key_path = [];
}

abbrev pub unit_of : Spec → ℤ → UnitSpec
unit_of s port = record {
  site_type = s.site_type;
  domain = s.domain;
  user = s.user;
  port = port;
  start_file = if s.site_type == codes "nodejs" then s.start_file else [];
  entry = if s.site_type == codes "nodejs" then [] else s.entry;
  node_version = if s.site_type == codes "nodejs" then s.node_version else [];
  use_pm2 = s.site_type == codes "nodejs" && s.use_pm2;
}
