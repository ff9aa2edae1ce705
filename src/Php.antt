-- ===== src/Php.antt =====
-- internal/phpruntime/phpruntime.go: PHP-FPM versions and their default, over the machine and the database, and
-- the text of a pool. The pool files themselves are in Site/Pools.
--
-- exec.LookPath is a parameter.
pub mod Laws
use aura_cp.Prelude.{
  Bool, true, false, not, ◌||◌, List, [], ◌∷◌, ◌++◌, Option, none, some, Bytes, codes, ◌==◌,
  bytes_eq, if◌then◌else◌,
}
use aura_cp.Prelude.Text.{trim_space}
use aura_cp.Errors.{php_in_use, php_unknown, apt_failed}
use aura_cp.Validate
use aura_cp.Filepath.{join_path}
use aura_cp.Paths.{php_socket}
use aura_cp.Os.{
  rename, run, Kernel, Exec, pure, lift, asks, guard, perform, attempt, relabel, each, ◌>>=◌, ◌>>◌,
}
use aura_cp.Store.{
  Tables, php_runtime, default_php_runtime, add_php_runtime, set_default_php_runtime,
  delete_php_runtime, site_uses_php_version, php_setting,
}
use aura_cp.Host.{Host, on_machine, query, commit}
use aura_cp.Site.Users.{exists, command}
use aura_cp.Site.Pools.{installed, write_pool, service, systemctl}

-- A setting of the site, or the default where there is none or only space.
abbrev pub given_or : Bytes → Option Bytes → Bytes
given_or default none = default
given_or default (some v) = if trim_space v == [] then default else v

abbrev pub setting : Tables → (domain key default : Bytes) → Bytes
setting t domain key default = given_or default (php_setting domain key t)

-- poolTemplate as executed; the dash in its first line is U+2014.
unfoldable pub pool_text : Tables → (domain user : Bytes) → Bytes
pool_text t domain user =
    codes "; auraCP-managed pool "
    ++ (0xe2 ∷ 0x80 ∷ 0x94 ∷ [])
    ++ codes " do not edit by hand. Rewritten on every panel change.\n["
    ++ domain
    ++ codes "]\nuser = "
    ++ user
    ++ codes "\ngroup = "
    ++ user
    ++ codes "\n\nlisten = "
    ++ php_socket domain
    ++ codes "\nlisten.owner = "
    ++ user
    ++ codes "\nlisten.group = www-data\nlisten.mode = 0660\n\npm = ondemand\npm.max_children = "
    ++ setting t domain (codes "pm.max_children") (codes "10")
    ++ codes
        "\npm.process_idle_timeout = 30s\npm.max_requests = 500\n\ncatch_workers_output = yes\n"
    ++ codes "decorate_workers_output = no\n\nphp_admin_value[memory_limit] = "
    ++ setting t domain (codes "memory_limit") (codes "256M")
    ++ codes "\nphp_admin_value[upload_max_filesize] = "
    ++ setting t domain (codes "upload_max_filesize") (codes "64M")
    ++ codes "\nphp_admin_value[post_max_size] = "
    ++ setting t domain (codes "post_max_size") (codes "64M")
    ++ codes "\nphp_admin_value[max_execution_time] = "
    ++ setting t domain (codes "max_execution_time") (codes "120")
    ++ codes "\nphp_admin_value[max_input_vars] = "
    ++ setting t domain (codes "max_input_vars") (codes "5000")
    ++ codes "\nphp_admin_value[opcache.enable] = 1\nphp_admin_value[expose_php] = Off\n"

abbrev pub apt_name : (version suffix : Bytes) → Bytes
apt_name version suffix = codes "php" ++ version ++ codes "-" ++ suffix

abbrev pub last_of : Bytes → List Bytes → Bytes
last_of v [] = v
last_of v (w ∷ ws) = last_of w ws

module _ {W : Type 0} (k : Kernel W) (look_path : Bytes → W → Bool) where
  -- WritePool with the text of the pool
  unfoldable pub write_site_pool : (version domain user : Bytes) → Exec (Host W) (Unit {0})
  unfolding write_pool
  write_site_pool version domain user = do
    text ← query (λ t. pool_text t domain user)
    on_machine (write_pool k (some text) version domain user)

  unfoldable pub add_missing : (version : Bytes) → Exec (Host W) (Unit {0})
  add_missing version = do
    known ← query (php_runtime version)
    if exists known then pure tt else commit (add_php_runtime version)

  abbrev pub newest_default : List Bytes → Exec (Host W) (Unit {0})
  newest_default [] = pure tt
  newest_default (v ∷ vs) = commit (set_default_php_runtime (last_of v vs))

  unfoldable pub reconcile : Exec (Host W) (Unit {0})
  unfolding installed add_missing
  reconcile = do
    vs ← on_machine (asks (installed k))
    each add_missing vs
    default ← query default_php_runtime
    if exists default then pure tt else (on_machine (asks (installed k)) >>= newest_default)

  abbrev pub clients : (version : Bytes) → W → List Bytes
  clients version w =
      (if look_path (codes "mariadbd") w || look_path (codes "mysqld") w
        then apt_name version (codes "mysql") ∷ []
        else [])
      ++ (if look_path (codes "psql") w then apt_name version (codes "pgsql") ∷ [] else [])
      ++ (if look_path (codes "redis-server") w then apt_name version (codes "redis") ∷ [] else [])

  abbrev pub packages : (version : Bytes) → W → List Bytes
  packages version w =
      apt_name version (codes "fpm")
      ∷ apt_name version (codes "cli")
      ∷ apt_name version (codes "mbstring")
      ∷ apt_name version (codes "xml")
      ∷ apt_name version (codes "curl")
      ∷ apt_name version (codes "gd")
      ∷ apt_name version (codes "zip")
      ∷ apt_name version (codes "bcmath")
      ∷ apt_name version (codes "intl")
      ∷ clients version w

  abbrev pub default_pool_file : (version : Bytes) → Bytes
  default_pool_file version =
      join_path (codes "/etc/php" ∷ version ∷ codes "fpm/pool.d/www.conf" ∷ [])

  abbrev pub apt_install : List Bytes → List Bytes
  apt_install names =
      codes "apt-get" ∷ codes "install" ∷ codes "-y" ∷ codes "--no-install-recommends" ∷ names

  -- the part of Install before the database
  unfoldable pub install_packages : (version : Bytes) → Exec W (Unit {0})
  install_packages version = do
    names ← asks (packages version)
    relabel apt_failed (command k (apt_install names))
    www ← asks (k.stat (default_pool_file version))
    if exists www
        then attempt k
            (rename (default_pool_file version) (default_pool_file version ++ codes ".disabled"))
        else pure tt
    command k (systemctl (codes "enable" ∷ codes "--now" ∷ service version ∷ []))

  unfoldable pub install : (version : Bytes) (make_default : Bool) → Exec (Host W) (Unit {0})
  unfolding install_packages
  install version make_default = do
    lift (Validate.php_version version)
    on_machine (install_packages version)
    commit (add_php_runtime version)
    default ← query default_php_runtime
    if make_default || not (exists default)
        then commit (set_default_php_runtime version)
        else pure tt

  abbrev pub purge : (version : Bytes) → Exec W (Unit {0})
  purge version = do
    attempt k
        (run (systemctl (codes "disable" ∷ codes "--now" ∷ apt_name version (codes "fpm") ∷ [])))
    relabel apt_failed (
        command k
          (codes "apt-get" ∷ codes "purge" ∷ codes "-y" ∷ apt_name version (codes "*") ∷ []))

  -- Remove
  unfoldable pub remove_version : (version : Bytes) → Exec (Host W) (Unit {0})
  remove_version version = do
    used ← query (site_uses_php_version version)
    guard used php_in_use
    on_machine (purge version)
    commit (delete_php_runtime version)

  unfoldable pub set_default : (version : Bytes) → Exec (Host W) (Unit {0})
  set_default version = do
    known ← query (php_runtime version)
    guard (not (exists known)) php_unknown
    commit (set_default_php_runtime version)
