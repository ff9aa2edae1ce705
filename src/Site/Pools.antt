-- ===== src/Site/Pools.antt =====
-- internal/phpruntime/phpruntime.go: the PHP-FPM pools of sites.
--
-- The text of a pool, made by text/template from the settings in the database, is a parameter.
use aura_cp.Prelude.{
  Bool, not, List, [], ◌∷◌, ◌++◌, Option, Bytes, codes, ◌==◌, bytes_eq, any, keep, if◌then◌else◌,
}
use aura_cp.Prelude.Text.{trim_space}
use aura_cp.Errors.{php_not_installed}
use aura_cp.Validate
use aura_cp.Filepath.{join_path, dir}
use aura_cp.Paths.{php_pool_file, php_sockets_dir}
use aura_cp.Os.{
  mkdir_all, remove, write_file, run, Kernel, Exec, pure, lift, asks, need, guard, perform, attempt,
  each, ◌>>=◌, ◌>>◌,
}
use aura_cp.Site.Users.{exists, command}

abbrev pub supported_versions : List Bytes
supported_versions = codes "8.3" ∷ codes "8.4" ∷ codes "8.5" ∷ []

abbrev pub service : Bytes → Bytes
service v = codes "php" ++ v ++ codes "-fpm"

abbrev pub systemctl : List Bytes → List Bytes
systemctl args = codes "systemctl" ∷ args

module _ {W : Type 0} (k : Kernel W) where
  unfoldable pub installed : W → List Bytes
  unfolding keep
  installed w =
      keep
        (λ v.
          exists (k.stat (join_path (codes "/etc/php" ∷ v ∷ codes "fpm" ∷ codes "pool.d" ∷ [])) w))
        supported_versions

  -- `systemctl is-active`, and whether it prints that it is
  unfoldable pub is_active : Bytes → Exec W Bool
  is_active svc = do
    attempt k (run (systemctl (codes "is-active" ∷ svc ∷ [])))
    asks (λ w. trim_space (k.output (systemctl (codes "is-active" ∷ svc ∷ [])) w) == codes "active")

  -- what the loop does to a pool file that is there
  unfoldable pub drop_pool : Bytes → Bytes → Exec W (Unit {0})
  unfolding is_active
  drop_pool domain v = do
    attempt k (remove (php_pool_file v domain))
    active ← is_active (service v)
    if active then attempt k (run (systemctl (codes "reload" ∷ service v ∷ []))) else pure tt

  unfoldable pub sweep_other : Bytes → Bytes → Bytes → Exec W (Unit {0})
  unfolding drop_pool
  sweep_other version domain v = if v == version then pure tt else do
    old ← asks (k.stat (php_pool_file v domain))
    if exists old then drop_pool domain v else pure tt

  unfoldable pub write_pool : Option Bytes → Bytes → Bytes → Bytes → Exec W (Unit {0})
  unfolding installed is_active sweep_other
  write_pool pool_text version domain user = do
    lift (Validate.php_version version)
    lift (Validate.domain domain)
    lift (Validate.username user)
    there ← asks installed
    guard (not (any (λ v. v == version) there)) php_not_installed
    body ← need pool_text
    others ← asks installed
    each (sweep_other version domain) others
    perform k (mkdir_all (dir (php_pool_file version domain)) 0o755)
    perform k (write_file (php_pool_file version domain) body 0o644)
    perform k (mkdir_all php_sockets_dir 0o755)
    active ← is_active (service version)
    if active
        then command k (systemctl (codes "reload" ∷ service version ∷ []))
        else command k (systemctl (codes "enable" ∷ codes "--now" ∷ service version ∷ []))

  -- a site's pool under one version, if it is there
  unfoldable pub remove_from : Bytes → Bytes → Exec W (Unit {0})
  unfolding drop_pool
  remove_from domain v = do
    there ← asks (k.stat (php_pool_file v domain))
    if exists there then drop_pool domain v else pure tt

  unfoldable pub remove_pool : Bytes → Exec W (Unit {0})
  unfolding installed remove_from
  remove_pool domain = asks installed >>= λ vs. each (remove_from domain) vs
