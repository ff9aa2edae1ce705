-- ===== src/Site/Delete.antt =====
-- internal/site/creator/delete.go: removing every trace of a site.
use aura_cp.Prelude.{Bool, true, false, [], ◌∷◌, Bytes, codes, if◌then◌else◌}
use aura_cp.Paths.{
  htpasswd_file, nginx_site_file, nginx_site_link, php_pool_file, cert_path, key_path,
}
use aura_cp.Os.{remove, run, Kernel, Exec, pure, asks, attempt, ignored, or_try, each, ◌>>=◌, ◌>>◌}
use aura_cp.Site.Users
use aura_cp.Site.Users.{exists, command}
use aura_cp.Site.Pools.{installed, systemctl, service}
use aura_cp.Site.Steps.{reload_nginx_service}

module _ {W : Type 0} (k : Kernel W) where
  abbrev pub drop_pool_file : Bytes → Bytes → Exec W (Unit {0})
  drop_pool_file domain v = do
    attempt k (remove (php_pool_file v domain))
    attempt k (run (systemctl (codes "reload" ∷ service v ∷ [])))

  unfoldable pub sweep_pool : Bytes → Bytes → Exec W (Unit {0})
  sweep_pool domain v = do
    old ← asks (k.stat (php_pool_file v domain))
    if exists old then drop_pool_file domain v else pure tt

  -- `has_php` is false for a PHP manager that is nil.
  unfoldable pub sweep_pools : Bool → Bytes → Exec W (Unit {0})
  unfolding sweep_pool
  sweep_pools false domain = pure tt
  sweep_pools true domain = asks (installed k) >>= λ vs. each (sweep_pool domain) vs

  unfoldable pub run_delete : Bool → (domain user : Bytes) → Exec W (Unit {0})
  unfolding sweep_pools
  run_delete has_php domain user = do
    attempt k (remove (nginx_site_link domain))
    attempt k (remove (nginx_site_file domain))
    sweep_pools has_php domain
    attempt k (remove (cert_path domain))
    attempt k (remove (key_path domain))
    attempt k (remove (htpasswd_file domain))
    Users.delete k user
    ignored (
        or_try (command k reload_nginx_service)
          (command k (codes "nginx" ∷ codes "-s" ∷ codes "reload" ∷ [])))
