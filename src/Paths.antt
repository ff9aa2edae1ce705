-- ===== src/Paths.antt =====
-- internal/paths/paths.go: the layout of hosted sites on disk.
pub mod Laws
use aura_cp.Prelude.{ℕ, Bytes, codes, ◌++◌, [], ◌∷◌}
use aura_cp.Prelude.Text.{itoa}
use aura_cp.Filepath.{join_path}

abbrev pub home_base : Bytes
home_base = codes "/home"

abbrev pub nginx_sites_available : Bytes
nginx_sites_available = codes "/etc/nginx/sites-available"

abbrev pub nginx_sites_enabled : Bytes
nginx_sites_enabled = codes "/etc/nginx/sites-enabled"

abbrev pub php_sockets_dir : Bytes
php_sockets_dir = codes "/run/php-fpm"

abbrev pub ssl_dir : Bytes
ssl_dir = codes "/etc/auracp/ssl"

abbrev pub acme_challenge_dir : Bytes
acme_challenge_dir = codes "/var/lib/auracp/acme"

abbrev pub htpasswd_dir : Bytes
htpasswd_dir = codes "/etc/auracp/htpasswd"

abbrev pub systemd_dir : Bytes
systemd_dir = codes "/etc/systemd/system"

abbrev pub sftp_group : Bytes
sftp_group = codes "auracp-sftp"

unfoldable pub htpasswd_file : Bytes → Bytes
htpasswd_file domain = join_path (htpasswd_dir ∷ domain ∷ [])

unfoldable pub site_home : Bytes → Bytes
site_home user = join_path (home_base ∷ user ∷ [])

unfoldable pub doc_root : Bytes → Bytes → Bytes
doc_root user domain = join_path (home_base ∷ user ∷ codes "htdocs" ∷ domain ∷ [])

unfoldable pub log_dir : Bytes → Bytes
log_dir user = join_path (home_base ∷ user ∷ codes "logs" ∷ [])

unfoldable pub nginx_site_file : Bytes → Bytes
nginx_site_file domain = join_path (nginx_sites_available ∷ (domain ++ codes ".conf") ∷ [])

unfoldable pub nginx_site_link : Bytes → Bytes
nginx_site_link domain = join_path (nginx_sites_enabled ∷ (domain ++ codes ".conf") ∷ [])

unfoldable pub php_pool_file : Bytes → Bytes → Bytes
php_pool_file ver domain =
    join_path (codes "/etc/php" ∷ ver ∷ codes "fpm/pool.d" ∷ (domain ++ codes ".conf") ∷ [])

unfoldable pub php_socket : Bytes → Bytes
php_socket domain = join_path (php_sockets_dir ∷ (domain ++ codes ".sock") ∷ [])

unfoldable pub cert_path : Bytes → Bytes
cert_path domain = join_path (ssl_dir ∷ (domain ++ codes ".crt") ∷ [])

unfoldable pub key_path : Bytes → Bytes
key_path domain = join_path (ssl_dir ∷ (domain ++ codes ".key") ∷ [])

unfoldable pub unit_name : Bytes → Bytes
unit_name domain = codes "auracp-site-" ++ domain

unfoldable pub unit_file : Bytes → Bytes
unfolding unit_name
unit_file domain = join_path (systemd_dir ∷ (unit_name domain ++ codes ".service") ∷ [])

unfoldable pub upstream : ℕ → Bytes
upstream port = codes "127.0.0.1:" ++ itoa port

unfoldable pub panel_nginx_file : Bytes
panel_nginx_file = join_path (nginx_sites_available ∷ codes "00-panel.conf" ∷ [])

unfoldable pub panel_nginx_link : Bytes
panel_nginx_link = join_path (nginx_sites_enabled ∷ codes "00-panel.conf" ∷ [])

unfoldable pub catch_all_nginx_file : Bytes
catch_all_nginx_file = join_path (nginx_sites_available ∷ codes "00-default.conf" ∷ [])

unfoldable pub catch_all_nginx_link : Bytes
catch_all_nginx_link = join_path (nginx_sites_enabled ∷ codes "00-default.conf" ∷ [])
