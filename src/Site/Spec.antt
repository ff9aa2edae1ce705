-- ===== src/Site/Spec.antt =====
-- internal/site/creator/spec.go: what to create.
use aura_cp.Prelude.{Bool, ◌||◌, [], Bytes, codes, ◌==◌, bytes_eq, if◌then◌else◌, ℤ, pos}
use aura_cp.Paths.{doc_root, log_dir, php_socket}
use aura_cp.Vhost.Processors.{SiteContext}

-- The fields that only the WordPress installer reads are left out, except WPInstall.
pub record Spec : Type 0 where
  pub site_type : Bytes
  pub domain : Bytes
  pub user : Bytes
  pub password : Bytes
  pub settings : Bytes
  pub php_version : Bytes
  pub node_version : Bytes
  pub start_file : Bytes
  pub use_pm2 : Bool
  -- the entry point of a Python site
  pub entry : Bytes
  pub app_port : ℤ
  pub upstream : Bytes
  pub wp_install : Bool

abbrev pub is_php : Bytes → Bool
is_php t = t == codes "php" || t == codes "wordpress"

abbrev pub is_app : Bytes → Bool
is_app t = t == codes "nodejs" || t == codes "python"

unfoldable pub render_context : Spec → Bytes → Bytes → SiteContext
render_context s cert key = record {
  site_type = s.site_type;
  domain = s.domain;
  user = s.user;
  doc_root = doc_root s.user s.domain;
  log_dir = log_dir s.user;
  cert_path = cert;
  key_path = key;
  php_version = if is_php s.site_type then s.php_version else [];
  fpm_socket = if is_php s.site_type then php_socket s.domain else [];
  app_port = if is_app s.site_type then s.app_port else pos 0;
  reverse_proxy_url = if s.site_type == codes "reverseproxy" then s.upstream else [];
  settings = s.settings;
}
