-- ===== src/Vhost/Processors.antt =====
-- internal/webserver/processor: one function for each placeholder of a template.
use aura_cp.Prelude.{
  ℕ, suc, zero, List, [], ◌∷◌, ◌++◌, Bytes, codes, ◌==◌, bytes_eq, nat_eq, if◌then◌else◌, ℤ, pos,
  negsuc,
}
use aura_cp.Prelude.Text.{replace_all, itoa, join}

-- The fields that no processor reads (PHPSettings, Cache, CacheTTL, BlockBots, BasicAuthUser,
-- BasicAuthFile) are left out.
pub record SiteContext : Type 0 where
  pub site_type : Bytes
  pub domain : Bytes
  pub user : Bytes
  pub doc_root : Bytes
  pub log_dir : Bytes
  pub cert_path : Bytes
  pub key_path : Bytes
  pub php_version : Bytes
  pub fpm_socket : Bytes
  pub app_port : ℤ
  pub reverse_proxy_url : Bytes
  pub settings : Bytes

abbrev pub Processor : Type 0
Processor = Bytes → SiteContext → Bytes

-- strings.Count of one byte
unfoldable pub count_byte : ℕ → Bytes → ℕ
count_byte c [] = 0
count_byte c (x ∷ s) = let n = count_byte c s in if x == c then suc n else n

-- `directive value;`, or nothing when the value is empty
abbrev pub unless_empty : Bytes → Bytes → Bytes
unless_empty value line = if value == [] then [] else line

abbrev pub server_names : Bytes → List Bytes
server_names domain =
    if count_byte b'.' domain == 1 then domain ∷ (codes "www." ++ domain) ∷ [] else domain ∷ []

unfoldable pub server_name : Processor
server_name body ctx =
    replace_all body (codes "{{server_name}}")
      (codes "server_name " ++ join 32 (server_names ctx.domain) ++ codes ";")

unfoldable pub root : Processor
root body ctx = replace_all body (codes "{{root}}") (codes "root " ++ ctx.doc_root ++ codes ";")

unfoldable pub ssl_certificate : Processor
ssl_certificate body ctx =
    replace_all body (codes "{{ssl_certificate}}")
      (unless_empty ctx.cert_path (codes "ssl_certificate " ++ ctx.cert_path ++ codes ";"))

unfoldable pub ssl_certificate_key : Processor
ssl_certificate_key body ctx =
    replace_all body (codes "{{ssl_certificate_key}}")
      (unless_empty ctx.key_path (codes "ssl_certificate_key " ++ ctx.key_path ++ codes ";"))

unfoldable pub nginx_access_log : Processor
nginx_access_log body ctx =
    replace_all body (codes "{{nginx_access_log}}")
      (unless_empty ctx.log_dir (codes "access_log " ++ ctx.log_dir ++ codes "/access.log;"))

unfoldable pub nginx_error_log : Processor
nginx_error_log body ctx =
    replace_all body (codes "{{nginx_error_log}}")
      (unless_empty ctx.log_dir (codes "error_log " ++ ctx.log_dir ++ codes "/error.log;"))

unfoldable pub php_fpm_socket : Processor
php_fpm_socket body ctx =
    replace_all body (codes "{{php_fpm_socket}}")
      (unless_empty ctx.fpm_socket (codes "fastcgi_pass unix:" ++ ctx.fpm_socket ++ codes ";"))

abbrev pub port_text : ℤ → Bytes
port_text (pos zero) = []
port_text (pos (suc n)) = itoa (suc n)
port_text (negsuc n) = []

unfoldable pub app_port : Processor
app_port body ctx = replace_all body (codes "{{app_port}}") (port_text ctx.app_port)

unfoldable pub reverse_proxy_url : Processor
reverse_proxy_url body ctx =
    replace_all body (codes "{{reverse_proxy_url}}") (
      unless_empty ctx.reverse_proxy_url
        (codes "proxy_pass " ++ ctx.reverse_proxy_url ++ codes ";"))

unfoldable pub settings : Processor
settings body ctx = replace_all body (codes "{{settings}}") ctx.settings
