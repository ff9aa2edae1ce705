-- ===== src/Nginx/Render.antt =====
-- internal/webserver/webserver.go: Render, the nginx configuration of a site.
use aura_cp.Prelude.{
  Bool, ◌||◌, [], Bytes, codes, ◌==◌, bytes_eq, nat_eq, if◌then◌else◌, Result, ok, err, ◌>>=◌, ◌>>◌,
  map,
}
use aura_cp.Errors.{Error, unknown_site_type, upstream_required}
use aura_cp.Validate
use aura_cp.Paths.{doc_root, log_dir, php_socket, htpasswd_file, acme_challenge_dir}
use aura_cp.Site.Spec.{is_php, is_app}
use aura_cp.Nginx.Texts.{VhostData, vhost_text}

-- Spec, without CloudflareTok, which the code does not read
pub record Spec : Type 0 where
  pub site_type : Bytes
  pub domain : Bytes
  pub user : Bytes
  pub root : Bytes
  pub upstream : Bytes
  pub php_version : Bytes
  pub cache : Bool
  pub cache_ttl : Bytes
  pub basic_auth_user : Bytes
  pub basic_auth_hash : Bytes
  pub block_bots : Bool
  pub override : Bytes
  pub cert_path : Bytes
  pub key_path : Bytes

abbrev pub or_given : Bytes → Bytes → Bytes
or_given given default = if given == [] then default else given

-- strings.NewReplacer(".", "_", "-", "_")
abbrev pub safe_name : Bytes → Bytes
safe_name = map (λ c. if c == b'.' || c == b'-' then b'_' else c)

-- What Render puts into the template for every type of site.
unfoldable pub common_data : Spec → VhostData
common_data s = record {
  site_type = s.site_type;
  domain = s.domain;
  safe_name = safe_name s.domain;
  doc_root = or_given s.root (doc_root s.user s.domain);
  log_dir = log_dir s.user;
  php_socket = [];
  upstream = [];
  acme_dir = acme_challenge_dir;
  cert_path = s.cert_path;
  key_path = s.key_path;
  bots = s.block_bots;
  basic_auth_user = s.basic_auth_user;
  basic_auth_file = htpasswd_file s.domain;
  cache = s.cache;
  cache_ttl = or_given s.cache_ttl (codes "600s");
}

abbrev pub with_socket : Spec → VhostData
with_socket s = record (common_data s) { php_socket = php_socket s.domain }

abbrev pub with_upstream : Spec → Result Error VhostData
with_upstream s =
    if s.upstream == []
    then err upstream_required
    else ok (record (common_data s) { upstream = s.upstream })

-- the switch of Render on the type of the site
unfoldable pub typed_data : Spec → Result Error VhostData
unfolding common_data
typed_data s =
    if s.site_type == codes "static"
    then ok (common_data s)
    else if is_php s.site_type
    then (Validate.php_version s.php_version >> ok (with_socket s))
    else if is_app s.site_type || s.site_type == codes "reverseproxy"
    then with_upstream s
    else err unknown_site_type

unfoldable pub render : Spec → Result Error Bytes
unfolding typed_data
render s =
    Validate.domain s.domain
    >> Validate.username s.user
    >> (typed_data s >>= λ d. ok (vhost_text d))
