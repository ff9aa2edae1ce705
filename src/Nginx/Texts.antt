-- ===== src/Nginx/Texts.antt =====
-- internal/webserver/template.go: the nginx templates, as text/template executes them. An action with `{{-` takes
-- the white space before it away.
use aura_cp.Prelude.{Bool, ◌||◌, not, [], ◌++◌, Bytes, codes, ◌==◌, bytes_eq, if◌then◌else◌}
use aura_cp.Site.Users.{em_dash}

-- vhostData, without the fields that the template does not read
pub record VhostData : Type 0 where
  pub site_type : Bytes
  pub domain : Bytes
  pub safe_name : Bytes
  pub doc_root : Bytes
  pub log_dir : Bytes
  pub php_socket : Bytes
  pub upstream : Bytes
  pub acme_dir : Bytes
  pub cert_path : Bytes
  pub key_path : Bytes
  pub bots : Bool
  pub basic_auth_user : Bytes
  pub basic_auth_file : Bytes
  pub cache : Bool
  pub cache_ttl : Bytes

-- {{if eq .Type "static"}}
unfoldable pub static_text : VhostData → Bytes
static_text d =
    codes "\n    root "
    ++ d.doc_root
    ++ codes ";\n    index index.html index.htm;\n    location / {\n"
    ++ codes "        try_files $uri $uri/ =404;\n    }"

-- {{else if or (eq .Type "php") (eq .Type "wordpress")}}
unfoldable pub php_text : VhostData → Bytes
php_text d =
    codes "\n    root "
    ++ d.doc_root
    ++ codes ";\n    index index.php index.html;\n\n    location / {\n"
    ++ codes "        try_files $uri $uri/ /index.php?$args;\n    }"
    ++ (if d.cache
        then codes "\n    set $skip_cache 0;\n"
          ++ codes "    if ($request_method = POST)            { set $skip_cache 1; }\n"
          ++ codes "    if ($query_string != \"\")               { set $skip_cache 1; }\n"
          ++ codes
              "    if ($http_cookie ~* \"comment_author|wordpress_logged_in|wp-postpass\") { set $skip_cache 1; }"
        else [])
    ++ codes "\n\n    location ~ \\.php$ {\n        try_files $uri =404;\n"
    ++ codes "        fastcgi_split_path_info ^(.+\\.php)(/.+)$;\n        fastcgi_pass unix:"
    ++ d.php_socket
    ++ codes ";\n        fastcgi_index index.php;\n        include fastcgi_params;\n"
    ++ codes "        fastcgi_param SCRIPT_FILENAME $document_root$fastcgi_script_name;\n"
    ++ codes "        fastcgi_param PATH_INFO $fastcgi_path_info;\n"
    ++ codes "        fastcgi_param HTTPS $https if_not_empty;\n"
    ++ codes "        fastcgi_read_timeout 120s;"
    ++ (if d.cache
        then codes "\n        fastcgi_cache auracp_fastcgi;\n"
          ++ codes "        fastcgi_cache_valid 200 301 302 "
          ++ d.cache_ttl
          ++ codes ";\n        fastcgi_cache_bypass $skip_cache;\n"
          ++ codes "        fastcgi_no_cache    $skip_cache;\n"
          ++ codes "        add_header X-Cache $upstream_cache_status always;"
        else [])
    ++ codes "\n    }"

-- {{else if or (eq .Type "nodejs") (eq .Type "python")}}
unfoldable pub app_text : VhostData → Bytes
app_text d =
    codes "\n    location / {\n        proxy_pass http://"
    ++ d.upstream
    ++ codes ";\n        proxy_http_version 1.1;\n"
    ++ codes "        proxy_set_header Upgrade $http_upgrade;\n"
    ++ codes "        proxy_set_header Connection $http_connection;\n"
    ++ codes "        proxy_set_header Host $host;\n"
    ++ codes "        proxy_set_header X-Real-IP $remote_addr;\n"
    ++ codes "        proxy_set_header X-Forwarded-For $proxy_add_x_forwarded_for;\n"
    ++ codes "        proxy_set_header X-Forwarded-Proto $scheme;\n"
    ++ codes "        proxy_read_timeout 120s;"
    ++ (if d.cache
        then codes "\n        proxy_cache auracp_proxy;\n        proxy_cache_valid 200 301 302 "
          ++ d.cache_ttl
          ++ codes ";\n"
          ++ codes
              "        proxy_cache_use_stale error timeout updating http_500 http_502 http_503 http_504;\n"
          ++ codes "        add_header X-Cache $upstream_cache_status always;"
        else [])
    ++ codes "\n    }"

-- {{else if eq .Type "reverseproxy"}}
unfoldable pub proxy_text : VhostData → Bytes
proxy_text d =
    codes "\n    location / {\n        proxy_pass "
    ++ d.upstream
    ++ codes ";\n        proxy_http_version 1.1;\n        proxy_set_header Host $host;\n"
    ++ codes "        proxy_set_header X-Real-IP $remote_addr;\n"
    ++ codes "        proxy_set_header X-Forwarded-For $proxy_add_x_forwarded_for;\n"
    ++ codes "        proxy_set_header X-Forwarded-Proto $scheme;\n"
    ++ codes "        proxy_read_timeout 120s;\n    }"

unfoldable pub served_text : VhostData → Bytes
served_text d =
    if d.site_type == codes "static"
    then static_text d
    else if d.site_type == codes "php" || d.site_type == codes "wordpress"
    then php_text d
    else if d.site_type == codes "nodejs" || d.site_type == codes "python"
    then app_text d
    else if d.site_type == codes "reverseproxy"
    then proxy_text d
    else []

unfoldable pub acme_location : Bytes → Bytes
acme_location acme_dir =
    codes "    location /.well-known/acme-challenge/ {\n        alias "
    ++ acme_dir
    ++ codes "/;\n        default_type \"text/plain\";\n        try_files $uri =404;\n    }"

unfoldable pub auth_basic : Bytes → Bytes
auth_basic basic_auth_file =
    codes "\n    auth_basic \"Restricted\";\n    auth_basic_user_file "
    ++ basic_auth_file
    ++ codes ";"

-- {{define "body"}}
unfoldable pub body_text : VhostData → Bytes
body_text d =
    codes "\n    access_log "
    ++ d.log_dir
    ++ codes "/access.log;\n    error_log  "
    ++ d.log_dir
    ++ codes "/error.log;\n\n    server_tokens off;\n    client_max_body_size 64m;"
    ++ (if d.bots
        then codes "\n    if ($auracp_bad_bot_" ++ d.safe_name ++ codes ") { return 403; }"
        else [])
    ++ (if not (d.basic_auth_user == []) then auth_basic d.basic_auth_file else [])
    ++ codes "\n\n    # Deny dotfiles (except the ACME challenge alias above).\n"
    ++ codes "    location ~ /\\.(?!well-known) { deny all; }"
    ++ served_text d

-- the server{} block that {{if .CertPath}} adds
unfoldable pub tls_server : VhostData → Bytes
tls_server d =
    codes "\nserver {\n    listen 443 ssl;\n    listen [::]:443 ssl;\n    http2 on;\n"
    ++ codes "    server_name "
    ++ d.domain
    ++ codes ";\n\n    ssl_certificate     "
    ++ d.cert_path
    ++ codes ";\n    ssl_certificate_key "
    ++ d.key_path
    ++ codes ";\n    ssl_protocols TLSv1.2 TLSv1.3;\n    ssl_prefer_server_ciphers off;\n\n"
    ++ codes "    add_header Strict-Transport-Security \"max-age=31536000\" always;\n"
    ++ codes "    add_header X-Content-Type-Options nosniff always;\n"
    ++ codes "    add_header Referrer-Policy strict-origin-when-cross-origin always;\n\n    "
    ++ body_text d
    ++ codes "\n}"

-- what stands in the plain server{} block in place of the redirect
unfoldable pub plain_body : VhostData → Bytes
plain_body d = codes "\n    " ++ body_text d

unfoldable pub redirect : Bytes
redirect =
    codes "\n    # Cert is in place "
    ++ em_dash
    ++ codes " everything else upgrades to HTTPS.\n"
    ++ codes "    location / { return 301 https://$host$request_uri; }"

unfoldable pub vhost_text : VhostData → Bytes
vhost_text d =
    codes "# auraCP-managed vhost "
    ++ em_dash
    ++ codes " do not edit by hand; rewritten on every panel change."
    ++ (if d.bots
        then codes "\nmap $http_user_agent $auracp_bad_bot_"
          ++ d.safe_name
          ++ codes
              " {\n    default 0;\n    \"~*(ahrefsbot|semrushbot|mj12bot|dotbot|petalbot)\" 1;\n"
          ++ codes "}"
        else [])
    ++ codes "\n\nserver {\n    listen 80;\n    listen [::]:80;\n    server_name "
    ++ d.domain
    ++ codes ";\n\n    # ACME HTTP-01 challenge "
    ++ em_dash
    ++ codes " always served plaintext on :80, even after the\n"
    ++ codes "    # cert lands. Renewals need it.\n"
    ++ acme_location d.acme_dir
    ++ (if not (d.cert_path == []) then redirect else plain_body d)
    ++ codes "\n}"
    ++ (if not (d.cert_path == []) then tls_server d else [])
    ++ codes "\n"
