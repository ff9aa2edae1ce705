-- ===== src/Nginx/PanelTexts.antt =====
-- internal/webserver/template.go: the template of the panel's own vhost, and the text of the default server.
use aura_cp.Prelude.{not, [], ◌∷◌, ◌++◌, Bytes, codes, ◌==◌, bytes_eq, if◌then◌else◌}
use aura_cp.Site.Users.{em_dash}

-- an arrow to the right, in UTF-8
abbrev arrow : Bytes
arrow = 0xe2 ∷ 0x86 ∷ 0x92 ∷ []

-- panelData
pub record PanelData : Type 0 where
  pub domain : Bytes
  pub backend : Bytes
  pub acme_dir : Bytes
  pub cert_path : Bytes
  pub key_path : Bytes

unfoldable pub panel_text : PanelData → Bytes
panel_text d =
    codes "# auraCP control panel "
    ++ em_dash
    ++ codes " fronts auracpd's :8443 self-signed TLS.\n#\n"
    ++ codes "# v0.2.22: upload pipeline directives explicit at the server level so big\n"
    ++ codes "# multipart uploads through the file manager don't trip nginx's defaults\n"
    ++ codes "# (client_max_body_size 1m, request buffering ON which would force nginx\n"
    ++ codes "# to spool the whole upload to disk before passing it to auracpd "
    ++ em_dash
    ++ codes " killing\n# our live progress bar and breaking large files entirely).\n"
    ++ codes "server {\n    listen 80;\n    listen [::]:80;\n    server_name "
    ++ d.domain
    ++ codes ";\n\n"
    ++ codes "    # Allow up to 2 GiB uploads. Adjust at runtime via /etc/nginx/conf.d/.\n"
    ++ codes "    client_max_body_size 2g;\n    client_body_timeout 600s;\n"
    ++ codes "    client_body_buffer_size 256k;\n\n"
    ++ codes "    location /.well-known/acme-challenge/ {\n        alias "
    ++ d.acme_dir
    ++ codes "/;\n        default_type \"text/plain\";\n        try_files $uri =404;\n    }"
    ++ (if not (d.cert_path == [])
        then codes "\n    location / { return 301 https://$host$request_uri; }"
        else codes "\n    location / {\n        proxy_pass "
          ++ d.backend
          ++ codes ";\n        proxy_ssl_verify off;\n        proxy_set_header Host $host;\n"
          ++ codes "        proxy_set_header X-Forwarded-Proto $scheme;\n"
          ++ codes "        proxy_request_buffering off;\n        proxy_buffering off;\n"
          ++ codes "        proxy_send_timeout 600s;\n        proxy_read_timeout 600s;\n    }")
    ++ codes "\n}"
    ++ (if not (d.cert_path == [])
        then codes "\nserver {\n    listen 443 ssl;\n    listen [::]:443 ssl;\n    http2 on;\n"
          ++ codes "    server_name "
          ++ d.domain
          ++ codes ";\n\n    ssl_certificate     "
          ++ d.cert_path
          ++ codes ";\n    ssl_certificate_key "
          ++ d.key_path
          ++ codes ";\n    ssl_protocols TLSv1.2 TLSv1.3;\n\n"
          ++ codes "    add_header Strict-Transport-Security \"max-age=31536000\" always;\n\n"
          ++ codes "    # Mirror the :80 upload caps "
          ++ em_dash
          ++ codes " applies to whichever scheme the client used.\n    client_max_body_size 2g;\n"
          ++ codes "    client_body_timeout 600s;\n    client_body_buffer_size 256k;\n\n"
          ++ codes "    # v0.2.25: Adminer (database manager UI). Lives under /_adminer/ on the\n"
          ++ codes "    # panel domain so it inherits panel auth (session cookies are scoped to\n"
          ++ codes "    # this host) and the panel's TLS. The SSO wrapper at index.php reads a\n"
          ++ codes "    # one-time token written by auracpd and pre-authenticates Adminer; no\n"
          ++ codes "    # standalone login form is ever shown.\n    location /_adminer/ {\n"
          ++ codes "        alias /opt/auracp/adminer/;\n        index index.php;\n"
          ++ codes "        # v0.2.39: serve adminer.css + sibling static assets directly with\n"
          ++ codes "        # a long cache; named capture is required because the outer location\n"
          ++ codes "        # is regex-anchored and alias needs to know what subpath to serve.\n"
          ++ codes "        location ~ ^/_adminer/(?<asset>.+\\.(css|js|png|svg|ico|woff2?))$ {\n"
          ++ codes "            alias /opt/auracp/adminer/$asset;\n            expires 7d;\n"
          ++ codes "            access_log off;\n        }\n"
          ++ codes "        # Route every other request through the PHP wrapper. The wrapper\n"
          ++ codes "        # validates the SSO token (or the existing PHP session) and only\n"
          ++ codes "        # then hands off to Adminer.\n        location ~ ^/_adminer/.*$ {\n"
          ++ codes "            include fastcgi_params;\n"
          ++ codes "            fastcgi_pass unix:/run/php-fpm/auracp-adminer.sock;\n"
          ++ codes "            fastcgi_param SCRIPT_FILENAME /opt/auracp/adminer/index.php;\n"
          ++ codes "            fastcgi_param SCRIPT_NAME /_adminer/index.php;\n"
          ++ codes "            fastcgi_param PATH_INFO \"\";\n"
          ++ codes "            fastcgi_param HTTPS $https if_not_empty;\n"
          ++ codes "            fastcgi_read_timeout 60s;\n        }\n    }\n\n    location / {\n"
          ++ codes "        proxy_pass "
          ++ d.backend
          ++ codes ";\n        proxy_ssl_verify off;\n        proxy_set_header Host $host;\n"
          ++ codes "        proxy_set_header X-Real-IP $remote_addr;\n"
          ++ codes "        proxy_set_header X-Forwarded-For $proxy_add_x_forwarded_for;\n"
          ++ codes "        proxy_set_header X-Forwarded-Proto $scheme;\n"
          ++ codes "        # request_buffering off "
          ++ arrow
          ++ codes " nginx pipes the body straight to auracpd\n"
          ++ codes "        # as it arrives. Required for our upload progress bar to be honest\n"
          ++ codes "        # (without it, the bar finishes when nginx has the bytes, then the\n"
          ++ codes "        # browser waits while nginx re-uploads to auracpd "
          ++ em_dash
          ++ codes " looks like a hang).\n        proxy_request_buffering off;\n"
          ++ codes "        proxy_buffering off;\n        proxy_send_timeout 600s;\n"
          ++ codes "        proxy_read_timeout 600s;\n    }\n}"
        else [])
    ++ codes "\n"

unfoldable pub catch_all_text : Bytes
catch_all_text =
    codes "# auraCP "
    ++ em_dash
    ++ codes " catch-all default server (managed; do not edit by hand)\n#\n"
    ++ codes "# Drops requests for domains that point at this server but don't have a\n"
    ++ codes "# provisioned vhost yet. Without this, nginx serves the first defined\n"
    ++ codes "# server block (typically the panel) as a fallback "
    ++ em_dash
    ++ codes " making freshly\n# created sites appear as the panel until their cert lands.\n"
    ++ codes "\nserver {\n    listen 80 default_server;\n    listen [::]:80 default_server;\n"
    ++ codes "    server_name _;\n    return 444;\n}\n\nserver {\n"
    ++ codes "    listen 443 ssl default_server;\n    listen [::]:443 ssl default_server;\n"
    ++ codes "    ssl_reject_handshake on;\n}\n"
