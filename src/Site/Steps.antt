-- ===== src/Site/Steps.antt =====
-- internal/site/creator: the steps that the pipelines of the site types are made of (creator.go, php.go,
-- nodejs.go, python.go, static_reverse.go).
use aura_cp.Prelude.{
  suc, zero, Bool, true, false, ◌&&◌, not, ltz, List, [], ◌∷◌, ◌++◌, Option, none, some, Bytes,
  codes, ◌==◌, bytes_eq, if◌then◌else◌, ℤ, pos, negsuc, eqz,
}
use aura_cp.Prelude.Text.{replace_all}
use aura_cp.Errors.{nginx_invalid, php_not_configured, runtime_not_configured}
use aura_cp.Filepath.{join_path}
use aura_cp.Paths.{
  site_home, doc_root, ssl_dir, cert_path, key_path, nginx_sites_available, nginx_sites_enabled,
  nginx_site_file, nginx_site_link,
}
use aura_cp.Os.{
  Info, mkdir_all, remove, rename, write_file, symlink, run, Kernel, Exec, pure, lift, asks, need,
  guard, perform, attempt, ignored, on_error, or_try, relabel, ◌>>=◌, ◌>>◌,
}
use aura_cp.Vhost.Template.{template_for, load, render}
use aura_cp.Site.Spec.{Spec, render_context}
use aura_cp.Site.Users
use aura_cp.Site.Users.{exists, owner, command, em_dash}
use aura_cp.Site.Pools.{write_pool}
use aura_cp.Site.Units.{UnitSpec, apply_unit}

abbrev pub logrotate_template : Bytes
logrotate_template =
    codes "/home/{{user}}/logs/*.log /home/{{user}}/logs/*/*.log {\n    daily\n    rotate 14\n"
    ++ codes "    compress\n    delaycompress\n    missingok\n    notifempty\n"
    ++ codes "    create 0640 {{user}} {{group}}\n    sharedscripts\n    postrotate\n"
    ++ codes "        systemctl reload nginx >/dev/null 2>&1 || true\n    endscript\n}\n"

abbrev pub nginx_test : List Bytes
nginx_test = codes "nginx" ∷ codes "-t" ∷ []

abbrev pub reload_nginx_service : List Bytes
reload_nginx_service = codes "systemctl" ∷ codes "reload" ∷ codes "nginx" ∷ []

abbrev pub staged : Bytes → Bytes
staged domain = nginx_site_file domain ++ codes ".new"

module _ {W : Type 0} (k : Kernel W) where
  unfoldable pub create_user : Spec → Exec W (Unit {0})
  create_user s = do
    Users.create k s.user s.domain
    if s.password == [] then pure tt else ignored (Users.set_password k s.user s.password)

  unfoldable pub create_root_directory : Spec → Exec W (Unit {0})
  create_root_directory s = do
    perform k (mkdir_all (doc_root s.user s.domain) 0o750)
    command k (codes "chown" ∷ owner s.user ∷ doc_root s.user s.domain ∷ [])

  unfoldable pub create_logrotate_file : Spec → Exec W (Unit {0})
  create_logrotate_file s = perform k (
      write_file (join_path (codes "/etc/logrotate.d" ∷ s.user ∷ []))
        (replace_all (replace_all logrotate_template (codes "{{user}}") s.user) (codes "{{group}}")
          s.user)
        0o644)

  abbrev pub openssl : Bytes → List Bytes
  openssl domain =
      codes "openssl"
      ∷ codes "req"
      ∷ codes "-x509"
      ∷ codes "-nodes"
      ∷ codes "-days"
      ∷ codes "30"
      ∷ codes "-newkey"
      ∷ codes "rsa:2048"
      ∷ codes "-keyout"
      ∷ key_path domain
      ∷ codes "-out"
      ∷ cert_path domain
      ∷ codes "-subj"
      ∷ (codes "/CN=" ++ domain)
      ∷ []

  unfoldable pub create_ssl_cert_files : Spec → Exec W (Unit {0})
  create_ssl_cert_files s = do
    perform k (mkdir_all ssl_dir 0o755)
    there ← asks (k.stat (cert_path s.domain))
    if exists there then pure tt else command k (openssl s.domain)

  abbrev pub link_target : Option Info → Option Bytes → Option Bytes
  link_target none target = none
  link_target (some i) target = if i.is_symlink then target else none

  -- Where the live link points before the swap; `none` for "".
  abbrev pub previous : Bytes → W → Option Bytes
  previous link w = link_target (k.lstat link w) (k.readlink link w)

  abbrev pub relink : Option Bytes → Bytes → Exec W (Unit {0})
  relink none link = pure tt
  relink (some target) link = attempt k (symlink target link)

  -- what happens when nginx refuses the new configuration
  unfoldable pub roll_back : Bytes → Option Bytes → Exec W (Unit {0})
  roll_back domain prev = do
    attempt k (remove (nginx_site_link domain))
    relink prev (nginx_site_link domain)
    attempt k (remove (staged domain))

  -- From the staged file on: point the link at it, test, and then put it in place.
  unfoldable pub swap_vhost : Bytes → Exec W (Unit {0})
  unfolding roll_back
  swap_vhost domain = do
    prev ← asks (previous (nginx_site_link domain))
    attempt k (remove (nginx_site_link domain))
    on_error (perform k (symlink (staged domain) (nginx_site_link domain)))
        (attempt k (remove (staged domain)))
    relabel nginx_invalid (on_error (command k nginx_test) (roll_back domain prev))
    perform k (rename (staged domain) (nginx_site_file domain))
    attempt k (remove (nginx_site_link domain))
    perform k (symlink (nginx_site_file domain) (nginx_site_link domain))

  abbrev pub issued : Bool → Bytes → Bytes
  issued true path = path
  issued false path = []

  unfoldable pub create_nginx_vhost : (Bytes → Option Bytes) → Spec → Exec W (Unit {0})
  unfolding swap_vhost
  create_nginx_vhost bundled s = do
    body ← lift (load bundled s.site_type)
    t ← lift (template_for s.site_type)
    cert ← asks (k.stat (cert_path s.domain))
    let ctx =
        render_context s (issued (exists cert) (cert_path s.domain))
          (issued (exists cert) (key_path s.domain))
    text ← need (render t body ctx)
    perform k (mkdir_all nginx_sites_available 0o755)
    perform k (mkdir_all nginx_sites_enabled 0o755)
    perform k (write_file (staged s.domain) text 0o644)
    swap_vhost s.domain

  unfoldable pub reload_nginx : Exec W (Unit {0})
  reload_nginx = do
    relabel nginx_invalid (command k nginx_test)
    or_try (command k reload_nginx_service)
        (command k (codes "nginx" ∷ codes "-s" ∷ codes "reload" ∷ []))

  unfoldable pub reset_permissions : Spec → Exec W (Unit {0})
  reset_permissions s = do
    command k (codes "chown" ∷ codes "-R" ∷ owner s.user ∷ site_home s.user ∷ [])
    attempt k (run (codes "chmod" ∷ codes "750" ∷ site_home s.user ∷ []))

  -- A file of the document root that is written only if it is not there.
  unfoldable pub create_index : Spec → Bytes → Bytes → Exec W (Unit {0})
  create_index s name body = do
    there ← asks (k.stat (join_path (doc_root s.user s.domain ∷ name ∷ [])))
    if exists there then pure tt else do
      perform k (write_file (join_path (doc_root s.user s.domain ∷ name ∷ [])) body 0o644)
      command k
          (codes "chown" ∷ owner s.user ∷ join_path (doc_root s.user s.domain ∷ name ∷ []) ∷ [])

  unfoldable pub create_index_php : Spec → Exec W (Unit {0})
  unfolding create_index
  create_index_php s =
      if s.site_type == codes "wordpress" && s.wp_install
      then pure tt
      else create_index s (codes "index.php") (
          codes "<?php\n\necho 'auraCP " ++ em_dash ++ codes " " ++ s.domain ++ codes " ready.';\n")

  unfoldable pub create_index_html : Spec → Exec W (Unit {0})
  unfolding create_index
  create_index_html s = create_index s (codes "index.html") (
      codes "<!doctype html>\n<html><head><title>"
      ++ s.domain
      ++ codes "</title></head>\n<body><h1>"
      ++ s.domain
      ++ codes "</h1>\n<p>auraCP static site "
      ++ em_dash
      ++ codes " ready. Upload your files via SFTP or the File Manager.</p>\n</body></html>\n")

  -- The text of the pool is a parameter; `false` stands for a manager that is nil.
  unfoldable pub create_php_fpm_pool : Bool → Option Bytes → Spec → Exec W (Unit {0})
  create_php_fpm_pool has_php pool_text s = do
    guard (not has_php) php_not_configured
    write_pool k pool_text s.php_version s.domain s.user

  abbrev pub unit_spec : Spec → UnitSpec
  unit_spec s = record {
    site_type = s.site_type;
    domain = s.domain;
    user = s.user;
    port = s.app_port;
    start_file = s.start_file;
    entry = s.entry;
    node_version = s.node_version;
    use_pm2 = s.use_pm2;
  }

  -- CreateSystemdUnit of both types; only Node.js sites bring PM2 along.
  unfoldable pub create_systemd_unit :
      (bin_path pm2_path : Bytes → Bytes) (ensure_pm2 : Bytes → Exec W (Unit {0}))
      (has_rt has_node : Bool)
      → Spec
      → Exec W (Unit {0})
  create_systemd_unit bin_path pm2_path ensure_pm2 has_rt has_node s = do
    guard (not has_rt) runtime_not_configured
    if s.site_type == codes "nodejs" && (s.use_pm2 && has_node)
        then ensure_pm2 s.node_version
        else pure tt
    apply_unit k bin_path pm2_path (unit_spec s)

-- Store.NextPort, given the greatest port in the table: `none` an error, `some none` an empty table
unfoldable pub next_port : Option (Option ℤ) → Option ℤ
next_port none = none
next_port (some none) = some (pos 9000)
next_port (some (some m)) = if ltz m (pos 9000) then some (pos 9000) else some (succ m)
  where
    succ : ℤ → ℤ
    succ (pos n) = pos (suc n)
    succ (negsuc zero) = pos 0
    succ (negsuc (suc n)) = negsuc n

abbrev pub with_port : ℤ → Spec → Spec
with_port p s = record {
  site_type = s.site_type;
  domain = s.domain;
  user = s.user;
  password = s.password;
  settings = s.settings;
  php_version = s.php_version;
  node_version = s.node_version;
  start_file = s.start_file;
  use_pm2 = s.use_pm2;
  entry = s.entry;
  app_port = p;
  upstream = s.upstream;
  wp_install = s.wp_install;
}

module _ {W : Type 0} where
  -- AllocatePort, which gives the spec its port
  unfoldable pub allocate_port : (W → Option (Option ℤ)) → Spec → Exec W Spec
  unfolding next_port
  allocate_port max_port s =
      if not (eqz s.app_port (pos 0))
      then pure s
      else do m ← asks (λ w. next_port (max_port w)); p ← need m; pure (with_port p s)
