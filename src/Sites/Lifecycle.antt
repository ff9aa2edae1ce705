-- ===== src/Sites/Lifecycle.antt =====
-- internal/site/site.go: Create, with its roll-back and its first certificate, ReapplyRuntime and Delete.
use aura_cp.Prelude.{
  Bool, ◌&&◌, not, [], Option, none, some, Bytes, codes, ◌==◌, bytes_eq, if◌then◌else◌, ℤ, Result,
  ok, err,
}
use aura_cp.Errors.{Error, site_not_found, php_not_configured}
use aura_cp.Validate
use aura_cp.Os.{Exec, pure, lift, guard, ignored, on_error, relabel, need, ◌>>=◌, ◌>>◌}
use aura_cp.Store.{
  Site, Tables, site_by_domain, create_site, delete_site, config_value, certificate,
  delete_certificate, delete_all_php_settings,
}
use aura_cp.Host.{Host, on_machine, query, commit, try_commit}
use aura_cp.Site.Users
use aura_cp.Site.Pools.{remove_pool}
use aura_cp.Site.Units.{UnitSpec, apply_unit, remove_unit}
use aura_cp.Site.Spec.{is_php, is_app}
use aura_cp.Nginx.Render
use aura_cp.Nginx.Manager
use aura_cp.Php.{write_site_pool}
use aura_cp.Acme.Issue.{ensure_cert}
use aura_cp.Sites.{Spec, Deps, has_backend, backend_of, new_site, first_vhost, unit_of}

abbrev pub text_or : Option Bytes → Bytes
text_or none = []
text_or (some v) = v

module _ {W : Type 0} (d : Deps W) where
  abbrev pub create_user : Spec → Exec W (Unit {0})
  create_user s = do
    Users.create d.kernel s.user s.domain
    if s.password == [] then pure tt else ignored (Users.set_password d.kernel s.user s.password)

  abbrev pub apply_runtime : UnitSpec → Exec W (Unit {0})
  apply_runtime u = apply_unit d.kernel d.bin_path d.pm2_path u

  abbrev pub start_pool : (version domain user : Bytes) → Exec (Host W) (Unit {0})
  start_pool version domain user = do
    guard (not d.has_php) php_not_configured
    write_site_pool d.kernel d.look_path version domain user

  abbrev pub with_pm2 : Bool → (version : Bytes) → Exec W (Unit {0})
  with_pm2 wanted version = if wanted && d.has_node then d.ensure_pm2 version else pure tt

  -- the backend of a site: a pool, a unit or nothing
  unfoldable pub start_backend : Spec → ℤ → Exec (Host W) (Unit {0})
  unfolding write_site_pool
  start_backend s port =
      if is_php s.site_type
      then start_pool s.php_version s.domain s.user
      else if s.site_type == codes "nodejs"
      then on_machine (with_pm2 s.use_pm2 s.node_version >> apply_runtime (unit_of s port))
      else if s.site_type == codes "python"
      then on_machine (apply_runtime (unit_of s port))
      else pure tt

  unfoldable pub cleanup_backend : Spec → Exec W (Unit {0})
  unfolding remove_pool
  cleanup_backend s =
      if is_php s.site_type
      then (if d.has_php then ignored (remove_pool d.kernel s.domain) else pure tt)
      else if is_app s.site_type
      then ignored (remove_unit d.kernel s.domain)
      else pure tt

  abbrev pub rollback : Spec → Exec (Host W) (Unit {0})
  rollback s = on_machine (ignored (Users.delete d.kernel s.user))

  -- the user, the backend and the nginx configuration, each undoing what was done when it fails
  unfoldable pub provision : Spec → ℤ → (upstream : Bytes) → Exec (Host W) (Unit {0})
  unfolding start_backend cleanup_backend
  provision s port up = do
    on_machine (create_user s)
    on_error (start_backend s port) (rollback s)
    on_error (on_machine (Manager.apply d.kernel d.look_path (first_vhost s up)))
        (on_machine (cleanup_backend s) >> rollback s)

  abbrev pub wordpress : Spec → Exec (Host W) (Unit {0})
  wordpress s =
      if s.wp_install && s.site_type == codes "wordpress"
      then on_machine (d.install_wordpress s)
      else pure tt

  abbrev pub checked : Spec → Result Error (Unit {0})
  checked s = elim (Validate.site_type s.site_type) [
    | err e ↦ err e
    | ok x ↦ elim (Validate.domain s.domain) [ err e ↦ err e | ok y ↦ Validate.username s.user ]
  ]

  -- Create, without the goroutine
  unfoldable pub create : Spec → Exec (Host W) Site
  unfolding provision new_site
  create s = do
    lift (checked s)
    backend ← query (λ t. backend_of t s)
    (port, up) ← lift backend
    provision s port up
    try_commit (create_site (new_site s port up))
    wordpress s
    pure (new_site s port up)

  -- What the goroutine renders once there is a certificate.
  unfoldable pub served_spec : Site → Tables → Render.Spec
  unfolding config_value certificate
  served_spec rec t =
      let config : Bytes → Bytes = λ key. config_value rec.domain key t in
      let locked = config (codes "basic_auth") == codes "true" in
      let cert : Option Bytes = elim (certificate rec.domain t) [
        | none ↦ none
        | some c ↦ c.cert_path
      ] in
      let key : Option Bytes = elim (certificate rec.domain t) [
        | none ↦ none
        | some c ↦ c.key_path
      ] in
      record {
        site_type = rec.site_type;
        domain = rec.domain;
        user = rec.site_user;
        root = rec.root_path;
        upstream = rec.upstream;
        php_version = rec.php_version;
        cache = config (codes "cache") == codes "true";
        cache_ttl = config (codes "cache_ttl");
        basic_auth_user = if locked then config (codes "basic_auth_user") else [];
        basic_auth_hash = if locked then config (codes "basic_auth_hash") else [];
        block_bots = config (codes "block_bots") == codes "true";
        override = config (codes "vhost_override");
        cert_path = text_or cert;
        key_path = elim cert [ none ↦ [] | some path ↦ text_or key ];
      }

  -- the goroutine of Create
  unfoldable pub first_certificate : Site → Exec (Host W) (Unit {0})
  unfolding served_spec
  first_certificate rec = do
    ensure_cert d.kernel d.authority rec.domain
    spec ← query (served_spec rec)
    on_machine (ignored (Manager.apply d.kernel d.look_path spec))

  -- The file that a Node.js site starts with and the module of a Python site are not in the record: they
  -- are empty here.
  abbrev pub unit_again : Site → (domain : Bytes) → UnitSpec
  unit_again st domain = record {
    site_type = st.site_type;
    domain = domain;
    user = st.site_user;
    port = st.port;
    start_file = [];
    entry = [];
    node_version = if st.site_type == codes "nodejs" then text_or st.node_version else [];
    use_pm2 = st.site_type == codes "nodejs" && st.pm2_enabled;
  }

  unfoldable pub reapply_to : (domain : Bytes) → Site → Exec (Host W) (Unit {0})
  reapply_to domain st =
      if not (has_backend st.site_type)
      then pure tt
      else if is_php st.site_type
      then start_pool st.php_version st.domain st.site_user
      else if st.site_type == codes "nodejs"
      then on_machine (
          with_pm2 st.pm2_enabled (text_or st.node_version) >> apply_runtime (unit_again st domain))
      else on_machine (apply_runtime (unit_again st domain))

  abbrev pub found : (domain : Bytes) → Exec (Host W) Site
  found domain = do row ← query (site_by_domain domain); relabel site_not_found (need row)

  -- ReapplyRuntime
  unfoldable pub reapply_runtime : (domain : Bytes) → Exec (Host W) (Unit {0})
  unfolding reapply_to
  reapply_runtime domain = found domain >>= reapply_to domain

  abbrev pub stop_backend : (domain : Bytes) → Site → Exec W (Unit {0})
  stop_backend domain st =
      if is_php st.site_type
      then (if d.has_php then ignored (remove_pool d.kernel domain) else pure tt)
      else if is_app st.site_type
      then remove_unit d.kernel domain
      else pure tt

  -- Delete, from the record on
  unfoldable pub tear_down : (domain : Bytes) → Site → Exec W (Unit {0})
  unfolding remove_pool
  tear_down domain st = do
    Manager.remove_site d.kernel d.look_path domain
    stop_backend domain st
    Users.delete d.kernel st.site_user

  unfoldable pub forget : (domain : Bytes) → Exec (Host W) (Unit {0})
  forget domain = do
    commit (delete_all_php_settings domain)
    commit (delete_certificate domain)
    commit (delete_site domain)

  unfoldable pub delete : (domain : Bytes) → Exec (Host W) (Unit {0})
  unfolding tear_down forget
  delete domain = do st ← found domain; on_machine (tear_down domain st); forget domain
