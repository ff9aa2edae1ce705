-- ===== src/Tests/Site.antt =====
-- A site that comes and goes on the test machine.
use aura_cp.Site.Laws.Recreate.{Elem, Removes, run_delete-free}
use aura_cp.Prelude.{
  arith, inl, inr, ◌⊎◌, ◌==◌, bytes_eq, if◌then◌else◌, ℕ, ◌≡◌, refl, Bool, true, false, List, [],
  ◌∷◌, Option, none, some, Bytes, codes, Result, ok, err, ℤ, pos, All,
}
use aura_cp.Prelude.Text.{has_suffix}
use aura_cp.Validate
use aura_cp.Paths.{
  nginx_site_file, nginx_site_link, cert_path, key_path, htpasswd_file, php_pool_file,
}
use aura_cp.Os.{
  Call, remove, Info, Kernel, State, Exec, pure, mkdir_all, mkdir, create, open_trunc, open_excl,
  open_read, write, write_string, close, remove_all, rename, chmod, chown, zip_entry, write_file,
  symlink, run,
}
use aura_cp.Os.Logged.{Logged}
use aura_cp.Os.Confined.{Confined}
use aura_cp.Site.Spec.{Spec}
use aura_cp.Site.Users
use aura_cp.Site.Users.{exists}
use aura_cp.Site.Steps.{swap_vhost}
use aura_cp.Site.Pools.{installed, supported_versions}
use aura_cp.Site.Preflight.{preflight, check_pools}
use aura_cp.Site.Create.{Deps, run_create, checked_by}
use aura_cp.Site.Delete.{run_delete}
use aura_cp.Site.Laws.Swap.{IsStaging, Fails, swap_vhost-refused}
use aura_cp.Site.Laws.Sweep.{run_delete-Logged}
use aura_cp.Site.Laws.Checks.{preflight-ok, run_create-ok}
use aura_cp.Tests.Machine.{folder, text_file, alice, example_com, machine, start}

swap_vhost-refused_example :
    Confined (IsStaging example_com) (swap_vhost machine example_com)
    × Fails (swap_vhost machine example_com)
swap_vhost-refused_example = swap_vhost-refused machine example_com (λ w. refl)

run_delete-Logged_example :
    let log = (run_delete machine true example_com alice start).1.log in
    Logged (remove (nginx_site_link example_com)) log
    × Logged (remove (nginx_site_file example_com)) log
    × Logged (remove (cert_path example_com)) log
    × Logged (remove (key_path example_com)) log
    × Logged (remove (htpasswd_file example_com)) log
run_delete-Logged_example = run_delete-Logged machine true example_com alice start

abbrev spec : Spec
spec = record {
  site_type = codes "php";
  domain = example_com;
  user = alice;
  password = [];
  settings = [];
  php_version = codes "8.4";
  node_version = [];
  start_file = [];
  use_pm2 = false;
  entry = [];
  app_port = pos 0;
  upstream = [];
  wp_install = false;
}

abbrev static_spec : Spec
static_spec = record {
  site_type = codes "static";
  domain = example_com;
  user = alice;
  password = [];
  settings = [];
  php_version = [];
  node_version = [];
  start_file = [];
  use_pm2 = false;
  entry = [];
  app_port = pos 0;
  upstream = [];
  wp_install = false;
}

-- A host on which every call succeeds.
abbrev deps : Deps ℕ
deps = record {
  kernel = record {
    act = λ c w. (true, w);
    stat = λ p w. none;
    lstat = λ p w. none;
    read_dir = λ p w. none;
    read_file = λ p w. none;
    readlink = λ p w. none;
    eval_symlinks = λ p w. none;
    walk_tree = λ p w. [];
    output = λ argv w. [];
    knows_user = λ u w. true;
    random = λ w. w;
    to_lower = λ s. s;
  };
  has_php = true;
  has_rt = true;
  has_node = true;
  parse_url = λ s. none;
  bundled = λ name. some (codes "{{root}}");
  pool_text = λ s w. some (codes "[pool]");
  bin_path = λ v. v;
  pm2_path = λ v. v;
  ensure_pm2 = λ v. pure tt;
  max_port = λ w. some none;
  probe = λ domain w. some false;
}

preflight-ok_example :
    (Validate.domain example_com ≡ ok tt)
    × (Validate.username alice ≡ ok tt)
    × (exists (machine.stat (nginx_site_file example_com) 0) ≡ false)
    × All (λ v. exists (machine.stat (php_pool_file v example_com) 0) ≡ false) (codes "8.4" ∷ [])
unfolding preflight Validate.site_type Validate.domain aura_cp.Regex.match_string Validate.username
    aura_cp.Prelude.Text.has_suffix nginx_site_file aura_cp.Filepath.join_path php_pool_file
    Validate.php_version
preflight-ok_example = preflight-ok machine (λ s. none) 0 spec (codes "8.4" ∷ []) refl

run_create-ok_example :
    (checked_by deps static_spec 0 ≡ ok tt)
    × (deps.probe example_com (run_create deps static_spec start).1.world ≡ some false)
unfolding run_create aura_cp.Site.Create.run_type aura_cp.Site.Create.run_static
    aura_cp.Site.Create.run_steps aura_cp.Os.◌>>=◌ aura_cp.Os.asks aura_cp.Os.lift aura_cp.Os.need
    aura_cp.Os.perform aura_cp.Os.on_error aura_cp.Os.or_try aura_cp.Os.relabel aura_cp.Os.noted
    preflight Validate.site_type Validate.domain aura_cp.Regex.match_string Validate.username
    aura_cp.Site.Pools.installed aura_cp.Os.each aura_cp.Site.Users.create
    aura_cp.Site.Users.ensure_sftp_group aura_cp.Os.attempt pure aura_cp.Site.Steps.create_user
    aura_cp.Site.Steps.create_root_directory aura_cp.Site.Steps.create_logrotate_file
    aura_cp.Site.Steps.create_ssl_cert_files aura_cp.Site.Steps.create_index
    aura_cp.Site.Steps.create_index_html aura_cp.Site.Steps.create_nginx_vhost
    aura_cp.Site.Steps.swap_vhost aura_cp.Site.Steps.reload_nginx
    aura_cp.Site.Steps.reset_permissions aura_cp.Vhost.Template.load
    aura_cp.Vhost.Template.template_for aura_cp.Vhost.Template.render
    aura_cp.Vhost.Template.collapse_blanks aura_cp.Vhost.Template.collapse_from
    aura_cp.Prelude.Text.contains aura_cp.Prelude.Text.has_prefix aura_cp.Prelude.Text.replace_all
    aura_cp.Prelude.Text.replace_from aura_cp.Vhost.Template.process
    aura_cp.Vhost.Template.strip_from aura_cp.Vhost.Template.placeholder
    aura_cp.Vhost.Template.rest_of_placeholder aura_cp.Vhost.Processors.server_name
    aura_cp.Vhost.Processors.root aura_cp.Vhost.Processors.ssl_certificate
    aura_cp.Vhost.Processors.ssl_certificate_key aura_cp.Vhost.Processors.nginx_access_log
    aura_cp.Vhost.Processors.nginx_error_log aura_cp.Vhost.Processors.settings
    aura_cp.Site.Spec.render_context aura_cp.Paths.doc_root aura_cp.Filepath.join_path
run_create-ok_example =
    run_create-ok deps static_spec start (run_create deps static_spec start).1 refl

abbrev pool_dir : Bytes
pool_dir = codes "/etc/php/8.4/fpm/pool.d"

abbrev info_if : Bool → Bool → Bool → Option Info
info_if true conf there = some folder
info_if false true true = some text_file
info_if false true false = none
info_if false false there = none

abbrev removed : Call → (Bytes → Bool) → Bytes → Bool
removed (remove q) w p = if p == q then false else w p
removed c w p = w p

abbrev disk : Kernel (Bytes → Bool)
disk = record {
  act = λ c w. (true, removed c w);
  stat = λ p w. info_if (p == pool_dir) (has_suffix (codes ".conf") p) (w p);
  lstat = λ p w. none;
  read_dir = λ p w. none;
  read_file = λ p w. none;
  readlink = λ p w. none;
  eval_symlinks = λ p w. none;
  walk_tree = λ p w. [];
  output = λ argv w. [];
  knows_user = λ u w. true;
  random = λ w. 0;
  to_lower = λ s. s;
}

still_none : (a f b c : Bool) → info_if a f c ≡ none → info_if a f (if b then false else c) ≡ none
still_none true f b c h = absurd (ground (arith, h))
still_none false true true c h = refl
still_none false true false c h = h
still_none false false b c h = refl

gone :
    (v : Bytes)
    → Elem v supported_versions
    → (w : Bytes → Bool)
    → disk.stat (php_pool_file v example_com) (disk.act (remove (php_pool_file v example_com)) w).1
      ≡ none
unfolding php_pool_file aura_cp.Filepath.join_path has_suffix
gone v (inl e) w = rw (← e) refl
gone v (inr (inl e)) w = rw (← e) refl
gone v (inr (inr (inl e))) w = rw (← e) refl
gone v (inr (inr (inr m))) w = elim m [ ]

disk-Removes : Removes disk example_com alice
unfolding nginx_site_file installed aura_cp.Filepath.join_path aura_cp.Prelude.keep has_suffix
disk-Removes = record {
  gone_file = λ w. refl;
  gone_pool = gone;
  stays_gone = λ c step p left w h. still_there c p w h;
  same_versions = λ c step w. refl;
}
  where
    still_there :
        (c : Call) (p : Bytes) (w : Bytes → Bool)
        → disk.stat p w ≡ none
        → disk.stat p (disk.act c w).1 ≡ none
    still_there (remove q) p w h =
        still_none (p == pool_dir) (has_suffix (codes ".conf") p) (p == q) (w p) h
    still_there (mkdir_all a b) p w h = h
    still_there (mkdir a b) p w h = h
    still_there (create a) p w h = h
    still_there (open_trunc a b) p w h = h
    still_there (open_excl a b) p w h = h
    still_there (open_read a) p w h = h
    still_there (write a) p w h = h
    still_there (write_string a b) p w h = h
    still_there (close a) p w h = h
    still_there (remove_all a) p w h = h
    still_there (rename a b) p w h = h
    still_there (chmod a b) p w h = h
    still_there (chown a b) p w h = h
    still_there (zip_entry a b) p w h = h
    still_there (write_file a b c) p w h = h
    still_there (symlink a b) p w h = h
    still_there (run a) p w h = h

abbrev full_disk : State (Bytes → Bool)
full_disk = record { world = λ p. true; log = [] }

run_delete-free_example :
    let w = (run_delete disk true example_com alice full_disk).1.world in
    (exists (disk.stat (nginx_site_file example_com) w) ≡ false)
    × (check_pools disk (λ s. none) w example_com (installed disk w) ≡ ok tt)
run_delete-free_example = run_delete-free disk example_com alice disk-Removes (λ s. none) full_disk
