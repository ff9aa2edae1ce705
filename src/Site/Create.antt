-- ===== src/Site/Create.antt =====
-- internal/site/creator/run.go and the Run methods: the pipeline of each site type.
use aura_cp.Prelude.{
  Bool, true, false, List, [], ◌∷◌, Option, none, some, Bytes, codes, ◌==◌, bytes_eq, if◌then◌else◌,
  ℤ, Result, ok, err,
}
use aura_cp.Errors.{Error, unknown_type, empty_response}
use aura_cp.Os.{Kernel, Exec, raise, lift, asks, each, ◌>>=◌, ◌>>◌}
use aura_cp.Site.Spec.{Spec, is_php, is_app}
use aura_cp.Site.Pools.{installed}
use aura_cp.Site.Steps.{
  create_user, create_root_directory, create_logrotate_file, create_ssl_cert_files,
  create_index_php, create_php_fpm_pool, create_nginx_vhost, reload_nginx, reset_permissions,
  create_index_html, allocate_port, create_systemd_unit,
}
use aura_cp.Site.Preflight.{Url, preflight}

-- Everything from outside the modelled code, and which managers are wired up.
pub record Deps (W : Type 0) : Type 0 where
  pub kernel : Kernel W
  pub has_php : Bool
  pub has_rt : Bool
  pub has_node : Bool
  pub parse_url : Bytes → Option Url
  pub bundled : Bytes → Option Bytes
  pub pool_text : Spec → W → Option Bytes
  pub bin_path : Bytes → Bytes
  pub pm2_path : Bytes → Bytes
  pub ensure_pm2 : Bytes → Exec W (Unit {0})
  pub max_port : W → Option (Option ℤ)
  -- the smoke probe's request: an error, or whether the body is empty
  pub probe : Bytes → W → Option Bool

abbrev pub versions_if : Bool → List Bytes → Option (List Bytes)
versions_if false vs = none
versions_if true vs = some vs

abbrev pub probe_result : Option Bool → Result Error (Unit {0})
probe_result none = err empty_response
probe_result (some true) = err empty_response
probe_result (some false) = ok tt

module _ {W : Type 0} (d : Deps W) where
  abbrev pub Step : Type 0
  Step = Exec W (Unit {0})

  abbrev pub k : Kernel W
  k = d.kernel

  -- what every pipeline begins with
  abbrev pub first_steps : Spec → List Step
  first_steps s =
      create_user k s
      ∷ create_root_directory k s
      ∷ create_logrotate_file k s
      ∷ create_ssl_cert_files k s
      ∷ []

  -- what every pipeline ends with
  abbrev pub last_steps : Spec → List Step
  last_steps s = create_nginx_vhost k d.bundled s ∷ reload_nginx k ∷ reset_permissions k s ∷ []

  unfoldable pub run_steps : List Step → Step
  run_steps steps = each (λ step. step) steps

  abbrev pub pool_step : Spec → Step
  pool_step s = asks (d.pool_text s) >>= λ text. create_php_fpm_pool k d.has_php text s

  unfoldable pub run_php : Spec → Step
  unfolding run_steps
  run_php s = do
    run_steps (first_steps s)
    create_index_php k s
    pool_step s
    run_steps (last_steps s)

  abbrev pub unit_step : Spec → Step
  unit_step s = create_systemd_unit k d.bin_path d.pm2_path d.ensure_pm2 d.has_rt d.has_node s

  -- The pipelines of Node.js and of Python sites have the same steps.
  unfoldable pub run_app : Spec → Step
  unfolding run_steps
  run_app s = do
    run_steps (first_steps s)
    s' ← allocate_port d.max_port s
    unit_step s'
    run_steps (last_steps s')

  unfoldable pub run_static : Spec → Step
  unfolding run_steps
  run_static s = do run_steps (first_steps s); create_index_html k s; run_steps (last_steps s)

  unfoldable pub run_reverse_proxy : Spec → Step
  unfolding run_steps
  run_reverse_proxy s = do run_steps (first_steps s); run_steps (last_steps s)

  unfoldable pub run_type : Spec → Step
  unfolding run_php run_app run_static run_reverse_proxy
  run_type s =
      if is_php s.site_type
      then run_php s
      else if is_app s.site_type
      then run_app s
      else if s.site_type == codes "static"
      then run_static s
      else if s.site_type == codes "reverseproxy"
      then run_reverse_proxy s
      else raise unknown_type

  abbrev pub smoke_probe : Bytes → Step
  smoke_probe domain = asks (d.probe domain) >>= λ r. lift (probe_result r)

  abbrev pub checked_by : Spec → W → Result Error (Unit {0})
  checked_by s w = preflight k d.parse_url w s (versions_if d.has_php (installed k w))

  unfoldable pub run_create : Spec → Step
  unfolding run_type
  run_create s = do checks ← asks (checked_by s); lift checks; run_type s; smoke_probe s.domain
