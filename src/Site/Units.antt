-- ===== src/Site/Units.antt =====
-- internal/runtime/runtime.go: the systemd units of Node.js and Python sites.
use aura_cp.Prelude.{
  suc, Bool, [], ◌∷◌, ◌++◌, Bytes, codes, ◌==◌, bytes_eq, if◌then◌else◌, Result, ok, err, ℤ, pos,
  negsuc,
}
use aura_cp.Prelude.Text.{itoa}
use aura_cp.Errors.{Error, no_backend}
use aura_cp.Validate
use aura_cp.Paths.{doc_root, site_home, unit_name, unit_file}
use aura_cp.Os.{remove, write_file, run, Kernel, Exec, pure, lift, perform, attempt, ◌>>=◌, ◌>>◌}
use aura_cp.Site.Users.{command}
use aura_cp.Site.Pools.{systemctl}
use aura_cp.Site.Spec.{is_php, is_app}

-- runtime.Spec, without the field that the code ignores
pub record UnitSpec : Type 0 where
  pub site_type : Bytes
  pub domain : Bytes
  pub user : Bytes
  pub port : ℤ
  pub start_file : Bytes
  pub entry : Bytes
  pub node_version : Bytes
  pub use_pm2 : Bool

abbrev pub decimal : ℤ → Bytes
decimal (pos n) = itoa n
decimal (negsuc n) = codes "-" ++ itoa (suc n)

abbrev pub or_else : Bytes → Bytes → Bytes
or_else given default = if given == [] then default else given

-- execStart; the places of node and of pm2-runtime for a version are parameters
unfoldable pub exec_start : (Bytes → Bytes) → (Bytes → Bytes) → UnitSpec → Result Error Bytes
exec_start bin_path pm2_path s =
    let root = doc_root s.user s.domain in
    let file = root ++ codes "/" ++ or_else s.start_file (codes "app.js") in
    if s.site_type == codes "nodejs"
    then if s.use_pm2
      then ok (pm2_path s.node_version ++ codes " --name " ++ s.domain ++ codes " " ++ file)
      else ok (bin_path s.node_version ++ codes " " ++ file)
    else if s.site_type == codes "python"
    then ok (
        codes "/usr/bin/gunicorn --chdir "
        ++ root
        ++ codes " --bind 127.0.0.1:"
        ++ decimal s.port
        ++ codes " "
        ++ or_else s.entry (codes "main:app"))
    else err no_backend

unfoldable pub unit_text : UnitSpec → Bytes → Bytes
unit_text s exec_line =
    codes "[Unit]\nDescription=auraCP site "
    ++ s.domain
    ++ codes " ("
    ++ s.site_type
    ++ codes ")\nAfter=network-online.target\n\n[Service]\nType=simple\nUser="
    ++ s.user
    ++ codes "\nGroup="
    ++ s.user
    ++ codes "\nWorkingDirectory="
    ++ doc_root s.user s.domain
    ++ codes "\nExecStart="
    ++ exec_line
    ++ codes
        "\nRestart=always\nRestartSec=3\nNoNewPrivileges=true\nProtectSystem=strict\nReadWritePaths="
    ++ site_home s.user
    ++ codes "\nPrivateTmp=true\n\n[Install]\nWantedBy=multi-user.target\n"

module _ {W : Type 0} (k : Kernel W) (bin_path pm2_path : Bytes → Bytes) where
  abbrev pub install : UnitSpec → Exec W (Unit {0})
  install s = do
    lift (Validate.username s.user)
    lift (Validate.domain s.domain)
    lift (Validate.port s.port)
    line ← lift (exec_start bin_path pm2_path s)
    perform k (write_file (unit_file s.domain) (unit_text s line) 0o644)
    command k (systemctl (codes "daemon-reload" ∷ []))
    command k (systemctl (codes "enable" ∷ codes "--now" ∷ unit_name s.domain ∷ []))

  -- Apply
  unfoldable pub apply_unit : UnitSpec → Exec W (Unit {0})
  apply_unit s =
      if is_php s.site_type
      then pure tt
      else if is_app s.site_type
      then install s
      else lift (err no_backend)

module _ {W : Type 0} (k : Kernel W) where
  -- Remove
  unfoldable pub remove_unit : Bytes → Exec W (Unit {0})
  remove_unit domain = do
    lift (Validate.domain domain)
    attempt k (run (systemctl (codes "disable" ∷ codes "--now" ∷ unit_name domain ∷ [])))
    attempt k (remove (unit_file domain))
    command k (systemctl (codes "daemon-reload" ∷ []))
