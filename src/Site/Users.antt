-- ===== src/Site/Users.antt =====
-- internal/osuser/osuser.go: the Linux users of sites.
use aura_cp.Prelude.{
  Bool, true, false, List, [], ◌∷◌, ◌++◌, Option, none, some, Bytes, codes, if◌then◌else◌,
}
use aura_cp.Validate
use aura_cp.Filepath.{join_path, dir}
use aura_cp.Paths.{site_home, doc_root, log_dir, sftp_group}
use aura_cp.Os.{
  mkdir_all, write_file, run, Kernel, Exec, pure, lift, asks, perform, attempt, each, ◌>>=◌, ◌>>◌,
}

abbrev pub exists : {A : Type 0} → Option A → Bool
exists none = false
exists (some a) = true

abbrev pub owner : Bytes → Bytes
owner user = user ++ codes ":" ++ user

abbrev pub sshd_file : Bytes
sshd_file = codes "/etc/ssh/sshd_config.d/auracp-sftp.conf"

abbrev pub em_dash : Bytes
em_dash = 0xe2 ∷ 0x80 ∷ 0x94 ∷ []

abbrev pub sshd_body : Bytes
sshd_body =
    codes "# auraCP "
    ++ em_dash
    ++ codes " chroot-jail SFTP-only users\nMatch Group "
    ++ sftp_group
    ++ codes
        "\n\tChrootDirectory %h\n\tForceCommand internal-sftp\n\tAllowTcpForwarding no\n\tX11Forwarding no\n"

module _ {W : Type 0} (k : Kernel W) where
  abbrev pub command : List Bytes → Exec W (Unit {0})
  command argv = perform k (run argv)

  unfoldable pub ensure_sftp_group : Exec W (Unit {0})
  ensure_sftp_group = do
    attempt k (run (codes "groupadd" ∷ codes "-f" ∷ sftp_group ∷ []))
    conf ← asks (k.stat sshd_file)
    if exists conf then pure tt else do
      perform k (mkdir_all (dir sshd_file) 0o755)
      perform k (write_file sshd_file sshd_body 0o644)
      attempt k (run (codes "systemctl" ∷ codes "reload" ∷ codes "ssh" ∷ []))

  unfoldable pub create : Bytes → Bytes → Exec W (Unit {0})
  unfolding ensure_sftp_group
  create user domain = do
    lift (Validate.username user)
    lift (Validate.domain domain)
    ensure_sftp_group
    command (
        codes "useradd"
        ∷ codes "--create-home"
        ∷ codes "--home-dir"
        ∷ site_home user
        ∷ codes "--shell"
        ∷ codes "/bin/bash"
        ∷ codes "--groups"
        ∷ sftp_group
        ∷ user
        ∷ [])
    each (λ d. command (codes "mkdir" ∷ codes "-p" ∷ d ∷ []))
        (doc_root user domain ∷ log_dir user ∷ [])
    command (codes "chown" ∷ codes "root:root" ∷ site_home user ∷ [])
    command (codes "chmod" ∷ codes "755" ∷ site_home user ∷ [])
    command (
        codes "chown"
        ∷ codes "-R"
        ∷ owner user
        ∷ join_path (site_home user ∷ codes "htdocs" ∷ [])
        ∷ log_dir user
        ∷ [])

  unfoldable pub delete : Bytes → Exec W (Unit {0})
  delete user = do
    lift (Validate.username user)
    attempt k (run (codes "pkill" ∷ codes "-9" ∷ codes "-u" ∷ user ∷ []))
    command (codes "userdel" ∷ codes "--remove" ∷ codes "--force" ∷ user ∷ [])

  unfoldable pub create_extra : Bytes → Bytes → Bool → Exec W (Unit {0})
  unfolding ensure_sftp_group
  create_extra username site_user ssh_allowed = do
    lift (Validate.username username)
    lift (Validate.username site_user)
    ensure_sftp_group
    command (
        codes "useradd"
        ∷ codes "-M"
        ∷ codes "--home-dir"
        ∷ site_home site_user
        ∷ codes "--gid"
        ∷ site_user
        ∷ codes "--groups"
        ∷ sftp_group
        ∷ codes "--shell"
        ∷ (if ssh_allowed then codes "/bin/bash" else codes "/usr/sbin/nologin")
        ∷ username
        ∷ [])

  unfoldable pub delete_extra : Bytes → Exec W (Unit {0})
  delete_extra username = do
    lift (Validate.username username)
    attempt k (run (codes "pkill" ∷ codes "-9" ∷ codes "-u" ∷ username ∷ []))
    command (codes "userdel" ∷ codes "--force" ∷ username ∷ [])

  -- It sets nothing.
  unfoldable pub set_password : Bytes → Bytes → Exec W (Unit {0})
  set_password user password = lift (Validate.username user)
