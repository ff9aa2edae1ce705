-- ===== src/Node.antt =====
-- internal/noderuntime/noderuntime.go: Node.js versions, on disk and in the database.
--
-- runtime.GOARCH is a parameter.
pub mod Laws
use aura_cp.Prelude.{
  Bool, true, false, ◌&&◌, ◌||◌, not, List, [], ◌∷◌, ◌++◌, Option, none, some, Bytes, codes, ◌==◌,
  bytes_eq, if◌then◌else◌,
}
use aura_cp.Errors.{
  node_version_invalid, node_unknown, node_in_use, node_download_failed, node_extract_failed,
}
use aura_cp.Regex.{Regex, class, seq, byte, up_to, match_string}
use aura_cp.Validate.{digit}
use aura_cp.Filepath.{join_path, base}
use aura_cp.Os.{
  Info, mkdir_all, remove, remove_all, symlink, run, Kernel, Exec, pure, asks, guard, perform,
  attempt, relabel, each, ignored, ◌>>=◌, ◌>>◌,
}
use aura_cp.Store.{NodeRuntime}
use aura_cp.Store.Nodes.{
  node_runtimes, default_node_runtime, node_runtime, add_node_runtime, set_default_node_runtime,
  delete_node_runtime, site_uses_node_version,
}
use aura_cp.Host.{Host, on_machine, query, commit, try_commit}
use aura_cp.Site.Users.{exists, command}

abbrev pub base_dir : Bytes
base_dir = codes "/opt/auracp/node"

-- Dir
abbrev pub node_dir : Bytes → Bytes
node_dir version = join_path (base_dir ∷ version ∷ [])

abbrev pub default_dir : Bytes
default_dir = join_path (base_dir ∷ codes "default" ∷ [])

abbrev pub dir_of : Bytes → Bytes
dir_of version =
    if version == [] || version == codes "default" then default_dir else node_dir version

-- BinPath and PM2Path
unfoldable pub bin_path : Bytes → Bytes
bin_path version = join_path (dir_of version ∷ codes "bin" ∷ codes "node" ∷ [])

unfoldable pub pm2_path : Bytes → Bytes
pm2_path version = join_path (dir_of version ∷ codes "bin" ∷ codes "pm2-runtime" ∷ [])

-- `[0-9]{1,3}`
pub short_number : Regex
short_number = seq (class (digit ∷ [])) (up_to 2 (class (digit ∷ [])))

pub version_re : Regex
unfolding short_number
version_re = seq short_number (seq (byte b'.') (seq short_number (seq (byte b'.') short_number)))

unfoldable pub is_version : Bytes → Bool
unfolding version_re
is_version v = match_string version_re v

module _ {W : Type 0} (k : Kernel W) (is_arm : Bool) where
  abbrev pub arch : Bytes
  arch = if is_arm then codes "arm64" else codes "x64"

  abbrev pub archive_name : Bytes → Bytes
  archive_name version = codes "node-v" ++ version ++ codes "-linux-" ++ arch ++ codes ".tar.xz"

  abbrev pub tarball : Bytes → Bytes
  tarball version = codes "/tmp/" ++ archive_name version

  abbrev pub url : Bytes → Bytes
  url version = codes "https://nodejs.org/dist/v" ++ version ++ codes "/" ++ archive_name version

  abbrev pub curl : Bytes → List Bytes
  curl version = codes "curl" ∷ codes "-fsSL" ∷ url version ∷ codes "-o" ∷ tarball version ∷ []

  abbrev pub tar : Bytes → List Bytes
  tar version =
      codes "tar"
      ∷ codes "-xJf"
      ∷ tarball version
      ∷ codes "-C"
      ∷ node_dir version
      ∷ codes "--strip-components=1"
      ∷ []

  abbrev pub rm : Bytes → List Bytes
  rm version = codes "rm" ∷ codes "-f" ∷ tarball version ∷ []

  unfoldable pub fetch : Bytes → Exec W (Unit {0})
  fetch version = do
    perform k (mkdir_all (node_dir version) 0o755)
    relabel node_download_failed (command k (curl version))
    relabel node_extract_failed (command k (tar version))
    attempt k (run (rm version))

  unfoldable pub fetch_missing : Bytes → Exec W (Unit {0})
  unfolding fetch
  fetch_missing version = do
    there ← asks (k.stat (join_path (node_dir version ∷ codes "bin" ∷ codes "node" ∷ [])))
    if exists there then pure tt else fetch version

  abbrev pub link_default : Bytes → Exec W (Unit {0})
  link_default target = do attempt k (remove default_dir); perform k (symlink target default_dir)

  unfoldable pub set_default : Bytes → Exec (Host W) (Unit {0})
  set_default version = do
    known ← query (node_runtime version)
    guard (not (exists known)) node_unknown
    commit (set_default_node_runtime version)
    on_machine (link_default (node_dir version))

  abbrev pub on_disk : Bytes → NodeRuntime
  on_disk version = record { version = version; path = node_dir version; is_default = false }

  unfoldable pub record_missing : Bytes → Exec (Host W) (Unit {0})
  record_missing version = do
    known ← query (node_runtime version)
    if exists known then pure tt else try_commit (add_node_runtime (on_disk version))

  unfoldable pub install : (version : Bytes) (make_default : Bool) → Exec (Host W) (Unit {0})
  unfolding fetch_missing record_missing set_default
  install version make_default = do
    guard (not (is_version version)) node_version_invalid
    on_machine (fetch_missing version)
    record_missing version
    default ← query default_node_runtime
    if make_default || not (exists default) then set_default version else pure tt

  -- Remove, which does not test the version
  unfoldable pub remove_version : (version : Bytes) → Exec (Host W) (Unit {0})
  remove_version version = do
    used ← query (site_uses_node_version version)
    guard used node_in_use
    on_machine (attempt k (remove_all (node_dir version)))
    commit (delete_node_runtime version)

  unfoldable pub ensure_pm2 : (version : Bytes) → Exec W (Unit {0})
  ensure_pm2 version = do
    there ← asks (k.stat (join_path (dir_of version ∷ codes "bin" ∷ codes "node" ∷ [])))
    guard (not (exists there)) node_unknown
    command k (
        join_path (dir_of version ∷ codes "bin" ∷ codes "npm" ∷ [])
        ∷ codes "install"
        ∷ codes "-g"
        ∷ codes "--silent"
        ∷ codes "pm2"
        ∷ [])

  -- an entry of the directory; e.IsDir is false where Info fails, as it is for no directory
  abbrev pub is_dir : Option Info → Bool
  is_dir none = false
  is_dir (some i) = i.is_dir

  abbrev pub adopts : Bytes × Option Info → Bool
  adopts (name, info) = is_dir info && not (name == codes "default") && is_version name

  abbrev pub adopt_if : Bool → Bytes → Exec (Host W) (Unit {0})
  adopt_if true name = ignored (record_missing name)
  adopt_if false name = pure tt

  unfoldable pub adopt : Bytes × Option Info → Exec (Host W) (Unit {0})
  unfolding record_missing is_version
  adopt (name, info) = do
    there ← on_machine (asks (k.stat (join_path (node_dir name ∷ codes "bin" ∷ codes "node" ∷ []))))
    adopt_if (adopts (name, info) && exists there) name

  abbrev pub listed : Option (List (Bytes × Option Info)) → List (Bytes × Option Info)
  listed none = []
  listed (some es) = es

  abbrev pub adopt_link : Option Bytes → Exec (Host W) (Unit {0})
  adopt_link none = pure tt
  adopt_link (some target) = do
    known ← query (node_runtime (base target))
    if exists known then commit (set_default_node_runtime (base target)) else pure tt

  abbrev pub adopt_newest : List NodeRuntime → Exec (Host W) (Unit {0})
  adopt_newest [] = pure tt
  adopt_newest (n ∷ ns) = commit (set_default_node_runtime n.version)

  abbrev pub choose_newest : Exec (Host W) (Unit {0})
  choose_newest = do
    default ← query default_node_runtime
    if exists default then pure tt else (query node_runtimes >>= adopt_newest)

  abbrev pub choose_default : Exec (Host W) (Unit {0})
  choose_default = do
    default ← query default_node_runtime
    if exists default then pure tt else do
      target ← on_machine (asks (k.readlink default_dir))
      adopt_link target
      choose_newest

  abbrev pub relink : Option NodeRuntime → Exec W (Unit {0})
  relink none = pure tt
  relink (some n) = attempt k (remove default_dir) >> attempt k (symlink n.path default_dir)

  unfoldable pub reconcile : Exec (Host W) (Unit {0})
  unfolding adopt
  reconcile = do
    es ← on_machine (asks (k.read_dir base_dir))
    each adopt (listed es)
    choose_default
    default ← query default_node_runtime
    on_machine (relink default)
