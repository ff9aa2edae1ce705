-- ===== src/Files/Manage.antt =====
-- Names, ownership, and the operations on what is there: Open, Delete, Rename, Mkdir, Touch, Chmod.
pub mod Laws
use aura_cp.Prelude.{
  ℕ, ◌%◌, Bool, true, false, ◌||◌, not, List, [], ◌∷◌, ◌++◌, Option, none, some, Bytes, codes, any,
  ◌==◌, nat_eq, bytes_eq, if◌then◌else◌,
}
use aura_cp.Prelude.Text.{has_prefix}
use aura_cp.Errors.{
  Error, invalid_filename, invalid_target, is_directory, is_docroot, already_exists, os_error,
}
use aura_cp.Filepath.{slash, dot, dot_dot, clean, join_path, base, dir}
use aura_cp.Os.{
  Call, mkdir_all, mkdir, create, open_excl, open_read, write, remove, remove_all, rename, chmod,
  chown, Info, Kernel, Exec, pure, raise, lift, asks, need, guard, ◌>>=◌, ◌>>◌, perform,
}
use aura_cp.Files.Resolve.{resolve}

-- `clean == "" || clean == "." || clean == ".." || clean == "/"`
abbrev pub bad_name : Bytes → Bool
bad_name name = name == [] || name == dot || name == dot_dot || name == slash ∷ []

-- and `strings.ContainsAny(clean, "/\\")` beside it
abbrev pub bad_basename : Bytes → Bool
bad_basename name = bad_name name || any (λ b. b == slash || b == 92) name

abbrev pub is_some : {A : Type 0} → Option A → Bool
is_some none = false
is_some (some a) = true

-- the file mode bits of an octal permission
abbrev pub perm_bits : ℕ → ℕ
perm_bits mode = mode % 0o1000

module _ {W : Type 0} (k : Kernel W) where
  -- A user that cannot be looked up is no error.
  unfoldable pub chown_to_user : Bytes → Bytes → Exec W (Unit {0})
  chown_to_user path user = do
    known ← asks (k.knows_user user)
    if known then perform k (chown path user) else pure tt

  unfoldable pub open_file : Bytes → Bytes → Bytes → Exec W Info
  open_file user domain sub = do
    (root, target) ← lift (resolve user domain sub)
    perform k (open_read target)
    found ← asks (k.stat target)
    info ← need found
    guard info.is_dir is_directory
    pure info

  unfoldable pub delete : Bytes → Bytes → Bytes → Exec W (Unit {0})
  delete user domain sub = do
    (root, target) ← lift (resolve user domain sub)
    guard (target == root) is_docroot
    perform k (remove_all target)

  unfoldable pub rename_to : Bytes → Bytes → Bytes → Bytes → Exec W (Unit {0})
  rename_to user domain sub new_name = do
    let name = base (clean new_name)
    guard (bad_basename name) invalid_filename
    (root, target) ← lift (resolve user domain sub)
    guard (target == root) is_docroot
    let dst = join_path (dir target ∷ name ∷ [])
    guard (not (has_prefix root (clean dst))) invalid_target
    there ← asks (k.lstat dst)
    guard (is_some there) already_exists
    perform k (rename target dst)

  unfoldable pub make_dir : Bytes → Bytes → Bytes → Bytes → Exec W (Unit {0})
  unfolding chown_to_user
  make_dir user domain sub folder = do
    let name = base (clean folder)
    guard (bad_basename name) invalid_filename
    (root, parent) ← lift (resolve user domain sub)
    let target = join_path (parent ∷ name ∷ [])
    guard (not (has_prefix (clean parent ++ slash ∷ []) (clean target))) invalid_target
    perform k (mkdir target 0o755)
    chown_to_user target user

  unfoldable pub touch : Bytes → Bytes → Bytes → Bytes → Exec W (Unit {0})
  unfolding chown_to_user
  touch user domain sub file = do
    let name = base (clean file)
    guard (bad_basename name) invalid_filename
    (root, parent) ← lift (resolve user domain sub)
    let target = join_path (parent ∷ name ∷ [])
    guard (not (has_prefix (clean parent ++ slash ∷ []) (clean target))) invalid_target
    perform k (open_excl target 0o644)
    chown_to_user target user

  unfoldable pub change_mode : Bytes → Bytes → Bytes → ℕ → Exec W (Unit {0})
  change_mode user domain sub mode = do
    (root, target) ← lift (resolve user domain sub)
    guard (target == root) is_docroot
    perform k (chmod target (perm_bits mode))
