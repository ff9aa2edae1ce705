-- ===== src/Files/Upload.antt =====
-- Uploads: Save and SaveAt.
pub mod Laws
use aura_cp.Prelude.{
  ℕ, Bool, true, false, ◌||◌, not, List, [], ◌∷◌, ◌++◌, Bytes, codes, any, ◌==◌, bytes_eq,
  if◌then◌else◌,
}
use aura_cp.Prelude.Text.{has_prefix, contains, split, join}
use aura_cp.Errors.{
  empty_path, invalid_relative_path, invalid_component, invalid_filename, invalid_target,
}
use aura_cp.Filepath.{slash, dot, dot_dot, clean, join_path, base}
use aura_cp.Os.{
  mkdir_all, create, write, remove, Kernel, Exec, lift, guard, on_error, ignored, ◌>>=◌, ◌>>◌,
  perform, attempt,
}
use aura_cp.Files.Resolve.{resolve}
use aura_cp.Files.Manage.{bad_name, chown_to_user}

abbrev pub bad_component : Bytes → Bool
bad_component p = p == [] || p == dot || p == dot_dot

-- `parts[len(parts)-1]` and `parts[:len(parts)-1]`
abbrev pub last_of : List Bytes → Bytes
last_of [] = []
last_of (w ∷ []) = w
last_of (w ∷ v ∷ ws) = last_of (v ∷ ws)

abbrev pub init_of : List Bytes → List Bytes
init_of [] = []
init_of (w ∷ []) = []
init_of (w ∷ v ∷ ws) = w ∷ init_of (v ∷ ws)

module _ {W : Type 0} (k : Kernel W) where
  unfoldable pub save : Bytes → Bytes → Bytes → Bytes → Exec W (Unit {0})
  save user domain sub file = do
    let name = base (clean file)
    guard (bad_name name) invalid_filename
    (root, parent) ← lift (resolve user domain sub)
    perform k (mkdir_all parent 0o755)
    let target = join_path (parent ∷ name ∷ [])
    guard (not (has_prefix (clean parent ++ slash ∷ []) (clean target))) invalid_target
    perform k (create target)
    on_error (perform k (write target)) (attempt k (remove target))
    chown_to_user k target user

  -- The directory of the file is `base_dir` and the leading components of the path.
  abbrev full_sub : Bytes → List Bytes → Bytes
  full_sub [] sub_parts = join slash sub_parts
  full_sub (c ∷ base_dir) sub_parts = (c ∷ base_dir) ++ slash ∷ join slash sub_parts

  save_under : Bytes → Bytes → Bytes → List Bytes → Bytes → Exec W (Unit {0})
  save_under user domain base_dir [] name = save user domain base_dir name
  save_under user domain base_dir (p ∷ ps) name = do
    let full = full_sub base_dir (p ∷ ps)
    (root, parent) ← lift (resolve user domain full)
    perform k (mkdir_all parent 0o755)
    ignored (chown_to_user k parent user)
    save user domain full name

  -- filepath.ToSlash changes nothing on Unix.
  unfoldable pub save_at : Bytes → Bytes → Bytes → Bytes → Exec W (Unit {0})
  unfolding save_under
  save_at user domain base_dir rel_path = do
    guard (rel_path == []) empty_path
    guard (has_prefix (slash ∷ []) rel_path || contains (codes "\\") rel_path) invalid_relative_path
    let parts = split slash rel_path
    guard (any bad_component parts) invalid_component
    save_under user domain base_dir (init_of parts) (last_of parts)
