-- ===== src/Files/Edit.antt =====
-- The text editor: ReadText and WriteText.
pub mod Laws
pub mod Success
use aura_cp.Prelude.{
  ℕ, zero, suc, ◌^◌, Bool, true, false, List, [], ◌∷◌, ◌++◌, Option, none, some, Bytes, codes, any,
  length, ltb, ◌==◌, nat_eq, bytes_eq, if◌then◌else◌,
}
use aura_cp.Prelude.Text.{has_suffix, itoa}
use aura_cp.Errors.{too_large, binary_file, is_directory, is_docroot}
use aura_cp.Filepath.{slash, dir}
use aura_cp.Os.{
  open_read, open_excl, write_string, close, remove, rename, chmod, Info, Kernel, Exec, pure, lift,
  asks, need, guard, on_error, ◌>>=◌, ◌>>◌, perform, attempt,
}
use aura_cp.Files.Resolve.{resolve}
use aura_cp.Files.Manage.{perm_bits, chown_to_user}

abbrev pub edit_max_bytes : ℕ
edit_max_bytes = 2 ^ 20

-- `b[:n]` of a longer slice
unfoldable pub take_bytes : ℕ → Bytes → Bytes
take_bytes zero b = []
take_bytes (suc n) [] = []
take_bytes (suc n) (c ∷ b) = c ∷ take_bytes n b

-- os.CreateTemp(dir, prefix + "*"): the star becomes a random number. A name that is taken is drawn
-- again; the number is the one that was drawn last.
unfoldable pub temp_path : Bytes → Bytes → ℕ → Bytes
temp_path parent prefix random =
    (if has_suffix (slash ∷ []) parent then parent else parent ++ slash ∷ [])
    ++ (prefix ++ itoa random)

abbrev pub edit_prefix : Bytes
edit_prefix = codes ".auracp-edit-"

abbrev pub is_dir_info : Option Info → Bool
is_dir_info none = false
is_dir_info (some info) = info.is_dir

-- The mode of a file that exists, else 0644.
abbrev pub kept_mode : Option Info → ℕ
kept_mode none = 0o644
kept_mode (some info) = perm_bits info.mode

module _ {W : Type 0} (k : Kernel W) where
  unfoldable pub read_text : Bytes → Bytes → Bytes → Exec W Bytes
  unfolding take_bytes
  read_text user domain sub = do
    (root, target) ← lift (resolve user domain sub)
    found ← asks (k.stat target)
    info ← need found
    guard info.is_dir is_directory
    guard (ltb edit_max_bytes info.size) too_large
    perform k (open_read target)
    bytes ← asks (k.read_file target)
    content ← need bytes
    let sniff = if ltb 8192 (length content) then take_bytes 8192 content else content
    guard (any (λ c. c == 0) sniff) binary_file
    pure content

  -- Write to the temporary file, then rename it over the target.
  unfoldable pub replace_file : (tmp target content : Bytes) → ℕ → Bytes → Exec W (Unit {0})
  replace_file tmp target content mode user = do
    perform k (open_excl tmp 0o600)
    on_error (perform k (write_string tmp content))
        (attempt k (close tmp) >> attempt k (remove tmp))
    on_error (perform k (close tmp)) (attempt k (remove tmp))
    on_error (perform k (chmod tmp mode)) (attempt k (remove tmp))
    on_error (perform k (rename tmp target)) (attempt k (remove tmp))
    chown_to_user k target user

  unfoldable pub write_text : Bytes → Bytes → Bytes → Bytes → Exec W (Unit {0})
  write_text user domain sub content = do
    guard (ltb edit_max_bytes (length content)) too_large
    (root, target) ← lift (resolve user domain sub)
    guard (target == root) is_docroot
    found ← asks (k.stat target)
    guard (is_dir_info found) is_directory
    random ← asks k.random
    let tmp = temp_path (dir target) edit_prefix random
    replace_file tmp target content (kept_mode found) user
