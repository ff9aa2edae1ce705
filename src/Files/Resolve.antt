-- ===== src/Files/Resolve.antt =====
-- The path that a request names, held inside the site's document root.
pub mod Laws
use aura_cp.Prelude.{
  ℕ, Bool, true, false, ◌&&◌, not, List, [], ◌∷◌, ◌++◌, Bytes, ◌==◌, bytes_eq, Result, ok, err,
  fail_if, ◌>>=◌, ◌>>◌,
}
use aura_cp.Prelude.Text.{has_prefix}
use aura_cp.Errors.{Error, path_escapes_root}
use aura_cp.Filepath.{slash, clean, join_path}
use aura_cp.Validate
use aura_cp.Paths.{doc_root}

-- Neither the directory nor a path that begins with it and a separator.
unfoldable pub escapes : Bytes → Bytes → Bool
escapes root target = not (target == root) && not (has_prefix (root ++ slash ∷ []) target)

-- The root and the target.
unfoldable pub resolve : Bytes → Bytes → Bytes → Result Error (Bytes × Bytes)
unfolding escapes
resolve user domain sub = do
  Validate.username user
  Validate.domain domain
  let root = doc_root user domain
  let target = clean (join_path (root ∷ sub ∷ []))
  fail_if (escapes root target) path_escapes_root
  ok (root, target)
