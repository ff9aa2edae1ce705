-- ===== src/Files/Upload/Laws.antt =====
-- Uploads stay inside the document root.
use aura_cp.Prelude.{List, [], ◌∷◌, Bytes, bytes_eq}
use aura_cp.Prelude.Text.{split}
use aura_cp.Filepath.{slash, clean, base}
use aura_cp.Filepath.Inside.{Inside-of_Below}
use aura_cp.Paths.Laws.{root_parts}
use aura_cp.Os.{mkdir_all, create, write, remove, Kernel}
use aura_cp.Os.Confined.{
  Confined, Confined-bind, Confined-bind_lift, Confined-guard, Confined-on_error, Confined-ignored,
  Confined-perform, Confined-attempt,
}
use aura_cp.Files.Resolve.{resolve}
use aura_cp.Files.Resolve.Laws.{resolve-IsResolved}
use aura_cp.Files.Manage.{bad_name}
use aura_cp.Files.Manage.Laws.{Contained, base-IsPart, resolved-child, chown_to_user-Confined}
use aura_cp.Files.Upload.{save, save_at, save_under, init_of, last_of}

module _ {W : Type 0} (k : Kernel W) (u d : Bytes) where
  -- Save makes directories at or below the document root, and files strictly below it.
  pub save-Confined : (sub file : Bytes) → Confined (Contained u d) (save k u d sub file)
  unfolding save
  save-Confined sub file =
      let b = base (clean file) in
      Confined-guard (bad_name b) _ _ λ good. Confined-bind_lift (resolve u d sub) _ λ p h.
        let r = resolve-IsResolved u d sub p.0 p.1 h in
        let below = resolved-child r b (base-IsPart (clean file) good) in
        Confined-bind _ _ (Confined-perform k (mkdir_all p.1 0o755) r.inside) λ _.
          Confined-guard _ _ _ λ _. Confined-bind _ _ (Confined-perform k (create _) below) λ _.
            Confined-bind _ _
              (Confined-on_error _ _ (Confined-perform k (write _) below)
                (Confined-attempt k (remove _) below))
              λ _. chown_to_user-Confined k u d _ (Inside-of_Below (root_parts u d) _ below)

  save_under-Confined :
      (base_dir : Bytes) (parts : List Bytes) (name : Bytes)
      → Confined (Contained u d) (save_under k u d base_dir parts name)
  unfolding save_under
  save_under-Confined base_dir [] name = save-Confined base_dir name
  save_under-Confined base_dir (q ∷ qs) name = Confined-bind_lift (resolve u d _) _ λ p h.
      let r = resolve-IsResolved u d _ p.0 p.1 h in
      Confined-bind _ _ (Confined-perform k (mkdir_all p.1 0o755) r.inside) λ _.
        Confined-bind _ _ (Confined-ignored _ (chown_to_user-Confined k u d p.1 r.inside))
          λ _. save-Confined _ name

  -- SaveAt makes directories at or below the document root, and files strictly below it.
  pub save_at-Confined :
      (base_dir rel : Bytes) → Confined (Contained u d) (save_at k u d base_dir rel)
  unfolding save_at
  save_at-Confined base_dir rel = Confined-guard _ _ _ λ _. Confined-guard _ _ _ λ _.
      Confined-guard _ _ _
        λ _. save_under-Confined base_dir (init_of (split slash rel)) (last_of (split slash rel))
