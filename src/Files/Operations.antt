-- ===== src/Files/Operations.antt =====
-- internal/files/files.go: what a user does to the files of a site, in any order.
use aura_cp.Prelude.{ℕ, List, Bytes}
use aura_cp.Os.{Kernel, Exec, pure, ignored, each, ◌>>◌}
use aura_cp.Os.Confined.{Confined, Confined-pure, Confined-bind, Confined-ignored, Confined-each}
use aura_cp.Files.Manage.{open_file, delete, rename_to, make_dir, touch, change_mode}
use aura_cp.Files.Manage.Laws.{
  Contained, open_file-Confined, delete-Confined, rename_to-Confined, make_dir-Confined,
  touch-Confined, change_mode-Confined,
}
use aura_cp.Files.Upload.{save, save_at}
use aura_cp.Files.Upload.Laws.{save-Confined, save_at-Confined}
use aura_cp.Files.Edit.{read_text, write_text}
use aura_cp.Files.Edit.Laws.{read_text-Confined, write_text-Confined}

pub data Operation : Type 0 where
  opens : (path : Bytes) → Operation
  reads : (path : Bytes) → Operation
  writes : (path content : Bytes) → Operation
  saves : (path name : Bytes) → Operation
  uploads : (dir path : Bytes) → Operation
  deletes : (path : Bytes) → Operation
  renames : (path name : Bytes) → Operation
  makes_dir : (path name : Bytes) → Operation
  touches : (path name : Bytes) → Operation
  changes_mode : (path : Bytes) (mode : ℕ) → Operation

module _ {W : Type 0} (k : Kernel W) (user domain : Bytes) where
  unfoldable pub operate : Operation → Exec W (Unit {0})
  operate (opens path) = open_file k user domain path >> pure tt
  operate (reads path) = read_text k user domain path >> pure tt
  operate (writes path content) = write_text k user domain path content
  operate (saves path name) = save k user domain path name
  operate (uploads dir path) = save_at k user domain dir path
  operate (deletes path) = delete k user domain path
  operate (renames path name) = rename_to k user domain path name
  operate (makes_dir path name) = make_dir k user domain path name
  operate (touches path name) = touch k user domain path name
  operate (changes_mode path mode) = change_mode k user domain path mode

  abbrev pub operations : List Operation → Exec W (Unit {0})
  operations = each (λ o. ignored (operate o))

  operate-Confined : (o : Operation) → Confined (Contained user domain) (operate o)
  unfolding operate
  operate-Confined (opens path) =
      Confined-bind _ _ (open_file-Confined k user domain path) λ x. Confined-pure tt
  operate-Confined (reads path) =
      Confined-bind _ _ (read_text-Confined k user domain path) λ x. Confined-pure tt
  operate-Confined (writes path content) = write_text-Confined k user domain path content
  operate-Confined (saves path name) = save-Confined k user domain path name
  operate-Confined (uploads dir path) = save_at-Confined k user domain dir path
  operate-Confined (deletes path) = delete-Confined k user domain path
  operate-Confined (renames path name) = rename_to-Confined k user domain path name
  operate-Confined (makes_dir path name) = make_dir-Confined k user domain path name
  operate-Confined (touches path name) = touch-Confined k user domain path name
  operate-Confined (changes_mode path mode) = change_mode-Confined k user domain path mode

  -- Whatever a user asks of the file manager short of archives, in any order and however each request ends,
  -- every call stays in the document root of the user's site: it opens, makes parents or gives to the user at
  -- or below the root, and creates, writes, moves, removes and changes modes strictly below it.
  pub operations-Confined : (os : List Operation) → Confined (Contained user domain) (operations os)
  operations-Confined os =
      Confined-each _ (λ o. Confined-ignored (operate o) (operate-Confined o)) os
