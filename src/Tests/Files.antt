-- ===== src/Tests/Files.antt =====
-- The file manager on a concrete site.
use aura_cp.Prelude.{
  ℕ, ◌+◌, ◌≤◌, ◌≡◌, refl, ◌≢◌, Bool, true, false, List, [], ◌∷◌, ◌++◌, Option, none, some, Bytes,
  codes, ok, All, keep, arith,
}
use mathlib.Core.List.{Perm}
use aura_cp.Prelude.Text.{split}
use aura_cp.Filepath.{slash, dot_dot, absolute}
use aura_cp.Os.{Info}
use aura_cp.Os.Confined.{Confined}
use aura_cp.Files.Resolve.{resolve}
use aura_cp.Files.Resolve.Laws.{IsResolved, resolve-IsResolved}
use aura_cp.Files.Manage.Laws.{Contained}
use aura_cp.Files.Operations.{
  operations, uploads, deletes, renames, changes_mode, operations-Confined,
}
use aura_cp.Files.Edit.{write_text}
use aura_cp.Files.Edit.Laws.{IsSwap, write_text-IsSwap}
use aura_cp.Files.Archive.{Reader, ZipItem, unzip, zip, zip_max_bytes}
use aura_cp.Files.Archive.Extract.{Extracts, unzip-Extracts}
use aura_cp.Files.Archive.Bound.{payload, visit_all-total}
use aura_cp.Files.Archive.Pack.{Packs, archive_of, zip-Packs}
use aura_cp.Files.Sort.{Entry, listed, by_name_ci}
use aura_cp.Files.Sort.Laws.{IsAscending}
use aura_cp.Files.Sort.Listing.{IsDir, IsFile, entries, listed_lem}
use aura_cp.Tests.Machine.{alice, example_com, machine, text_file, folder, start}

resolve-IsResolved_example :
    IsResolved alice example_com
      (codes "/home/alice/htdocs/example.com")
      (codes "/home/alice/htdocs/example.com/b")
unfolding resolve aura_cp.Validate.username aura_cp.Regex.match_string aura_cp.Validate.domain
    aura_cp.Filepath.clean aura_cp.Filepath.join_path aura_cp.Paths.doc_root
    aura_cp.Prelude.Text.has_prefix
resolve-IsResolved_example = resolve-IsResolved alice example_com (codes "a/../b") _ _ refl

operations-Confined_example : Confined (Contained alice example_com) (
    operations machine alice example_com (
      uploads (codes "a") (codes "x/y/b.txt")
      ∷ deletes (codes "../../..")
      ∷ renames (codes "a.txt") (codes "../b")
      ∷ changes_mode (codes "a.txt") 0o4755
      ∷ []))
operations-Confined_example = operations-Confined machine alice example_com (
    uploads (codes "a") (codes "x/y/b.txt")
    ∷ deletes (codes "../../..")
    ∷ renames (codes "a.txt") (codes "../b")
    ∷ changes_mode (codes "a.txt") 0o4755
    ∷ [])

write_text-IsSwap_example :
    Confined
      (IsSwap alice (codes "/home/alice/htdocs/example.com/a.txt") (codes "hi"))
      (write_text machine alice example_com (codes "a.txt") (codes "hi"))
unfolding resolve aura_cp.Validate.username aura_cp.Regex.match_string aura_cp.Validate.domain
    aura_cp.Filepath.clean aura_cp.Filepath.join_path aura_cp.Paths.doc_root
    aura_cp.Prelude.Text.has_prefix
write_text-IsSwap_example =
    write_text-IsSwap machine alice example_com (codes "a.txt") (codes "hi") _ _ refl

abbrev items : List (Bytes × Option Info)
items = (codes "b", some text_file) ∷ (codes "a", some folder) ∷ (codes "A", none) ∷ []

-- A walk over a folder, a file and the archive itself.
abbrev walk : List (Bytes × Option Info)
walk =
    (codes "/x", some folder)
    ∷ (codes "/x/f.txt", some text_file)
    ∷ (codes "/x/a.zip", some text_file)
    ∷ []

visit_all-total_example : (9 ≡ 6 + payload (codes "/x/a.zip") walk) × (9 ≤ zip_max_bytes)
unfolding aura_cp.Files.Archive.visit_all aura_cp.Os.◌>>=◌ aura_cp.Os.guard aura_cp.Os.perform
    aura_cp.Os.pure aura_cp.Filepath.join_path aura_cp.Prelude.Text.trim_prefix
visit_all-total_example =
    visit_all-total machine (codes "/x/a.zip") (codes "/x") (codes "x") walk 6 9 start _
      (omega arith) (omega arith, (omega arith, (omega arith, tt))) refl

listed_lem_example :
    (dirs files : List Entry) × (listed machine items ≡ dirs ++ files)
    × All IsDir dirs
    × All IsFile files
    × IsAscending (by_name_ci machine) dirs
    × IsAscending (by_name_ci machine) files
    × Perm (dirs ++ files) (entries items)
listed_lem_example = listed_lem machine items

abbrev zip_reader : Reader ℕ
zip_reader = record {
  zip_items = λ p w. some (
      record { name = codes "../../etc/cron.d/x"; is_dir = false; mode = 0o644; opens = true }
      ∷ []);
  is_gzip = λ p w. false;
  tar_items = λ p b w. [];
}

unzip-Extracts_example :
    Confined
      (Extracts alice example_com)
      (unzip machine zip_reader alice example_com (codes "a.zip"))
unzip-Extracts_example = unzip-Extracts machine zip_reader alice example_com (codes "a.zip")

zip-Packs_example :
    Confined
      (Packs alice example_com (archive_of machine alice example_com (codes "all")))
      (zip machine alice example_com (codes "a" ∷ codes "b/c" ∷ []) (codes "all"))
zip-Packs_example = zip-Packs machine alice example_com (codes "a" ∷ codes "b/c" ∷ []) (codes "all")
