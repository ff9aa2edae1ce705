-- ===== src/Files/Sort/Listing.antt =====
-- What List returns.
use mathlib.Core.List.{Perm, append_assoc, append-nil, perm_middle}
use mathlib.Core.List.Perm
use aura_cp.Prelude.{
  ◌≡◌, refl, Bool, true, false, List, [], ◌∷◌, ◌++◌, Option, none, some, Bytes, All, All-append,
  subst,
}
use aura_cp.Os.{Info, Kernel}
use aura_cp.Files.Sort.{Entry, entry_of, added, collect, by_name_ci, sort_entries, listed}
use aura_cp.Files.Sort.Laws.{
  IsAscending, by_name_ci-IsOrder, sort_entries-IsAscending, sort_entries-perm, sort_entries-All,
}

-- The entries that can be read, in the order of the directory.
abbrev pub entries : List (Bytes × Option Info) → List Entry
entries [] = []
entries ((name, none) ∷ des) = entries des
entries ((name, some info) ∷ des) = entry_of name info ∷ entries des

abbrev pub IsDir : Entry → Type 0
IsDir e = e.dir ≡ true

abbrev pub IsFile : Entry → Type 0
IsFile e = e.dir ≡ false

abbrev AreKinds : List Entry × List Entry → Type 0
AreKinds (dirs, files) = All IsDir dirs × All IsFile files

added-kinds :
    (b : Bool) (e : Entry) (g : List Entry × List Entry)
    → e.dir ≡ b
    → AreKinds g
    → AreKinds (added b e g)
added-kinds true e (dirs, files) d (hd, hf) = (All-append IsDir dirs (e ∷ []) hd (d, tt), hf)
added-kinds false e (dirs, files) f (hd, hf) = (hd, All-append IsFile files (e ∷ []) hf (f, tt))

collect-kinds :
    (g : List Entry × List Entry) (des : List (Bytes × Option Info))
    → AreKinds g
    → AreKinds (collect g des)
unfolding collect
collect-kinds g [] h = h
collect-kinds g ((name, none) ∷ des) h = collect-kinds g des h
collect-kinds g ((name, some info) ∷ des) h =
    collect-kinds (added info.is_dir (entry_of name info) g) des
      (added-kinds info.is_dir (entry_of name info) g refl h)

abbrev joined : List Entry × List Entry → List Entry
joined (dirs, files) = dirs ++ files

added-perm :
    (b : Bool) (e : Entry) (g : List Entry × List Entry)
    → Perm (joined (added b e g)) (e ∷ joined g)
added-perm true e (dirs, files) = rw (append_assoc dirs (e ∷ []) files) (perm_middle dirs files)
added-perm false e (dirs, files) = rw (← append_assoc dirs files (e ∷ [])) (
    subst (λ k. Perm ((dirs ++ files) ++ e ∷ []) (e ∷ k)) (append-nil (dirs ++ files))
      (perm_middle (dirs ++ files) []))

collect-perm :
    (g : List Entry × List Entry) (des : List (Bytes × Option Info))
    → Perm (joined (collect g des)) (entries des ++ joined g)
unfolding collect
collect-perm g [] = Perm.refl (joined g)
collect-perm g ((name, none) ∷ des) = collect-perm g des
collect-perm g ((name, some info) ∷ des) =
    let e = entry_of name info in
    Perm.trans (collect-perm (added info.is_dir e g) des) (
      Perm.trans (Perm.append (Perm.refl (entries des)) (added-perm info.is_dir e g))
        (perm_middle (entries des) (joined g)))

-- A listing is the folders and then the files, each in alphabetical order without regard to case,
-- and holds every entry that can be read exactly as often as the directory does.
pub listed_lem :
    {W : Type 0} (k : Kernel W) (des : List (Bytes × Option Info))
    → (dirs files : List Entry) × (listed k des ≡ dirs ++ files)
      × All IsDir dirs
      × All IsFile files
      × IsAscending (by_name_ci k) dirs
      × IsAscending (by_name_ci k) files
      × Perm (dirs ++ files) (entries des)
unfolding listed
listed_lem k des =
    let groups = collect ([], []) des in
    let (are_dirs, are_files) = collect-kinds ([], []) des (tt, tt) in
    let o = by_name_ci-IsOrder k in
    (
      sort_entries (by_name_ci k) groups.0,
      sort_entries (by_name_ci k) groups.1,
      refl,
      sort_entries-All (by_name_ci k) o IsDir groups.0 are_dirs,
      sort_entries-All (by_name_ci k) o IsFile groups.1 are_files,
      sort_entries-IsAscending (by_name_ci k) o groups.0,
      sort_entries-IsAscending (by_name_ci k) o groups.1,
      Perm.trans
          (Perm.append (sort_entries-perm (by_name_ci k) groups.0)
            (sort_entries-perm (by_name_ci k) groups.1))
          (subst (Perm (joined groups)) (append-nil (entries des)) (collect-perm ([], []) des)),
    )
