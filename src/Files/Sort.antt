-- ===== src/Files/Sort.antt =====
-- List and its ordering: folders first, then files, each in alphabetical order without regard to
-- case.
pub mod Laws
pub mod Listing
use aura_cp.Prelude.{
  ℕ, zero, suc, Bool, true, false, List, [], ◌∷◌, ◌++◌, Option, none, some, Bytes, ltb,
  if◌then◌else◌, Result, ok, err, ◌==◌, bytes_eq, ℤ, pos, negsuc, ltz,
}
use aura_cp.Prelude.Text.{has_prefix}
use aura_cp.Errors.{Error, path_escapes_root}
use aura_cp.Os.{Info, Kernel, Exec, pure, lift, asks, need, guard, ◌>>=◌, ◌>>◌}
use aura_cp.Files.Resolve.{escapes, resolve}

pub record Entry : Type 0 where
  pub name : Bytes
  pub dir : Bool
  pub size : ℕ
  pub mode : ℕ

-- strings.Compare: -1, 0 or 1
unfoldable pub compare_bytes : Bytes → Bytes → ℤ
compare_bytes [] [] = pos 0
compare_bytes [] (d ∷ t) = negsuc 0
compare_bytes (c ∷ s) [] = pos 1
compare_bytes (c ∷ s) (d ∷ t) =
    let rest = compare_bytes s t in if ltb c d then negsuc 0 else if ltb d c then pos 1 else rest

module _ {A : Type 0} (less : A → A → ℤ) where
  -- The inner loop: the new element moves down past those that compare greater. The part that is
  -- in order is kept with its last element at the head, as the loop meets it.
  sink : A → List A → List A
  sink x [] = x ∷ []
  sink x (y ∷ sorted) =
      let below = sink x sorted in if ltz (pos 0) (less y x) then y ∷ below else x ∷ y ∷ sorted

  sort_onto : List A → List A → List A
  sort_onto sorted [] = sorted
  sort_onto sorted (x ∷ xs) = sort_onto (sink x sorted) xs

  unroll : List A → List A → List A
  unroll [] out = out
  unroll (x ∷ sorted) out = unroll sorted (x ∷ out)

  -- sortEntries
  unfoldable pub sort_entries : List A → List A
  unfolding sort_onto sink unroll
  sort_entries xs = unroll (sort_onto [] xs) []

-- The loop over the directory; an entry whose Info fails is left out.
-- `if e.Dir { dirs = append(dirs, e) } else { files = append(files, e) }`
abbrev pub added : Bool → Entry → List Entry × List Entry → List Entry × List Entry
added true e (dirs, files) = (dirs ++ e ∷ [], files)
added false e (dirs, files) = (dirs, files ++ e ∷ [])

abbrev pub entry_of : Bytes → Info → Entry
entry_of name info = record { name = name; dir = info.is_dir; size = info.size; mode = info.mode }

collect : List Entry × List Entry → List (Bytes × Option Info) → List Entry × List Entry
collect groups [] = groups
collect groups ((name, none) ∷ des) = collect groups des
collect groups ((name, some info) ∷ des) =
    collect (added info.is_dir (entry_of name info) groups) des

escapes_resolved : Bytes → Option Bytes → Bool
escapes_resolved root none = false
escapes_resolved root (some resolved) = escapes root resolved

module _ {W : Type 0} (k : Kernel W) where
  abbrev pub by_name_ci : Entry → Entry → ℤ
  by_name_ci a b = compare_bytes (k.to_lower a.name) (k.to_lower b.name)

  pub listed : List (Bytes × Option Info) → List Entry
  unfolding collect
  listed des =
      let (dirs, files) = collect ([], []) des in
      sort_entries by_name_ci dirs ++ sort_entries by_name_ci files

  -- The checks before the directory is read are those of `resolve`; a link inside that leads out is
  -- refused as well.
  unfoldable pub list_dir : Bytes → Bytes → Bytes → Exec W (List Entry)
  unfolding escapes_resolved listed
  list_dir user domain sub = do
    (root, target) ← lift (resolve user domain sub)
    resolved ← asks (k.eval_symlinks target)
    guard (escapes_resolved root resolved) path_escapes_root
    found ← asks (k.read_dir target)
    des ← need found
    pure (listed des)
