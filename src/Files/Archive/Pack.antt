-- ===== src/Files/Archive/Pack.antt =====
-- Making an archive changes one file, below the document root.
use aura_cp.Prelude.{
  ℕ, ◌<◌, Bool-cases, inl, inr, ◌≡◌, ◌≢◌, refl, sym, ap, ◌∙◌, Bool, true, false, ◌||◌, List, [],
  ◌∷◌, ◌++◌, Option, none, some, arith, Bytes, bytes_eq, bytes_beq_iff, ◌==◌, codes, All-append,
  length, length-append, if◌then◌else◌,
}
use aura_cp.Prelude.Text.{has_suffix}
use aura_cp.Filepath.{slash, dot, dot_dot, clean, base, join_path}
use aura_cp.Filepath.Laws.{IsPart}
use aura_cp.Filepath.Inside.{Inside, Below}
use aura_cp.Paths.{doc_root}
use aura_cp.Paths.Laws.{root_parts, doc_root_lem}
use aura_cp.Os.{
  Call, create, open_read, write, close, remove, chown, zip_entry, Info, Kernel, attempt, perform,
  on_error, ◌>>=◌, ◌>>◌,
}
use aura_cp.Os.Confined.{
  Confined, Confined-pure, Confined-raise, Confined-if, Confined-bind, Confined-bind_lift,
  Confined-bind_asks, Confined-guard, Confined-on_error, Confined-perform, Confined-attempt,
}
use aura_cp.Files.Resolve.{resolve}
use aura_cp.Files.Resolve.Laws.{IsResolved, resolve-IsResolved}
use aura_cp.Files.Manage.{bad_name, chown_to_user}
use aura_cp.Files.Manage.Laws.{Below-child, base-IsPart, names-IsPart}
use aura_cp.Files.Archive.{
  bad_archive_name, add_size, add_file, add_dir, visit, visit_all, add_sources, sources_of, zip,
}

-- The path is that of the archive, and lies strictly below the root.
abbrev IsArchive : (u d dest : Bytes) → Bytes → Type 0
IsArchive u d dest p = (p ≡ dest) × Below (root_parts u d) p

-- What packing may do: read anything that the walk shows, and change the archive only.
abbrev pub Packs : (u d dest : Bytes) → Call → Type 0
Packs u d dest (open_read p) = Unit
Packs u d dest (create p) = IsArchive u d dest p
Packs u d dest (write p) = IsArchive u d dest p
Packs u d dest (close p) = IsArchive u d dest p
Packs u d dest (remove p) = IsArchive u d dest p
Packs u d dest (zip_entry p name) = IsArchive u d dest p
Packs u d dest (chown p user) = IsArchive u d dest p × (user ≡ u)
Packs u d dest c = ⊥

no_slash : (b : Bytes) → b ≡ slash ∷ [] → bad_archive_name b ≡ false → ⊥
no_slash b e h = ground (arith, rw e at h)

not_bad : (b : Bytes) → bad_archive_name b ≡ false → bad_name b ≡ false
not_bad b h = elim (Bool-cases (b == slash ∷ [])) [
  | inl e ↦ absurd (no_slash b ((bytes_beq_iff b (slash ∷ [])).0 e) h)
  | inr e ↦ ground (arith, e, h)
]

archive_name-IsPart : (s : Bytes) → bad_archive_name (base s) ≡ false → IsPart (base s)
archive_name-IsPart s h = base-IsPart s (not_bad (base s) h)

zip_name-IsPart : (w : Bytes) → IsPart w → IsPart (w ++ codes ".zip")
zip_name-IsPart w p = (
  (λ e. longer [] e (omega arith)),
  (λ e. longer dot e (omega arith)),
  (λ e. longer dot_dot e (omega arith)),
  All-append (λ c. c ≢ slash) w (codes ".zip") p.3
      (ground arith, (ground arith, (ground arith, (ground arith, tt)))),
)
  where
    longer : (v : Bytes) → w ++ codes ".zip" ≡ v → length v < 4 → ⊥
    longer v e lt = omega (arith, lt, sym (length-append w (codes ".zip")) ∙ ap length e)

file_name-IsPart : (b : Bool) (w : Bytes) → IsPart w → IsPart (if b then w else w ++ codes ".zip")
file_name-IsPart true w p = p
file_name-IsPart false w p = zip_name-IsPart w p

module _ {W : Type 0} (k : Kernel W) (u d archive dest : Bytes)
    (below : IsArchive u d archive dest) where
  add_file-Packs :
      (path name : Bytes) (total : ℕ)
      → Confined (Packs u d archive) (add_file k dest path name total)
  unfolding add_file
  add_file-Packs path name total = Confined-guard _ _ _ λ _.
      Confined-bind _ _ (Confined-perform k (zip_entry dest name) below) λ _.
        Confined-bind _ _ (Confined-perform k (open_read path) tt)
          λ _. Confined-bind _ _ (Confined-perform k (write dest) below) λ _. Confined-pure total

  visit-Packs :
      (abs rel : Bytes) (total : ℕ) (item : Bytes × Option Info)
      → Confined (Packs u d archive) (visit k dest abs rel total item)
  unfolding visit add_dir
  visit-Packs abs rel total (path, none) = Confined-raise _
  visit-Packs abs rel total (path, some info) =
      Confined-if (path == dest || info.is_symlink) _ _ (λ _. Confined-pure total)
        λ _.
          Confined-if info.is_dir _ _
            (λ _.
              Confined-bind _ _ (Confined-perform k (zip_entry dest _) below)
                λ _. Confined-pure total)
            (λ _. add_file-Packs path _ (add_size k total info.size))

  visit_all-Packs :
      (abs rel : Bytes) (total : ℕ) (items : List (Bytes × Option Info))
      → Confined (Packs u d archive) (visit_all k dest abs rel total items)
  unfolding visit_all
  visit_all-Packs abs rel total [] = Confined-pure total
  visit_all-Packs abs rel total (item ∷ items) =
      Confined-bind _ _ (visit-Packs abs rel total item)
        λ total'. visit_all-Packs abs rel total' items

  add_sources-Packs :
      (total : ℕ) (sources : List Bytes)
      → Confined (Packs u d archive) (add_sources k dest total sources)
  unfolding add_sources
  add_sources-Packs total [] = Confined-pure total
  add_sources-Packs total (abs ∷ sources) = Confined-bind_asks (k.walk_tree abs) _ λ s.
      Confined-bind _ _ (visit_all-Packs abs (base abs) total (k.walk_tree abs s.world))
        λ total'. add_sources-Packs total' sources

  chown-Packs : Confined (Packs u d archive) (chown_to_user k dest u)
  unfolding chown_to_user
  chown-Packs = Confined-bind_asks (k.knows_user u) _ λ s.
      Confined-if (k.knows_user u s.world) _ _
        (λ _. Confined-perform k (chown dest u) (below, refl)) (λ _. Confined-pure tt)

  write_up :
      Confined
        (Packs u d archive)
        (attempt k (write dest) >> attempt k (close dest) >> attempt k (remove dest))
  write_up =
      Confined-bind _ _
        (Confined-bind _ _ (Confined-attempt k (write dest) below)
          λ _. Confined-attempt k (close dest) below)
        λ _. Confined-attempt k (remove dest) below

  clean_up : Confined (Packs u d archive) (attempt k (close dest) >> attempt k (remove dest))
  clean_up =
      Confined-bind _ _ (Confined-attempt k (close dest) below)
        λ _. Confined-attempt k (remove dest) below

module _ {W : Type 0} (k : Kernel W) (u d : Bytes) where
  root-Inside : {root target : Bytes} → IsResolved u d root target → Inside (root_parts u d) root
  root-Inside r = ([], r.root_is, tt)

  root_is_doc_root : {root target : Bytes} → IsResolved u d root target → root ≡ doc_root u d
  root_is_doc_root r = r.root_is ∙ sym (doc_root_lem u d r.names.user r.names.domain)

  -- what follows once the archive's file has been made
  packed :
      (sources : List Bytes) (archive dest : Bytes)
      → IsArchive u d archive dest
      → Confined (Packs u d archive) (
          on_error
            (add_sources k dest 0 sources)
            (attempt k (write dest) >> attempt k (close dest) >> attempt k (remove dest))
          >>= λ _.
              on_error (perform k (write dest)) (attempt k (close dest) >> attempt k (remove dest))
              >>= λ _. on_error (perform k (close dest)) (attempt k (remove dest)) >>= λ _.
                  chown_to_user k dest u)
  packed sources archive dest below =
      Confined-bind _ _
        (Confined-on_error _ _ (add_sources-Packs k u d archive dest below 0 sources)
          (write_up k u d archive dest below))
        λ _.
          Confined-bind _ _
            (Confined-on_error _ _ (Confined-perform k (write dest) below)
              (clean_up k u d archive dest below))
            λ _.
              Confined-bind _ _
                (Confined-on_error _ _ (Confined-perform k (close dest) below)
                  (Confined-attempt k (remove dest) below))
                λ _. chown-Packs k u d archive dest below

  -- The archive that Zip makes for a destination: its last name, with .zip unless it has that, in the root.
  abbrev pub archive_of : Bytes → Bytes
  archive_of dest_sub =
      let name = base (clean dest_sub) in
      join_path (
        doc_root u d
        ∷ (if has_suffix (codes ".zip") (k.to_lower name) then name else name ++ codes ".zip")
        ∷ [])

  -- Zip changes only one file, the archive that the destination names in the document root, and that one
  -- lies strictly below the root; whatever it is asked to pack and whatever the walk shows.
  pub zip-Packs :
      (subs : List Bytes) (dest_sub : Bytes)
      → Confined (Packs u d (archive_of dest_sub)) (zip k u d subs dest_sub)
  unfolding zip
  zip-Packs subs dest_sub =
      let name = base (clean dest_sub) in
      Confined-guard _ _ _ λ _. Confined-guard (bad_archive_name name) _ _ λ good.
        Confined-bind_lift (resolve u d []) _ λ p h.
          let r = resolve-IsResolved u d [] p.0 p.1 h in
          let part =
            file_name-IsPart (has_suffix (codes ".zip") (k.to_lower name)) name
              (archive_name-IsPart (clean dest_sub) good) in
          let below = Below-child (root_parts u d) (names-IsPart r) p.0 _ (root-Inside r) part in
          let file =
            if has_suffix (codes ".zip") (k.to_lower name) then name else name ++ codes ".zip" in
          let own : IsArchive u d (archive_of dest_sub) (join_path (p.0 ∷ file ∷ [])) =
            (ap (λ root. join_path (root ∷ file ∷ [])) (root_is_doc_root r), below) in
          Confined-bind_lift (sources_of k u d subs) _ λ sources _.
            Confined-bind_asks (k.lstat _) _ λ s.
              Confined-guard _ _ _ λ _.
                Confined-bind _ _ (Confined-perform k (create _) own) λ _. packed sources _ _ own
