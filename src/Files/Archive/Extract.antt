-- ===== src/Files/Archive/Extract.antt =====
-- No archive, however it was made, reaches outside the document root ("Zip Slip").
use mathlib.Core.List.{reverse}
use aura_cp.Prelude.{
  ℕ, ◌≡◌, sym, ap, ◌∙◌, ◌⊎◌, inl, inr, Bool, true, false, ◌||◌, List, [], ◌∷◌, Bytes, codes, arith,
  All, All-reverse, ok, subst, Bool-cases,
}
use aura_cp.Prelude.Text.{has_suffix, split}
use aura_cp.Prelude.Text.Laws.{split-NoByte}
use aura_cp.Filepath.{slash, absolute, clean, join_path, dir, walk}
use aura_cp.Filepath.Laws.{IsPart, join_path-absolute, clean_of_IsPart, walk-IsPart}
use aura_cp.Filepath.Inside.{Inside, dir_of_absolute, dir-absolute}
use aura_cp.Paths.Laws.{root_parts, root_parts-IsPart}
use aura_cp.Os.{Call, mkdir_all, open_trunc, open_read, write, chown, Kernel, ignored}
use aura_cp.Os.Confined.{
  Confined, Confined-pure, Confined-raise, Confined-if, Confined-bind, Confined-bind_lift,
  Confined-bind_asks, Confined-guard, Confined-need, Confined-ignored, Confined-each,
  Confined-perform,
}
use aura_cp.Files.Resolve.{escapes, resolve}
use aura_cp.Files.Resolve.Laws.{AreNames, resolve-IsResolved, not-escapes}
use aura_cp.Files.Manage.{chown_to_user}
use aura_cp.Files.Manage.Laws.{dir_of_Below}
use aura_cp.Files.Archive.{
  ZipItem, TarKind, dir_kind, regular_kind, other_kind, TarItem, header, broken, Reader, place,
  file_mode, extract_zip, tar_entry, extract_tar, unzip_zip, unzip_tar, by_suffix, unzip,
}

-- What extraction may do: read, write, make and own at or below the document root. The parent of a
-- file is made too, which for an entry that names the root itself is the directory above the root.
abbrev pub Extracts : Bytes → Bytes → Call → Type 0
Extracts u d (mkdir_all p m) =
    Inside (root_parts u d) p ⊎ (p ≡ absolute (codes "home" ∷ u ∷ codes "htdocs" ∷ []))
Extracts u d (open_trunc p m) = Inside (root_parts u d) p
Extracts u d (open_read p) = Inside (root_parts u d) p
Extracts u d (write p) = Inside (root_parts u d) p
Extracts u d (chown p user) = Inside (root_parts u d) p
Extracts u d c = ⊥

joined-IsPart :
    (ps : List Bytes) (name : Bytes)
    → All IsPart ps
    → (ts : List Bytes) × (clean (join_path (absolute ps ∷ name ∷ [])) ≡ absolute ts)
      × All IsPart ts
joined-IsPart ps name h =
    let ts = reverse (walk true (reverse ps) (split slash name)) in
    let parts : All IsPart ts = All-reverse IsPart _ (
      walk-IsPart (reverse ps) (split slash name) (All-reverse IsPart ps h)
        (split-NoByte slash name)) in
    (ts, ap clean (join_path-absolute ps name h) ∙ clean_of_IsPart ts parts, parts)

place-stays :
    (parent root name target : Bytes)
    → place parent root name ≡ ok target
    → (escapes root target ≡ false) × (target ≡ clean (join_path (parent ∷ name ∷ [])))
unfolding place
place-stays parent root name target h = ground arith

-- Where an entry lands, whatever its name.
place-Inside :
    (u d parent name target : Bytes) (ps : List Bytes)
    → AreNames u d
    → parent ≡ absolute ps
    → All IsPart ps
    → place parent (absolute (root_parts u d)) name ≡ ok target
    → Inside (root_parts u d) target
place-Inside u d parent name target ps n e h p =
    let (stays, same) = place-stays parent (absolute (root_parts u d)) name target p in
    let (ts, q, parts) = joined-IsPart ps name h in
    let whole : target ≡ absolute ts = same ∙ ap (λ k. clean (join_path (k ∷ name ∷ []))) e ∙ q in
    subst (Inside (root_parts u d)) (sym whole) (
      not-escapes _ _ ts (root_parts-IsPart u d n.user n.domain) parts
        (subst (λ k. escapes (absolute (root_parts u d)) k ≡ false) whole stays))

dir_of_Inside :
    (u d p : Bytes)
    → AreNames u d
    → Inside (root_parts u d) p
    → Extracts u d (mkdir_all (dir p) 0o755)
dir_of_Inside u d p n ([], e, h) = inr (
    ap dir e
    ∙ dir-absolute (codes "home" ∷ u ∷ codes "htdocs" ∷ []) d
        ((cc, cc, cc, omega arith), (n.user, ((cc, cc, cc, omega arith), tt))) n.domain)
dir_of_Inside u d p n (w ∷ ws, e, h) =
    inl (dir_of_Below (root_parts u d) (root_parts-IsPart u d n.user n.domain) p (w, ws, e, h))

module _ {W : Type 0} (k : Kernel W) (u d : Bytes) (n : AreNames u d) where
  chown_to_user-Extracts :
      (p : Bytes) → Inside (root_parts u d) p → Confined (Extracts u d) (chown_to_user k p u)
  unfolding chown_to_user
  chown_to_user-Extracts p h = Confined-bind_asks (k.knows_user u) _ (λ s.
      Confined-if (k.knows_user u s.world) _ _ (λ _. Confined-perform k (chown p u) h)
        (λ _. Confined-pure tt))

  owned :
      (p : Bytes)
      → Inside (root_parts u d) p
      → Confined (Extracts u d) (ignored (chown_to_user k p u))
  owned p h = Confined-ignored _ (chown_to_user-Extracts p h)

  module _ (parent : Bytes) (ps : List Bytes) (e : parent ≡ absolute ps) (h : All IsPart ps) where
    extract_zip-Extracts :
        (f : ZipItem)
        → Confined (Extracts u d) (extract_zip k u (absolute (root_parts u d)) parent f)
    unfolding extract_zip
    extract_zip-Extracts f = Confined-bind_lift (place parent _ f.name) _ λ t p.
        let inside = place-Inside u d parent f.name t ps n e h p in
        Confined-if f.is_dir _ _
          (λ _.
            Confined-bind _ _ (Confined-perform k (mkdir_all t 0o755) (inl inside))
              (λ _. owned t inside))
          λ _.
            Confined-bind _ _
              (Confined-perform k (mkdir_all (dir t) 0o755) (dir_of_Inside u d t n inside))
              λ _.
                Confined-bind _ _ (Confined-perform k (open_trunc t (file_mode f.mode)) inside) λ _.
                  Confined-guard _ _ _ λ _.
                    Confined-bind _ _ (Confined-perform k (write t) inside) (λ _. owned t inside)

    tar_entry-Extracts :
        (t : Bytes) (mode : ℕ) (kind : TarKind)
        → Inside (root_parts u d) t
        → Confined (Extracts u d) (tar_entry k u t mode kind)
    unfolding tar_entry
    tar_entry-Extracts t mode dir_kind inside =
        Confined-bind _ _ (Confined-perform k (mkdir_all t _) (inl inside)) (λ _. owned t inside)
    tar_entry-Extracts t mode regular_kind inside =
        Confined-bind _ _
          (Confined-perform k (mkdir_all (dir t) 0o755) (dir_of_Inside u d t n inside))
          λ _.
            Confined-bind _ _ (Confined-perform k (open_trunc t mode) inside)
              λ _. Confined-bind _ _ (Confined-perform k (write t) inside) (λ _. owned t inside)
    tar_entry-Extracts t mode other_kind inside = Confined-pure tt

    extract_tar-Extracts :
        (item : TarItem)
        → Confined (Extracts u d) (extract_tar k u (absolute (root_parts u d)) parent item)
    unfolding extract_tar
    extract_tar-Extracts broken = Confined-raise _
    extract_tar-Extracts (header name mode kind) = Confined-bind_lift (place parent _ name) _ λ t p.
        tar_entry-Extracts t (file_mode mode) kind (place-Inside u d parent name t ps n e h p)

module _ {W : Type 0} (k : Kernel W) (reader : Reader W) (u d : Bytes) where
  module _ (target : Bytes) (n : AreNames u d) (inside : Inside (root_parts u d) target) where
    parent_is : (ps : List Bytes) × (dir target ≡ absolute ps) × All IsPart ps
    parent_is =
        let (ws, e, h) = inside in
        let (ps, q, parts) = dir_of_absolute _ in (ps, ap dir e ∙ q, parts)

    unzip_zip-Extracts :
        Confined (Extracts u d) (unzip_zip k reader u (absolute (root_parts u d)) target)
    unfolding unzip_zip
    unzip_zip-Extracts =
        let (ps, e, h) = parent_is in
        Confined-bind_asks (reader.zip_items target) _ λ s.
          Confined-bind _ _ (Confined-need (reader.zip_items target s.world))
            λ items. Confined-each _ (extract_zip-Extracts k u d n (dir target) ps e h) items

    unzip_tar-Extracts :
        (gzipped : Bool)
        → Confined (Extracts u d) (unzip_tar k reader u (absolute (root_parts u d)) target gzipped)
    unfolding unzip_tar
    unzip_tar-Extracts gzipped =
        let (ps, e, h) = parent_is in
        Confined-bind _ _ (Confined-perform k (open_read target) inside) λ _.
          Confined-bind_asks (reader.is_gzip target) _ λ s. Confined-guard _ _ _ λ _.
            Confined-bind_asks (reader.tar_items target gzipped) _ λ t.
              Confined-each _ (extract_tar-Extracts k u d n (dir target) ps e h)
                (reader.tar_items target gzipped t.world)

    by_suffix-Extracts :
        (low : Bytes)
        → Confined (Extracts u d) (by_suffix k reader u (absolute (root_parts u d)) target low)
    unfolding by_suffix
    by_suffix-Extracts low = elim (Bool-cases (has_suffix (codes ".zip") low)) [
      | inl e ↦ rw (e, by_suffix) unzip_zip-Extracts
      | inr e ↦
          elim (Bool-cases (has_suffix (codes ".tar.gz") low || has_suffix (codes ".tgz") low)) [
            | inl f ↦ rw (e, f, by_suffix) (unzip_tar-Extracts true)
            | inr f ↦ elim (Bool-cases (has_suffix (codes ".tar") low)) [
              | inl g ↦ rw (e, f, g, by_suffix) (unzip_tar-Extracts false)
              | inr g ↦ rw (e, f, g, by_suffix) (Confined-raise _)
            ]
          ]
    ]

  -- Whatever the archive holds, extracting it makes, reads, writes and owns at or below the document
  -- root only, except that it may make the directory just above the root.
  pub unzip-Extracts : (sub : Bytes) → Confined (Extracts u d) (unzip k reader u d sub)
  unfolding unzip
  unzip-Extracts sub = Confined-bind_lift (resolve u d sub) _ λ p h.
      let r = resolve-IsResolved u d sub p.0 p.1 h in
      Confined-bind_asks (k.stat p.1) _ λ s.
        Confined-bind _ _ (Confined-need (k.stat p.1 s.world)) λ info.
          Confined-guard _ _ _
            λ _. rw r.root_is (by_suffix-Extracts p.1 r.names r.inside (k.to_lower p.1))
