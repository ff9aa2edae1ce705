-- ===== src/Files/Manage/Laws.antt =====
-- Every call of the file manager stays inside the document root.
use mathlib.Core.List.{append_assoc, append-nil}
use aura_cp.Prelude.{
  ℕ, ◌<◌, ◌≡◌, ◌≢◌, refl, sym, ap, ◌∙◌, inl, inr, Bool, false, ◌||◌, List, [], ◌∷◌, ◌++◌, Bytes,
  arith, All, All-append, ◌==◌, nat_eq, bytes_eq, bytes_beq_iff, All-append_right, subst,
  All-append_left,
}
use aura_cp.Filepath.{slash, dot, dot_dot, absolute, clean, join_path, base, dir}
use aura_cp.Filepath.Laws.{IsPart, join_path-name}
use aura_cp.Filepath.Inside.{Inside, Below, Inside-of_Below, dir-absolute, base-NoByte}
use aura_cp.Paths.Laws.{root_parts, root_parts-IsPart}
use aura_cp.Os.{
  Call, mkdir_all, mkdir, create, open_trunc, open_excl, open_read, write, write_string, close,
  remove, remove_all, rename, chmod, chown, zip_entry, write_file, symlink, run, Kernel,
}
use aura_cp.Os.Confined.{
  Confined, Confined-pure, Confined-if, Confined-bind, Confined-bind_lift, Confined-bind_asks,
  Confined-guard, Confined-need, Confined-perform,
}
use aura_cp.Files.Resolve.{resolve}
use aura_cp.Files.Resolve.Laws.{IsResolved, resolve-IsResolved}
use aura_cp.Files.Manage.{
  bad_name, bad_basename, perm_bits, chown_to_user, open_file, delete, rename_to, make_dir, touch,
  change_mode,
}

-- What the file manager of a site may do: create, change, move and remove only below the document
-- root, read and own at or below it, and never set a mode bit beside the nine permissions.
abbrev pub Contained : Bytes → Bytes → Call → Type 0
Contained u d (mkdir_all p m) = Inside (root_parts u d) p
Contained u d (mkdir p m) = Below (root_parts u d) p
Contained u d (create p) = Below (root_parts u d) p
Contained u d (open_trunc p m) = Below (root_parts u d) p
Contained u d (open_excl p m) = Below (root_parts u d) p
Contained u d (open_read p) = Inside (root_parts u d) p
Contained u d (write p) = Below (root_parts u d) p
Contained u d (write_string p content) = Below (root_parts u d) p
Contained u d (close p) = Below (root_parts u d) p
Contained u d (remove p) = Below (root_parts u d) p
Contained u d (remove_all p) = Below (root_parts u d) p
Contained u d (rename p q) = Below (root_parts u d) p × Below (root_parts u d) q
Contained u d (chmod p m) = Below (root_parts u d) p × (m < 0o1000)
Contained u d (chown p user) = Inside (root_parts u d) p
Contained u d (zip_entry p name) = Below (root_parts u d) p
Contained u d (write_file p body m) = ⊥
Contained u d (symlink p q) = ⊥
Contained u d (run argv) = ⊥

-- A base name that passes the tests is a name in a directory.
pub base-IsPart : (s : Bytes) → bad_name (base s) ≡ false → IsPart (base s)
base-IsPart s h = elim (base-NoByte s) [
  | inl e ↦ absurd (root_is_bad (base s) e h)
  | inr free ↦ named (base s) free h
]
  where
    root_is_bad : (b : Bytes) → b ≡ slash ∷ [] → bad_name b ≡ false → ⊥
    root_is_bad b e h = ground (
      arith,
      bytes_beq_iff b [],
      bytes_beq_iff b dot,
      bytes_beq_iff b dot_dot,
      bytes_beq_iff b (slash ∷ []),
    )

    named : (b : Bytes) → All (λ c. c ≢ slash) b → bad_name b ≡ false → IsPart b
    named b free h = (
      ground (arith, bytes_beq_iff b []),
      ground (arith, bytes_beq_iff b dot),
      ground (arith, bytes_beq_iff b dot_dot),
      free,
    )

snoc-cons :
    (ws : List Bytes) (n : Bytes) → (w : Bytes) × (vs : List Bytes) × (ws ++ n ∷ [] ≡ w ∷ vs)
snoc-cons [] n = (n, [], refl)
snoc-cons (w ∷ ws) n = (w, ws ++ n ∷ [], refl)

cons-snoc :
    (w : Bytes) (ws : List Bytes) → (vs : List Bytes) × (n : Bytes) × (w ∷ ws ≡ vs ++ n ∷ [])
cons-snoc w [] = ([], w, refl)
cons-snoc w (x ∷ ws) = let (vs, n, e) = cons-snoc x ws in (w ∷ vs, n, ap (λ k. w ∷ k) e)

module _ (rs : List Bytes) (hr : All IsPart rs) where
  pub Below-snoc :
      (p name : Bytes) (ws : List Bytes)
      → p ≡ absolute ((rs ++ ws) ++ name ∷ [])
      → All IsPart ws
      → IsPart name
      → Below rs p
  Below-snoc p name ws e h part =
      let (w, vs, f) = snoc-cons ws name in
      (
        w,
        vs,
        e ∙ ap absolute (append_assoc rs ws (name ∷ []) ∙ ap (λ k. rs ++ k) f),
        subst (All IsPart) f (All-append IsPart ws (name ∷ []) h (part, tt)),
      )

  -- A name under a contained directory is below the root.
  pub Below-child :
      (p name : Bytes) → Inside rs p → IsPart name → Below rs (join_path (p ∷ name ∷ []))
  Below-child p name (ws, e, h) part =
      Below-snoc (join_path (p ∷ name ∷ [])) name ws
        (ap (λ k. join_path (k ∷ name ∷ [])) e
          ∙ join_path-name (rs ++ ws) name (All-append IsPart rs ws hr h) part)
        h part

  pub dir_of_Below : (p : Bytes) → Below rs p → Inside rs (dir p)
  dir_of_Below p (w, ws, e, h) =
      let (vs, n, f) = cons-snoc w ws in
      let parts : All IsPart (vs ++ n ∷ []) = subst (All IsPart) f h in
      let init : All IsPart vs = All-append_left IsPart vs (n ∷ []) parts in
      let last : All IsPart (n ∷ []) = All-append_right IsPart vs (n ∷ []) parts in
      (
        vs,
        ap dir
              (e ∙ ap (λ k. absolute (rs ++ k)) f ∙ ap absolute (sym (append_assoc rs vs (n ∷ []))))
            ∙ dir-absolute (rs ++ vs) n (All-append IsPart rs vs hr init) last.0,
        init,
      )

  -- What is inside and is not the root is below it.
  pub Below-of_ne :
      (p root : Bytes) → root ≡ absolute rs → Inside rs p → (p == root) ≡ false → Below rs p
  Below-of_ne p root e ([], f, h) ne = absurd (equal (f ∙ ap absolute (append-nil rs) ∙ sym e) ne)
    where
      equal : p ≡ root → (p == root) ≡ false → ⊥
      equal same ne = ground (arith, bytes_beq_iff p root)
  Below-of_ne p root e (w ∷ ws, f, h) ne = (w, ws, f, h)

pub names-IsPart :
    {u d root target : Bytes} → IsResolved u d root target → All IsPart (root_parts u d)
names-IsPart {u} {d} r = root_parts-IsPart u d r.names.user r.names.domain

module _ {u d root target : Bytes} (r : IsResolved u d root target) where
  pub resolved-child :
      (name : Bytes) → IsPart name → Below (root_parts u d) (join_path (target ∷ name ∷ []))
  resolved-child name part = Below-child (root_parts u d) (names-IsPart r) target name r.inside part

  pub resolved-Below : (target == root) ≡ false → Below (root_parts u d) target
  resolved-Below ne =
      Below-of_ne (root_parts u d) (names-IsPart r) target root r.root_is r.inside ne

or-false : (a b : Bool) → (a || b) ≡ false → a ≡ false
or-false a b h = ground arith

module _ {W : Type 0} (k : Kernel W) (u d : Bytes) where
  pub chown_to_user-Confined :
      (p : Bytes) → Inside (root_parts u d) p → Confined (Contained u d) (chown_to_user k p u)
  unfolding chown_to_user
  chown_to_user-Confined p h = Confined-bind_asks (k.knows_user u) _ (λ s.
      Confined-if (k.knows_user u s.world) _ _ (λ _. Confined-perform k (chown p u) h)
        (λ _. Confined-pure tt))

  -- Open opens only the document root or what lies below it.
  pub open_file-Confined : (sub : Bytes) → Confined (Contained u d) (open_file k u d sub)
  unfolding open_file
  open_file-Confined sub = Confined-bind_lift (resolve u d sub) _ λ p h.
      let r = resolve-IsResolved u d sub p.0 p.1 h in
      Confined-bind _ _ (Confined-perform k (open_read p.1) r.inside) λ _.
        Confined-bind_asks (k.stat p.1) _ λ s.
          Confined-bind _ _ (Confined-need (k.stat p.1 s.world))
            λ info. Confined-guard info.is_dir _ _ λ _. Confined-pure info

  -- Delete removes only what lies strictly below the document root.
  pub delete-Confined : (sub : Bytes) → Confined (Contained u d) (delete k u d sub)
  unfolding delete
  delete-Confined sub = Confined-bind_lift (resolve u d sub) _ λ p h.
      let r = resolve-IsResolved u d sub p.0 p.1 h in
      Confined-guard (p.1 == p.0) _ _
        λ ne. Confined-perform k (remove_all p.1) (resolved-Below r ne)

  -- Rename moves only between paths strictly below the document root.
  pub rename_to-Confined : (sub name : Bytes) → Confined (Contained u d) (rename_to k u d sub name)
  unfolding rename_to
  rename_to-Confined sub name =
      let b = base (clean name) in
      Confined-guard (bad_basename b) _ _ λ good. Confined-bind_lift (resolve u d sub) _ λ p h.
        let r = resolve-IsResolved u d sub p.0 p.1 h in
        Confined-guard (p.1 == p.0) _ _ λ ne. Confined-guard _ _ _ λ _. Confined-bind_asks _ _ λ s.
          Confined-guard _ _ _ λ _. Confined-perform k (rename p.1 (join_path (dir p.1 ∷ b ∷ []))) (
            resolved-Below r ne,
            Below-child (root_parts u d) (names-IsPart r) (dir p.1) b
                (dir_of_Below (root_parts u d) (names-IsPart r) p.1 (resolved-Below r ne))
                (base-IsPart (clean name) (or-false _ _ good)),
          )

  -- Mkdir makes a directory only strictly below the document root.
  pub make_dir-Confined :
      (sub folder : Bytes) → Confined (Contained u d) (make_dir k u d sub folder)
  unfolding make_dir
  make_dir-Confined sub folder =
      let b = base (clean folder) in
      Confined-guard (bad_basename b) _ _ λ good. Confined-bind_lift (resolve u d sub) _ λ p h.
        let r = resolve-IsResolved u d sub p.0 p.1 h in
        let below = resolved-child r b (base-IsPart (clean folder) (or-false _ _ good)) in
        Confined-guard _ _ _ λ _.
          Confined-bind _ _ (Confined-perform k (mkdir _ 0o755) below)
            λ _. chown_to_user-Confined _ (Inside-of_Below (root_parts u d) _ below)

  -- Touch makes a file only strictly below the document root.
  pub touch-Confined : (sub file : Bytes) → Confined (Contained u d) (touch k u d sub file)
  unfolding touch
  touch-Confined sub file =
      let b = base (clean file) in
      Confined-guard (bad_basename b) _ _ λ good. Confined-bind_lift (resolve u d sub) _ λ p h.
        let r = resolve-IsResolved u d sub p.0 p.1 h in
        let below = resolved-child r b (base-IsPart (clean file) (or-false _ _ good)) in
        Confined-guard _ _ _ λ _.
          Confined-bind _ _ (Confined-perform k (open_excl _ 0o644) below)
            λ _. chown_to_user-Confined _ (Inside-of_Below (root_parts u d) _ below)

  -- Chmod changes only what lies strictly below the document root, and only its permission bits.
  pub change_mode-Confined :
      (sub : Bytes) (mode : ℕ) → Confined (Contained u d) (change_mode k u d sub mode)
  unfolding change_mode
  change_mode-Confined sub mode = Confined-bind_lift (resolve u d sub) _ λ p h.
      let r = resolve-IsResolved u d sub p.0 p.1 h in
      Confined-guard (p.1 == p.0) _ _
        λ ne. Confined-perform k (chmod p.1 (perm_bits mode)) (resolved-Below r ne, omega arith)
