-- ===== src/Files/Edit/Laws.antt =====
-- The editor stays inside the document root and never writes into the file itself.
use mathlib.Core.List.{append_assoc}
use aura_cp.Prelude.{
  ℕ, ◌<◌, ◌≡◌, ◌≢◌, refl, sym, ap, ◌∙◌, false, List, [], ◌∷◌, ◌++◌, Option, none, some, Bytes,
  Result, ok, codes, arith, All, All-append, All-map, ◌==◌, bytes_eq, subst, nat_eq,
}
use aura_cp.Errors.{Error}
use aura_cp.Prelude.Text.{has_suffix, itoa, join}
use aura_cp.Prelude.Text.Decimal.{IsDigitByte, itoa-digits}
use aura_cp.Filepath.{slash, dot_dot, absolute, dir}
use aura_cp.Filepath.Laws.{IsPart}
use aura_cp.Filepath.Inside.{Inside, Below, join-append, no_slash_suffix}
use aura_cp.Paths.Laws.{root_parts}
use aura_cp.Os.{
  Call, open_excl, open_read, write_string, close, remove, rename, chmod, chown, Info, Kernel,
}
use aura_cp.Os.Confined.{
  Confined, Confined-pure, Confined-bind, Confined-bind_lift, Confined-bind_asks, Confined-guard,
  Confined-need, Confined-on_error, Confined-perform, Confined-attempt, Confined-if,
}
use aura_cp.Files.Resolve.{resolve}
use aura_cp.Files.Resolve.Laws.{resolve-IsResolved}
use aura_cp.Files.Manage.{chown_to_user}
use aura_cp.Files.Manage.Laws.{
  Below-snoc, Contained, names-IsPart, resolved-Below, dir_of_Below, chown_to_user-Confined,
}
use aura_cp.Files.Edit.{edit_prefix, temp_path, kept_mode, read_text, replace_file, write_text}

digits-IsPart : (w : Bytes) → All IsDigitByte w → IsPart (edit_prefix ++ w)
digits-IsPart w h = (
  cc,
  cc,
  λ e. absurd (second e),
  All-append (λ c. c ≢ slash) edit_prefix w (omega arith)
      (All-map IsDigitByte (λ c. c ≢ slash) w (λ c d. omega arith) h),
)
  where
    second : edit_prefix ++ w ≡ dot_dot → ⊥
    second e = ground arith

temp_name-IsPart : (n : ℕ) → IsPart (edit_prefix ++ itoa n)
temp_name-IsPart n =
    let (c, s, e, h) = itoa-digits n in digits-IsPart (itoa n) (subst (All IsDigitByte) (sym e) h)

-- The temporary file lies in the directory that it is made for.
temp_path-Below :
    (r : Bytes) (rs : List Bytes) (parent : Bytes) (n : ℕ)
    → All IsPart (r ∷ rs)
    → Inside (r ∷ rs) parent
    → Below (r ∷ rs) (temp_path parent edit_prefix n)
unfolding temp_path join
temp_path-Below r rs parent n hr (ws, e, h) =
    let name = edit_prefix ++ itoa n in
    let whole : parent ≡ absolute (r ∷ (rs ++ ws)) = e in
    let slashed : has_suffix (slash ∷ []) parent ≡ false =
      rw whole (no_slash_suffix r (rs ++ ws) (All-append IsPart (r ∷ rs) ws hr h)) in
    Below-snoc (r ∷ rs) hr (temp_path parent edit_prefix n) name ws
      (rw slashed (
        append_assoc parent (slash ∷ []) name
        ∙ ap (λ k. k ++ slash ∷ name) whole
        ∙ sym (ap (λ k. slash ∷ k) (join-append r (rs ++ ws) name []))))
      h (temp_name-IsPart n)

module _ {W : Type 0} (k : Kernel W) (u d : Bytes) where
  -- ReadText opens only the document root or what lies below it.
  pub read_text-Confined : (sub : Bytes) → Confined (Contained u d) (read_text k u d sub)
  unfolding read_text
  read_text-Confined sub = Confined-bind_lift (resolve u d sub) _ λ p h.
      let r = resolve-IsResolved u d sub p.0 p.1 h in
      Confined-bind_asks (k.stat p.1) _ λ s.
        Confined-bind _ _ (Confined-need (k.stat p.1 s.world)) λ info. Confined-guard _ _ _ λ _.
          Confined-guard _ _ _ λ _.
            Confined-bind _ _ (Confined-perform k (open_read p.1) r.inside) λ _.
              Confined-bind_asks (k.read_file p.1) _ λ t.
                Confined-bind _ _ (Confined-need (k.read_file p.1 t.world))
                  λ content. Confined-guard _ _ _ λ _. Confined-pure content

module _ {W : Type 0} (k : Kernel W) (P : Call → Type 0) (tmp target content user : Bytes)
    (mode : ℕ) where
  replace_file-Confined :
      P (open_excl tmp 0o600)
      → P (write_string tmp content)
      → P (close tmp)
      → P (remove tmp)
      → P (chmod tmp mode)
      → P (rename tmp target)
      → Confined P (chown_to_user k target user)
      → Confined P (replace_file k tmp target content mode user)
  unfolding replace_file
  replace_file-Confined made wrote closed gone moded moved owned =
      let clean_up = Confined-attempt k (remove tmp) gone in
      Confined-bind _ _ (Confined-perform k (open_excl tmp 0o600) made) λ _.
        Confined-bind _ _
          (Confined-on_error _ _ (Confined-perform k (write_string tmp content) wrote)
            (Confined-bind _ _ (Confined-attempt k (close tmp) closed) (λ _. clean_up)))
          λ _.
            Confined-bind _ _
              (Confined-on_error _ _ (Confined-perform k (close tmp) closed) clean_up)
              λ _.
                Confined-bind _ _
                  (Confined-on_error _ _ (Confined-perform k (chmod tmp mode) moded) clean_up)
                  λ _.
                    Confined-bind _ _
                      (Confined-on_error _ _ (Confined-perform k (rename tmp target) moved)
                        clean_up)
                      λ _. owned

-- The mode of a file that is kept is made of permission bits.
kept_mode-lt : (o : Option Info) → kept_mode o < 0o1000
kept_mode-lt none = omega arith
kept_mode-lt (some info) = omega arith

-- A temporary file in the directory of the target.
abbrev IsTemporary : Bytes → Bytes → Type 0
IsTemporary target p = (n : ℕ) × (p ≡ temp_path (dir target) edit_prefix n)

-- The content goes into temporary files only, and the target appears by a rename of one.
abbrev pub IsSwap : (user target content : Bytes) → Call → Type 0
IsSwap user target content (open_excl p m) = IsTemporary target p
IsSwap user target content (write_string p c) = IsTemporary target p × (c ≡ content)
IsSwap user target content (close p) = IsTemporary target p
IsSwap user target content (chmod p m) = IsTemporary target p
IsSwap user target content (remove p) = IsTemporary target p
IsSwap user target content (rename p q) = IsTemporary target p × (q ≡ target)
IsSwap user target content (chown p owner) = (p ≡ target) × (owner ≡ user)
IsSwap user target content c = ⊥

module _ {W : Type 0} (k : Kernel W) (u d : Bytes) where
  -- WriteText writes, renames, removes and owns only below the document root.
  pub write_text-Confined :
      (sub content : Bytes) → Confined (Contained u d) (write_text k u d sub content)
  unfolding write_text
  write_text-Confined sub content = Confined-guard _ _ _ λ _.
      Confined-bind_lift (resolve u d sub) _ λ p h.
        let r = resolve-IsResolved u d sub p.0 p.1 h in
        Confined-guard (p.1 == p.0) _ _ λ ne. Confined-bind_asks (k.stat p.1) _ λ s.
          Confined-guard _ _ _ λ _. Confined-bind_asks k.random _ λ t.
            let below = resolved-Below r ne in
            let parent = dir_of_Below (root_parts u d) (names-IsPart r) p.1 below in
            let tmp =
              temp_path-Below (codes "home") (u ∷ codes "htdocs" ∷ d ∷ []) (dir p.1)
                (k.random t.world) (names-IsPart r) parent in
            replace_file-Confined k (Contained u d) _ p.1 content u _ tmp tmp tmp tmp
              (tmp, kept_mode-lt (k.stat p.1 s.world)) (tmp, below)
              (chown_to_user-Confined k u d p.1 r.inside)

  chown_to_user-IsSwap :
      (target content : Bytes) → Confined (IsSwap u target content) (chown_to_user k target u)
  unfolding chown_to_user
  chown_to_user-IsSwap target content = Confined-bind_asks (k.knows_user u) _ (λ s.
      Confined-if (k.knows_user u s.world) _ _
        (λ _. Confined-perform k (chown target u) (refl, refl)) (λ _. Confined-pure tt))

  replace_file-IsSwap :
      (target content : Bytes) (n mode : ℕ)
      → Confined
          (IsSwap u target content)
          (replace_file k (temp_path (dir target) edit_prefix n) target content mode u)
  replace_file-IsSwap target content n mode =
      replace_file-Confined k (IsSwap u target content) _ target content u mode (n, refl)
        ((n, refl), refl) (n, refl) (n, refl) (n, refl) ((n, refl), refl)
        (chown_to_user-IsSwap target content)

  second :
      (root target : Bytes) (p : Bytes × Bytes) (r : Result Error (Bytes × Bytes))
      → r ≡ ok (root, target)
      → r ≡ ok p
      → p.1 ≡ target
  second root target p r e h = let same : p ≡ (root, target) = cc in ap (λ q. q.1) same

  -- For a path that resolves to a target, WriteText writes the content, and nothing else, to temporary
  -- files in the directory of the target, which it makes, closes, sets the mode of and may remove; it renames
  -- them to nothing but the target, gives the target to the user, and makes no other call.
  pub write_text-IsSwap :
      (sub content root target : Bytes)
      → resolve u d sub ≡ ok (root, target)
      → Confined (IsSwap u target content) (write_text k u d sub content)
  unfolding write_text
  write_text-IsSwap sub content root target found = Confined-guard _ _ _ λ _.
      Confined-bind_lift (resolve u d sub) _ λ p h. Confined-guard (p.1 == p.0) _ _ λ ne.
        Confined-bind_asks (k.stat p.1) _ λ s. Confined-guard _ _ _ λ _.
          Confined-bind_asks k.random _ λ t.
            subst
              (λ q. Confined (IsSwap u q content) (
                replace_file k (temp_path (dir p.1) edit_prefix (k.random t.world)) p.1 content
                  (kept_mode (k.stat p.1 s.world)) u))
              (second root target p (resolve u d sub) found h)
              (replace_file-IsSwap p.1 content (k.random t.world) _)
