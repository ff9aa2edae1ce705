-- ===== src/Filepath/Inside.antt =====
-- When one clean absolute path lies under another, and what Base and Dir give of one.
use mathlib.Core.List.{reverse-reverse, append_assoc}
use aura_cp.Prelude.{
  subst, ◌≡◌, refl, sym, ap, ◌∙◌, ◌⊎◌, inl, inr, true, false, List, [], ◌∷◌, ◌++◌, Bytes, arith,
  All, All-append_right, ◌==◌, nat_eq, bytes_eq, any, Bool-cases, bytes_beq_iff,
}
use aura_cp.Prelude.Text.{has_suffix, has_prefix, split, join}
use aura_cp.Prelude.Text.Laws.{
  NoByte, has_prefix-append, rest_of_prefix, split-cons, split-append, split-NoByte,
}
use aura_cp.Filepath.{
  slash, step, walk, absolute, clean, join_path, up_to_slash, dir, base, strip_slashes, named,
  last_part,
}
use aura_cp.Filepath.Laws.{
  clean-absolute, clean_of_IsPart, join_path-absolute, IsPart, IsPart-NoByte, split-join,
}

-- The path lies at or under the directory with the elements `rs`: only names lead on from there.
abbrev pub Inside : List Bytes → Bytes → Type 0
Inside rs p = (ws : List Bytes) × (p ≡ absolute (rs ++ ws)) × All IsPart ws

-- The path lies under the directory, and is not the directory itself.
abbrev pub Below : List Bytes → Bytes → Type 0
Below rs p = (w : Bytes) × (ws : List Bytes) × (p ≡ absolute (rs ++ w ∷ ws)) × All IsPart (w ∷ ws)

pub Inside-of_Below : (rs : List Bytes) (p : Bytes) → Below rs p → Inside rs p
Inside-of_Below rs p (w, ws, e, h) = (w ∷ ws, e, h)

pub join-append :
    (x : Bytes) (xs : List Bytes) (y : Bytes) (ys : List Bytes)
    → join slash (x ∷ (xs ++ y ∷ ys)) ≡ join slash (x ∷ xs) ++ slash ∷ join slash (y ∷ ys)
unfolding join
join-append x [] y ys = refl
join-append x (v ∷ xs) y ys = rw (join-append v xs y ys) (sym (append_assoc x _ _))

-- The string test of the source finds a path below the root.
pub has_prefix-below :
    (r : Bytes) (rs : List Bytes) (w : Bytes) (ws : List Bytes)
    → has_prefix (absolute (r ∷ rs) ++ slash ∷ []) (absolute (r ∷ (rs ++ w ∷ ws))) ≡ true
has_prefix-below r rs w ws =
    rw
      (join-append r rs w ws, ← append_assoc (absolute (r ∷ rs)) (slash ∷ []) (join slash (w ∷ ws)))
      (has_prefix-append (absolute (r ∷ rs) ++ slash ∷ []) (join slash (w ∷ ws)))

split-absolute :
    (t : Bytes) (ts : List Bytes)
    → All IsPart (t ∷ ts)
    → split slash (absolute (t ∷ ts)) ≡ [] ∷ t ∷ ts
unfolding split
split-absolute t ts h = rw (split-join t ts (IsPart-NoByte (t ∷ ts) h))

split-below :
    (r : Bytes) (rs : List Bytes) (t : Bytes)
    → All IsPart (r ∷ rs)
    → split slash ((absolute (r ∷ rs) ++ slash ∷ []) ++ t) ≡ [] ∷ r ∷ (rs ++ split slash t)
split-below r rs t h =
    ap (split slash) (append_assoc (absolute (r ∷ rs)) (slash ∷ []) t)
    ∙ split-append slash (absolute (r ∷ rs)) t
    ∙ ap (λ k. k ++ split slash t) (split-absolute r rs h)

split_nil : split slash [] ≡ [] ∷ []
unfolding split
split_nil = refl

split_root : split slash (slash ∷ []) ≡ [] ∷ [] ∷ []
unfolding split
split_root = refl

-- What passes the string test is below the root: `/home/a/htdocs/x.com` does not admit
-- `/home/a/htdocs/x.com.evil`.
pub Below-of_has_prefix :
    (r : Bytes) (rs ts : List Bytes)
    → All IsPart (r ∷ rs)
    → All IsPart ts
    → has_prefix (absolute (r ∷ rs) ++ slash ∷ []) (absolute ts) ≡ true
    → Below (r ∷ rs) (absolute ts)
unfolding join
Below-of_has_prefix r rs [] hr ht h =
    let (t, e) = rest_of_prefix (absolute (r ∷ rs) ++ slash ∷ []) (absolute []) h in
    let same : [] ∷ [] ∷ [] ≡ [] ∷ r ∷ (rs ++ split slash t) =
      sym split_root ∙ ap (split slash) e ∙ split-below r rs t hr in
    absurd (hr.0.0 (cc))
Below-of_has_prefix r rs (x ∷ xs) hr ht h =
    let (t, e) = rest_of_prefix (absolute (r ∷ rs) ++ slash ∷ []) (absolute (x ∷ xs)) h in
    let (w, ws, p) = split-cons slash t in
    let same : [] ∷ x ∷ xs ≡ [] ∷ r ∷ (rs ++ w ∷ ws) =
      sym (split-absolute x xs ht)
      ∙ ap (split slash) e
      ∙ split-below r rs t hr
      ∙ ap (λ k. [] ∷ r ∷ (rs ++ k)) p in
    let whole : x ∷ xs ≡ (r ∷ rs) ++ w ∷ ws = cc in
    (
      w,
      ws,
      ap absolute whole,
      All-append_right IsPart (r ∷ rs) (w ∷ ws) (subst (All IsPart) whole ht),
    )

up_to_slash-no_slash : (w : Bytes) → NoByte slash w → any (λ b. b == slash) w ≡ false
up_to_slash-no_slash [] h = refl
up_to_slash-no_slash (c ∷ w) (p, h) = ground (arith, up_to_slash-no_slash w h)

any-slash : (s w : Bytes) → any (λ b. b == slash) (s ++ slash ∷ w) ≡ true
any-slash [] w = refl
any-slash (c ∷ s) w = ground (arith, any-slash s w)

up_to_slash-nil : (w : Bytes) → NoByte slash w → up_to_slash w ≡ []
unfolding up_to_slash
up_to_slash-nil [] h = refl
up_to_slash-nil (c ∷ w) (p, h) = ground (arith, up_to_slash-no_slash w h)

up_to_slash-name : (s w : Bytes) → NoByte slash w → up_to_slash (s ++ slash ∷ w) ≡ s ++ slash ∷ []
unfolding up_to_slash
up_to_slash-name [] w h = rw (up_to_slash-nil w h)
up_to_slash-name (c ∷ s) w h = ground (arith, up_to_slash-name s w h, any-slash s w)

clean-slash : (ws : List Bytes) → All IsPart ws → clean (absolute ws ++ slash ∷ []) ≡ absolute ws
unfolding clean join_path join walk step
clean-slash ws h = join_path-absolute ws [] h ∙ ap absolute (reverse-reverse ws)

-- Dir drops the last name of a clean absolute path.
pub dir-absolute :
    (ws : List Bytes) (w : Bytes)
    → All IsPart ws
    → IsPart w
    → dir (absolute (ws ++ w ∷ [])) ≡ absolute ws
unfolding dir join
dir-absolute [] w h p = ap clean (up_to_slash-name [] w p.3) ∙ clean_of_IsPart [] tt
dir-absolute (v ∷ ws) w h p =
    ap (λ k. clean (up_to_slash (slash ∷ k))) (join-append v ws w [])
    ∙ ap clean (up_to_slash-name (absolute (v ∷ ws)) w p.3)
    ∙ clean-slash (v ∷ ws) h

last_part-All :
    (w : Bytes) (ws : List Bytes) → All (NoByte slash) (w ∷ ws) → NoByte slash (last_part w ws)
unfolding last_part
last_part-All w [] h = h.0
last_part-All w (v ∷ ws) h = last_part-All v ws h.1

named-NoByte : (p : Bytes) → (named p ≡ slash ∷ []) ⊎ NoByte slash (named p)
unfolding named
named-NoByte [] = inl refl
named-NoByte (c ∷ s) = inr (last_part-All [] (split slash (c ∷ s)) (tt, split-NoByte slash (c ∷ s)))

-- Base gives `/` or a text with no slash.
pub base-NoByte : (p : Bytes) → (base p ≡ slash ∷ []) ⊎ NoByte slash (base p)
unfolding base
base-NoByte [] = inr (omega arith, tt)
base-NoByte (c ∷ s) = named-NoByte (strip_slashes (c ∷ s))

suffix_split : (p s : Bytes) → has_suffix p s ≡ true → (x : Bytes) × (s ≡ x ++ p)
unfolding has_suffix
suffix_split p [] h = ([], sym ((bytes_beq_iff p []).0 h))
suffix_split p (c ∷ s) h = elim (Bool-cases (p == c ∷ s)) [
  | inl e ↦ ([], sym ((bytes_beq_iff p (c ∷ s)).0 e))
  | inr e ↦ let (x, q) = suffix_split p s (ground arith) in (c ∷ x, ap (λ k. c ∷ k) q)
]

-- No clean path but the root ends in a slash.
pub no_slash_suffix :
    (t : Bytes) (ts : List Bytes)
    → All IsPart (t ∷ ts)
    → has_suffix (slash ∷ []) (absolute (t ∷ ts)) ≡ false
no_slash_suffix t ts h = elim (Bool-cases (has_suffix (slash ∷ []) (absolute (t ∷ ts)))) [
  | inr e ↦ e
  | inl e ↦
      let (x, q) = suffix_split (slash ∷ []) (absolute (t ∷ ts)) e in
      let (w, ws, p) = split-cons slash x in
      let same : [] ∷ t ∷ ts ≡ w ∷ (ws ++ [] ∷ []) =
        sym (split-absolute t ts h)
        ∙ ap (split slash) q
        ∙ split-append slash x []
        ∙ ap (λ k. k ++ split slash []) p
        ∙ ap (λ k. w ∷ (ws ++ k)) split_nil in
      let rest : t ∷ ts ≡ ws ++ [] ∷ [] = cc in
      absurd ((All-append_right IsPart ws ([] ∷ []) (subst (All IsPart) rest h)).0.0 refl)
]

-- Dir of an absolute path is an absolute path of names.
pub dir_of_absolute :
    (s : Bytes) → (ws : List Bytes) × (dir (slash ∷ s) ≡ absolute ws) × All IsPart ws
unfolding dir up_to_slash
dir_of_absolute s = clean-absolute (up_to_slash s)
