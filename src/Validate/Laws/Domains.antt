-- ===== src/Validate/Laws/Domains.antt =====
-- Domain names.
use mathlib.Core.List.{append-nil, append_assoc}
use aura_cp.Prelude.{
  ℕ, ◌+◌, ◌≤◌, ◌≡◌, refl, sym, ap, ◌∙◌, ◌≢◌, inl, inr, Bool, true, false, [], ◌∷◌, ◌++◌, Bytes,
  codes, arith, length, All, All-map, ok, ◌==◌, nat_eq, subst,
}
use aura_cp.Prelude.Text.{has_prefix, contains}
use aura_cp.Regex.{Regex, seq, star, opt, byte, match_string, in_class}
use aura_cp.Regex.Matches.{
  Matches, of_empty, of_class, of_seq, of_left, of_right, of_none, of_more, alphabet, Matches-All,
  match_string_sound, match_string_complete, seq_inv, alt_inv, empty_inv, class_inv,
}
use aura_cp.Filepath.{slash}
use aura_cp.Filepath.Laws.{IsPart}
use aura_cp.Validate.{lower, upper, digit, folded_alnum, label, domain_re, domain}

domain-parts : (d : Bytes) → domain d ≡ ok tt → (length d ≤ 253) × (match_string domain_re d ≡ true)
unfolding domain
domain-parts d h = ground arith

domain-Matches : (d : Bytes) → domain d ≡ ok tt → Matches domain_re d
domain-Matches d h = match_string_sound domain_re d (domain-parts d h).1

domain_of_Matches : (d : Bytes) → length d ≤ 253 → Matches domain_re d → domain d ≡ ok tt
unfolding domain
domain_of_Matches d h m = rw (match_string_complete domain_re d m) (ground arith)

-- A letter or digit is one byte or more, none of them a dash or a dot.
abbrev IsSolidByte : ℕ → Type 0
IsSolidByte c = (c ≢ b'-') × (c ≢ b'.')

alnum_byte : (c : ℕ) → in_class (lower ∷ upper ∷ digit ∷ []) c ≡ true → IsSolidByte c
alnum_byte c h = ground arith

one_byte : (k c : ℕ) → in_class ((k, k) ∷ []) c ≡ true → c ≡ k
one_byte k c h = ground arith

byte_inv : (k : ℕ) {s : Bytes} → Matches (byte k) s → s ≡ k ∷ []
byte_inv k m = let (c, e, h) = class_inv m in e ∙ ap (λ b. b ∷ []) (one_byte k c h)

folded_alnum-solid :
    (w : Bytes)
    → Matches folded_alnum w
    → (c : ℕ) × (s : Bytes) × (w ≡ c ∷ s) × All IsSolidByte (c ∷ s)
unfolding folded_alnum
folded_alnum-solid w m = elim (alt_inv m) [
  | inl h ↦ let (c, e, p) = class_inv h in (c, [], e, (alnum_byte c p, tt))
  | inr h ↦ elim (alt_inv h) [
    | inl k ↦
        let (s, t, e, ms, mt) = seq_inv k in
        (0xc5, 0xbf ∷ [], rw (e, byte_inv 0xc5 ms, byte_inv 0xbf mt), omega arith)
    | inr k ↦
        let (s, t, e, ms, mt) = seq_inv k in
        let (s', t', e', ms', mt') = seq_inv mt in
        (
          0xe2,
          0x84 ∷ 0xaa ∷ [],
          rw (e, byte_inv 0xe2 ms, e', byte_inv 0x84 ms', byte_inv 0xaa mt'),
          omega arith,
        )
  ]
]

-- No two dashes meet, where `dash` says whether the byte before was one.
abbrev Alternates : Bool → Bytes → Type 0
Alternates dash [] = Unit
Alternates dash (c ∷ s) = (dash ≡ true → c ≢ b'-') × Alternates (c == b'-') s

Alternates-weaken : (s : Bytes) → Alternates true s → Alternates false s
Alternates-weaken [] h = tt
Alternates-weaken (c ∷ s) h = (λ e. absurd (cc), h.1)

-- Words that begin and end with no dash, and words that end with none.
abbrev Solid : Bytes → Type 0
Solid w = (t : Bytes) → Alternates false t → Alternates true (w ++ t)

abbrev Soft : Bytes → Type 0
Soft w = (t : Bytes) → Alternates false t → Alternates false (w ++ t)

Solid-bytes : (c : ℕ) (s : Bytes) → All IsSolidByte (c ∷ s) → Solid (c ∷ s)
Solid-bytes c [] (h, _) t a = ((λ _. h.0), ground arith)
Solid-bytes c (d ∷ s) (h, hs) t a = (
  (λ _. h.0),
  subst (λ b. Alternates b (d ∷ (s ++ t))) (dash c h.0)
      (Alternates-weaken (d ∷ (s ++ t)) (Solid-bytes d s hs t a)),
)
  where
    dash : (c : ℕ) → c ≢ b'-' → false ≡ (c == b'-')
    dash c h = ground arith

Solid-of_folded_alnum : (w : Bytes) → Matches folded_alnum w → Solid w
Solid-of_folded_alnum w m =
    let (c, s, e, h) = folded_alnum-solid w m in subst Solid (sym e) (Solid-bytes c s h)

Solid-Soft : (v w : Bytes) → Solid v → Soft w → Solid (v ++ w)
Solid-Soft v w h k t a = rw (append_assoc v w t) (h (w ++ t) (k t a))

Soft-append : (v w : Bytes) → Soft v → Soft w → Soft (v ++ w)
Soft-append v w h k t a = rw (append_assoc v w t) (h (w ++ t) (k t a))

Soft-of_Solid : (w : Bytes) → Solid w → Soft w
Soft-of_Solid w h t a = Alternates-weaken (w ++ t) (h t a)

-- Repeating an expression whose words are soft gives soft words.
Soft-star :
    {r : Regex} (h : (w : Bytes) → Matches r w → Soft w) {s : Bytes} → Matches (star r) s → Soft s
Soft-star h of_none = λ t a. a
Soft-star h (of_more c v w e mv mw) =
    subst Soft (sym e) (Soft-append (c ∷ v) w (h (c ∷ v) mv) (Soft-star h mw))

Soft-dash : (w : Bytes) → Matches (seq (opt (byte b'-')) folded_alnum) w → Soft w
Soft-dash w m =
    let (u, v, e, mu, mv) = seq_inv m in
    subst Soft (sym e) (elim (alt_inv mu) [
      | inl k ↦ rw (empty_inv k) (Soft-of_Solid v (Solid-of_folded_alnum v mv))
      | inr k ↦ rw (byte_inv b'-' k) (dashed v (Solid-of_folded_alnum v mv))
    ])
  where
    dashed : (v : Bytes) → Solid v → Soft (b'-' ∷ v)
    dashed v h t a = ((λ e. absurd (cc)), h t a)

Solid-of_label : (w : Bytes) → Matches label w → Solid w
unfolding label
Solid-of_label w m =
    let (u, v, e, mu, mv) = seq_inv m in
    subst Solid (sym e) (Solid-Soft u v (Solid-of_folded_alnum u mu) (Soft-star Soft-dash mv))

Soft-dot_label : (w : Bytes) → Matches (seq (byte b'.') label) w → Soft w
Soft-dot_label w m =
    let (u, v, e, mu, mv) = seq_inv m in
    subst Soft (sym (e ∙ ap (λ k. k ++ v) (byte_inv b'.' mu))) (dotted v (Solid-of_label v mv))
  where
    dotted : (v : Bytes) → Solid v → Soft (b'.' ∷ v)
    dotted v h t a = ((λ e. absurd (cc)), Alternates-weaken (v ++ t) (h t a))

Soft_of_domain : (d : Bytes) → Matches domain_re d → Solid d
unfolding domain_re
Soft_of_domain d m =
    let (u, v, e, mu, mv) = seq_inv m in
    let (x, y, e', mx, my) = seq_inv mv in
    subst Solid (sym (e ∙ ap (λ k. u ++ k) e')) (
      Solid-Soft u (x ++ y) (Solid-of_label u mu)
        (Soft-append x y (Soft-dot_label x mx) (Soft-star Soft-dot_label my)))

no_slash : (b : ℕ) → alphabet domain_re b ≡ true → b ≢ slash
unfolding alphabet domain_re label folded_alnum
no_slash b h e = absurd (cc (rw e at h))

abbrev double_dash : Bytes
double_dash = codes "--"

Alternates-no_double :
    (dash : Bool) (s : Bytes) → Alternates dash s → contains double_dash s ≡ false
unfolding contains has_prefix
Alternates-no_double dash [] h = refl
Alternates-no_double dash (c ∷ []) h = ground arith
Alternates-no_double dash (c ∷ d ∷ s) h =
    ground (arith, Alternates-no_double (c == b'-') (d ∷ s) h.1)

-- An accepted domain never holds two dashes in a row, so no internationalised name in its
-- `xn--` form is accepted.
pub domain-no_double_dash : (d : Bytes) → domain d ≡ ok tt → contains (codes "--") d ≡ false
domain-no_double_dash d h =
    Alternates-no_double true d
      (subst (Alternates true) (append-nil d) (Soft_of_domain d (domain-Matches d h) [] tt))

-- An accepted domain is a name in a directory: it is not empty, holds no slash and is neither `.`
-- nor `..`.
pub IsPart_of_domain : (d : Bytes) → domain d ≡ ok tt → IsPart d
unfolding domain_re label
IsPart_of_domain d h =
    let m = domain-Matches d h in
    let (u, v, e, mu, mv) = seq_inv m in
    let (x, y, e', mx, my) = seq_inv mu in
    let (c, s, p, (solid, _)) = folded_alnum-solid x mx in
    let whole : d ≡ c ∷ (s ++ y ++ v) = e ∙ ap (λ k. k ++ v) (e' ∙ ap (λ k. k ++ y) p) in
    (
      λ q. absurd (cc),
      λ q. solid.1 (cc),
      λ q. solid.1 (cc),
      All-map (λ b. alphabet domain_re b ≡ true) (λ b. b ≢ slash) d no_slash (Matches-All m),
    )

long_s : Matches folded_alnum (0xc5 ∷ 0xbf ∷ [])
unfolding folded_alnum
long_s = of_right (of_left (of_seq (0xc5 ∷ []) (0xbf ∷ []) refl (of_class refl) (of_class refl)))

-- The class for letters folds case by Unicode: the long s in front of an accepted domain gives an
-- accepted domain, as far as the length allows.
domain-long_s :
    (d : Bytes) → domain d ≡ ok tt → length d + 2 ≤ 253 → domain (0xc5 ∷ 0xbf ∷ d) ≡ ok tt
unfolding domain_re label folded_alnum
domain-long_s d h short =
    let m = domain-Matches d h in
    let (u, v, e, mu, mv) = seq_inv m in
    let (x, y, e', mx, my) = seq_inv mu in
    let (c, s, p, _) = folded_alnum-solid x mx in
    let rest : Matches (star (seq (opt (byte b'-')) folded_alnum)) u =
      of_more c s y (e' ∙ ap (λ k. k ++ y) p)
        (of_seq [] (c ∷ s) refl (of_left of_empty) (subst (Matches folded_alnum) p mx)) my in
    let first : Matches label (0xc5 ∷ 0xbf ∷ u) = of_seq (0xc5 ∷ 0xbf ∷ []) u refl long_s rest in
    domain_of_Matches (0xc5 ∷ 0xbf ∷ d) (omega arith)
      (of_seq (0xc5 ∷ 0xbf ∷ u) v (ap (λ k. 0xc5 ∷ 0xbf ∷ k) e) first mv)
