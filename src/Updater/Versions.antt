-- ===== src/Updater/Versions.antt =====
-- Comparing versions is comparing the lists of their numbers.
use aura_cp.Prelude.{
  ℕ, suc, zero, ◌+◌, ◌<◌, ◌≡◌, refl, sym, ap, ◌∙◌, ◌⊎◌, inl, inr, Bool, true, false, ◌&&◌, List, [],
  ◌∷◌, map, Option, none, some, arith, Bytes, ◌==◌, bytes_eq, nat_eq, nat_beq, ltb, length,
  Bool-cases, ℤ, pos, negsuc, ltz, eqz,
}
use aura_cp.Prelude.Text.{split, atoi}
use aura_cp.Updater.{
  split_first, value, first_difference, settled, compare_from, compare_versions, stripped,
}

-- The first difference of two lists of numbers decides; a missing number counts as zero.
abbrev pub lexicographic : List ℤ → List ℤ → ℤ
lexicographic [] [] = pos 0
lexicographic (x ∷ xs) [] = first_difference x (pos 0) (lexicographic xs [])
lexicographic [] (y ∷ ys) = first_difference (pos 0) y (lexicographic [] ys)
lexicographic (x ∷ xs) (y ∷ ys) = first_difference x y (lexicographic xs ys)

abbrev pub numbers : Bytes → List ℤ
numbers s = map value (split 46 s)

-- A text with no dot, or a part, a dot and the rest.
split_first-split :
    (s : Bytes)
    → ((split_first s).1 ≡ []) × (split 46 s ≡ (split_first s).0 ∷ [])
      ⊎ ((split 46 s ≡ (split_first s).0 ∷ split 46 (split_first s).1)
          × (length (split_first s).1 < length s))
unfolding split_first split
split_first-split [] = inl (refl, refl)
split_first-split (c ∷ s) = elim (Bool-cases (c == 46)) [
  | inl e ↦ rw e (inr (refl, omega arith))
  | inr e ↦ elim (split_first-split s) [
    | inl (none_left, one) ↦ rw (e, one) (inl (none_left, refl))
    | inr (more, lt) ↦ rw (e, more) (inr (refl, omega (arith, lt)))
  ]
]

abbrev pub negate : ℤ → ℤ
negate (pos zero) = pos zero
negate (pos (suc n)) = negsuc n
negate (negsuc n) = pos (suc n)

abbrev Tests : Bool → Bool → Bool → ℕ → ℕ → Type 0
Tests e l g a b = (nat_beq a b ≡ e) × (nat_beq b a ≡ e) × (ltb a b ≡ l) × (ltb b a ≡ g)

Nat-cases :
    (a b : ℕ) → Tests true false false a b ⊎ Tests false true false a b ⊎ Tests false false true a b
Nat-cases a b = elim (Bool-cases (ltb a b)) [
  | inl l ↦ inr (inl (ground arith, ground arith, l, ground arith))
  | inr l ↦ elim (Bool-cases (ltb b a)) [
    | inl g ↦ inr (inr (ground arith, ground arith, l, g))
    | inr g ↦ inl (ground arith, ground arith, l, g)
  ]
]

first_difference_swap :
    (x y r : ℤ) → first_difference y x (negate r) ≡ negate (first_difference x y r)
first_difference_swap (pos a) (pos b) r = elim (Nat-cases a b) [
  | inl (e, e', l, l') ↦ rw (e, e') refl
  | inr (inl (e, e', l, l')) ↦ rw (e, e', l, l') refl
  | inr (inr (e, e', l, l')) ↦ rw (e, e', l, l') refl
]
first_difference_swap (pos a) (negsuc b) r = refl
first_difference_swap (negsuc a) (pos b) r = refl
first_difference_swap (negsuc a) (negsuc b) r = elim (Nat-cases a b) [
  | inl (e, e', l, l') ↦ rw (e, e') refl
  | inr (inl (e, e', l, l')) ↦ rw (e, e', l, l') refl
  | inr (inr (e, e', l, l')) ↦ rw (e, e', l, l') refl
]

lexicographic_antisym : (xs ys : List ℤ) → lexicographic ys xs ≡ negate (lexicographic xs ys)
lexicographic_antisym [] [] = refl
lexicographic_antisym [] (y ∷ ys) =
    ap (first_difference y (pos 0)) (lexicographic_antisym [] ys)
    ∙ first_difference_swap (pos 0) y (lexicographic [] ys)
lexicographic_antisym (x ∷ xs) [] =
    ap (first_difference (pos 0) x) (lexicographic_antisym xs [])
    ∙ first_difference_swap x (pos 0) (lexicographic xs [])
lexicographic_antisym (x ∷ xs) (y ∷ ys) =
    ap (first_difference y x) (lexicographic_antisym xs ys)
    ∙ first_difference_swap x y (lexicographic xs ys)

trailing_zero :
    (x : ℤ) (ys : List ℤ) → lexicographic (x ∷ pos 0 ∷ []) ys ≡ lexicographic (x ∷ []) ys
trailing_zero x [] = refl
trailing_zero x (y ∷ []) = refl
trailing_zero x (y ∷ y' ∷ ys) = refl

zero_trailing :
    (y : ℤ) (xs : List ℤ) → lexicographic xs (y ∷ pos 0 ∷ []) ≡ lexicographic xs (y ∷ [])
zero_trailing y [] = refl
zero_trailing y (x ∷ []) = refl
zero_trailing y (x ∷ x' ∷ xs) = refl

-- One round of the loop takes off the first number of each list.
numbers_left :
    (s : Bytes) (ys : List ℤ)
    → lexicographic (numbers s) ys
      ≡ lexicographic (value (split_first s).0 ∷ numbers (split_first s).1) ys
unfolding split atoi
numbers_left s ys = elim (split_first-split s) [
  | inl (none_left, one) ↦ rw (one, none_left) (sym (trailing_zero (value (split_first s).0) ys))
  | inr (more, lt) ↦ rw more refl
]

numbers_right :
    (s : Bytes) (xs : List ℤ)
    → lexicographic xs (numbers s)
      ≡ lexicographic xs (value (split_first s).0 ∷ numbers (split_first s).1)
unfolding split atoi
numbers_right s xs = elim (split_first-split s) [
  | inl (none_left, one) ↦ rw (one, none_left) (sym (zero_trailing (value (split_first s).0) xs))
  | inr (more, lt) ↦ rw more refl
]

-- A round that is not the last leaves less.
shorter :
    (a b : Bytes)
    → (((split_first a).1 == []) && ((split_first b).1 == [])) ≡ false
    → length (split_first a).1 + length (split_first b).1 < length a + length b
shorter a b h = elim (split_first-split a) [
  | inl (p, one) ↦ elim (split_first-split b) [
    | inl (q, one') ↦ absurd (ground (arith, rw (p, q) at h))
    | inr (more, lt) ↦ rw (ap length p) (omega (arith, lt))
  ]
  | inr (more, lt) ↦ elim (split_first-split b) [
    | inl (q, one') ↦ rw (ap length q) (omega (arith, lt))
    | inr (more', lt') ↦ omega (arith, lt, lt')
  ]
]

settled-some : (x y r : ℤ) → settled x y (some r) ≡ some (first_difference x y r)
settled-some x y r = elim (Bool-cases (eqz x y)) [
  | inl e ↦ rw e refl
  | inr e ↦ elim (Bool-cases (ltz y x)) [ inl l ↦ rw (e, l) refl | inr l ↦ rw (e, l) refl ]
]

both_empty :
    (s t : Bytes) → ((s == []) && (t == [])) ≡ true → lexicographic (numbers s) (numbers t) ≡ pos 0
unfolding split atoi
both_empty [] [] h = refl
both_empty [] (y ∷ t) h = absurd (ground (arith, h))
both_empty (x ∷ s) t h = absurd (ground (arith, h))

compare_from_lem :
    (f : ℕ) (a b : Bytes)
    → length a + length b < f
    → compare_from f a b ≡ some (lexicographic (numbers a) (numbers b))
unfolding compare_from
compare_from_lem zero a b lt = absurd (omega (arith, lt))
compare_from_lem (suc f) a b lt =
    elim (Bool-cases (((split_first a).1 == []) && ((split_first b).1 == []))) [
      | inl e ↦ ap (settled x y) (rw e (ap some (sym (both_empty _ _ e)))) ∙ done
      | inr e ↦
          ap (settled x y) (rw e (compare_from_lem f _ _ (omega (arith, lt, shorter a b e)))) ∙ done
    ]
  where
    x : ℤ
    x = value (split_first a).0

    y : ℤ
    y = value (split_first b).0

    done :
        settled x y (some (lexicographic (numbers (split_first a).1) (numbers (split_first b).1)))
        ≡ some (lexicographic (numbers a) (numbers b))
    done =
        settled-some x y _
        ∙ ap some
            (sym (numbers_left a (numbers b) ∙ numbers_right b (x ∷ numbers (split_first a).1)))

-- The comparison of versions always ends, and answers what comparing the numbers between the dots
-- does, one after the other, where a missing number is zero.
pub compare_versions_lem :
    (a b : Bytes)
    → compare_versions a b ≡ some (lexicographic (numbers (stripped a)) (numbers (stripped b)))
unfolding compare_versions
compare_versions_lem a b =
    compare_from_lem (suc (length (stripped a) + length (stripped b))) (stripped a) (stripped b)
      (omega arith)

abbrev pub negated : Option ℤ → Option ℤ
negated none = none
negated (some z) = some (negate z)

-- Swapping the two versions changes the sign of the comparison, so equal versions are equal both
-- ways, and of two others exactly one is newer.
pub compare_versions_antisym : (a b : Bytes) → compare_versions b a ≡ negated (compare_versions a b)
compare_versions_antisym a b =
    compare_versions_lem b a
    ∙ ap some (lexicographic_antisym (numbers (stripped a)) (numbers (stripped b)))
    ∙ sym (ap negated (compare_versions_lem a b))
