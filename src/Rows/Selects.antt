-- ===== src/Rows/Selects.antt =====
-- Which row a SELECT finds in a table that a statement has changed.
use aura_cp.Prelude.{
  ◌≡◌, refl, inl, inr, Bool, true, false, List, [], ◌∷◌, ◌++◌, Option, none, some, arith, any, keep,
  not, Bool-cases,
}
use aura_cp.Rows.{first, update}
use aura_cp.Rows.Laws.{keep-true, keep-false}

module _ {A : Type 0} where
  abbrev pub mapped : (A → A) → Option A → Option A
  mapped f none = none
  mapped f (some a) = some (f a)

  pub any-first : (p : A → Bool) (xs : List A) → any p xs ≡ false → first p xs ≡ none
  unfolding first
  any-first p [] h = refl
  any-first p (x ∷ xs) h = elim (Bool-cases (p x)) [
    | inl e ↦ absurd (ground (arith, e))
    | inr e ↦ rw e (any-first p xs (ground (arith, e)))
  ]

  -- A row put last is the first one that a SELECT finds only where it finds none before.
  pub first-append :
      (p : A → Bool) (xs : List A) (x : A)
      → first p xs ≡ none
      → p x ≡ true
      → first p (xs ++ x ∷ []) ≡ some x
  unfolding first
  first-append p [] x h e = rw e refl
  first-append p (y ∷ ys) x h e = elim (Bool-cases (p y)) [
    | inl b ↦ absurd (ground (arith, b))
    | inr b ↦ rw b (first-append p ys x (ground (arith, b)) e)
  ]

  pub first-append_other :
      (p : A → Bool) (xs : List A) (x : A) → p x ≡ false → first p (xs ++ x ∷ []) ≡ first p xs
  unfolding first
  first-append_other p [] x e = rw e refl
  first-append_other p (y ∷ ys) x e = elim (Bool-cases (p y)) [
    | inl b ↦ rw b refl
    | inr b ↦ rw b (first-append_other p ys x e)
  ]

  -- What an UPDATE makes of the row that a SELECT with the same condition finds.
  pub first-update :
      (p : A → Bool) (f : A → A) (xs : List A)
      → ((x : A) → p (f x) ≡ p x)
      → first p (update p f xs) ≡ mapped f (first p xs)
  unfolding first update
  first-update p f [] e = refl
  first-update p f (x ∷ xs) e = elim (Bool-cases (p x)) [
    | inl b ↦ rw (b, e x, b) refl
    | inr b ↦ rw (b, b) (first-update p f xs e)
  ]

  pub first-update_other :
      (p q : A → Bool) (f : A → A) (xs : List A)
      → ((x : A) → q x ≡ true → (p x ≡ false) × (p (f x) ≡ false))
      → first p (update q f xs) ≡ first p xs
  unfolding first update
  first-update_other p q f [] e = refl
  first-update_other p q f (x ∷ xs) e = elim (Bool-cases (q x)) [
    | inl b ↦ rw (b, (e x b).1, (e x b).0) (first-update_other p q f xs e)
    | inr b ↦ rw (b, first-update_other p q f xs e) refl
  ]

  pub any-found : (p : A → Bool) (xs : List A) → any p xs ≡ true → (a : A) × (first p xs ≡ some a)
  unfolding first
  any-found p [] h = cc
  any-found p (x ∷ xs) h = elim (Bool-cases (p x)) [
    | inl e ↦ (x, rw e refl)
    | inr e ↦ let (a, found) = any-found p xs (ground (arith, e)) in (a, rw e found)
  ]

  -- A DELETE leaves no row that meets its condition, and every other row.
  pub first-kept : (p : A → Bool) (xs : List A) → first p (keep (λ x. not (p x)) xs) ≡ none
  unfolding first keep
  first-kept p [] = refl
  first-kept p (x ∷ xs) = elim (Bool-cases (p x)) [
    | inl e ↦ rw (keep-false (λ y. not (p y)) x xs (ground (arith, e))) (first-kept p xs)
    | inr e ↦ rw (keep-true (λ y. not (p y)) x xs (ground (arith, e)), e) (first-kept p xs)
  ]

  pub first-keep_other :
      (p q : A → Bool) (xs : List A)
      → ((x : A) → q x ≡ false → p x ≡ false)
      → first p (keep q xs) ≡ first p xs
  unfolding first keep
  first-keep_other p q [] h = refl
  first-keep_other p q (x ∷ xs) h = elim (Bool-cases (q x)) [
    | inl e ↦ rw (keep-true q x xs e, first-keep_other p q xs h) refl
    | inr e ↦ rw (keep-false q x xs e, h x e) (first-keep_other p q xs h)
  ]
