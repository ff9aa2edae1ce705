-- ===== src/Rows/Laws.antt =====
-- Rows of a table: which are there, and what statements do to them.
use aura_cp.Prelude.{
  ◌≡◌, refl, ◌⊎◌, inl, inr, Bool, true, false, List, [], ◌∷◌, ◌++◌, Option, some, arith,
  if◌then◌else◌, All, any, keep, Bool-cases, subst, ◌∙◌,
}
use aura_cp.Rows.{first, update}

module _ {A : Type 0} where
  -- Some row of the table satisfies P.
  abbrev pub Any : (A → Type 0) → List A → Type 0
  Any P [] = ⊥
  Any P (x ∷ xs) = P x ⊎ Any P xs

  pub Any-map : (P Q : A → Type 0) (xs : List A) → ((x : A) → P x → Q x) → Any P xs → Any Q xs
  Any-map P Q [] f h = h
  Any-map P Q (x ∷ xs) f (inl h) = inl (f x h)
  Any-map P Q (x ∷ xs) f (inr h) = inr (Any-map P Q xs f h)

  pub All-Any : (P Q : A → Type 0) (xs : List A) → All P xs → Any Q xs → Any (λ x. P x × Q x) xs
  All-Any P Q [] a h = h
  All-Any P Q (x ∷ xs) a (inl h) = inl (a.0, h)
  All-Any P Q (x ∷ xs) a (inr h) = inr (All-Any P Q xs a.1 h)

  taken :
      (b : Bool) (x a : A) (rest : Option A)
      → b ≡ true
      → (if b then some x else rest) ≡ some a
      → x ≡ a
  taken b x a rest e h = ground arith

  passed :
      (b : Bool) (x a : A) (rest : Option A)
      → b ≡ false
      → (if b then some x else rest) ≡ some a
      → rest ≡ some a
  passed b x a rest e h = ground arith

  -- A row that a SELECT finds is there, and meets the condition.
  pub first-Any :
      (p : A → Bool) (xs : List A) (a : A)
      → first p xs ≡ some a
      → Any (λ x. (x ≡ a) × (p a ≡ true)) xs
  unfolding first
  first-Any p [] a h = cc
  first-Any p (x ∷ xs) a h = elim (Bool-cases (p x)) [
    | inl e ↦
        let same = taken (p x) x a (first p xs) e h in inl (same, subst (λ y. p y ≡ true) same e)
    | inr e ↦ inr (first-Any p xs a (passed (p x) x a (first p xs) e h))
  ]

  pub first-any :
      (p : A → Bool) (xs : List A) (a : A) → first p xs ≡ some a → (any p xs ≡ true) × (p a ≡ true)
  unfolding first
  first-any p [] a h = cc
  first-any p (x ∷ xs) a h = elim (Bool-cases (p x)) [
    | inl e ↦ (rw e refl, subst (λ y. p y ≡ true) (taken (p x) x a (first p xs) e h) e)
    | inr e ↦
        let (there, meets) = first-any p xs a (passed (p x) x a (first p xs) e h) in
        (rw (e, there) refl, meets)
  ]

  pub any-append : (p : A → Bool) (xs ys : List A) → any p xs ≡ true → any p (xs ++ ys) ≡ true
  any-append p [] ys h = cc
  any-append p (x ∷ xs) ys h = ground (arith, any-append p xs ys)

  pub any-append_right : (p : A → Bool) (xs ys : List A) → any p ys ≡ true → any p (xs ++ ys) ≡ true
  any-append_right p [] ys h = h
  any-append_right p (x ∷ xs) ys h = ground (arith, any-append_right p xs ys h)

  pub All-any : (p : A → Bool) (xs : List A) → All (λ x. p x ≡ false) xs → any p xs ≡ false
  All-any p [] h = refl
  All-any p (x ∷ xs) h = ground (arith, All-any p xs h.1)

  -- What an UPDATE does not touch stays as it was.
  pub any-update :
      (p q : A → Bool) (f : A → A) (xs : List A)
      → ((x : A) → p (f x) ≡ p x)
      → any p (update q f xs) ≡ any p xs
  unfolding update
  any-update p q f [] e = refl
  any-update p q f (x ∷ xs) e = elim (Bool-cases (q x)) [
    | inl b ↦ rw (b, e x, any-update p q f xs e) refl
    | inr b ↦ rw (b, any-update p q f xs e) refl
  ]

  pub All-update :
      (P : A → Type 0) (q : A → Bool) (f : A → A) (xs : List A)
      → ((x : A) → P x → P (f x))
      → All P xs
      → All P (update q f xs)
  unfolding update
  All-update P q f [] e h = tt
  All-update P q f (x ∷ xs) e h = elim (Bool-cases (q x)) [
    | inl b ↦ rw b (e x h.0, All-update P q f xs e h.1)
    | inr b ↦ rw b (h.0, All-update P q f xs e h.1)
  ]

  pub keep-true :
      (q : A → Bool) (x : A) (xs : List A) → q x ≡ true → keep q (x ∷ xs) ≡ x ∷ keep q xs
  unfolding keep
  keep-true q x xs h = rw (h, keep) refl

  pub keep-false : (q : A → Bool) (x : A) (xs : List A) → q x ≡ false → keep q (x ∷ xs) ≡ keep q xs
  unfolding keep
  keep-false q x xs h = rw (h, keep) refl

  pub All-keep : (P : A → Type 0) (q : A → Bool) (xs : List A) → All P xs → All P (keep q xs)
  unfolding keep
  All-keep P q [] h = tt
  All-keep P q (x ∷ xs) h = elim (Bool-cases (q x)) [
    | inl b ↦ rw (keep-true q x xs b) (h.0, All-keep P q xs h.1)
    | inr b ↦ rw (keep-false q x xs b) (All-keep P q xs h.1)
  ]

  pub All-kept : (q : A → Bool) (xs : List A) → All (λ x. q x ≡ true) (keep q xs)
  unfolding keep
  All-kept q [] = tt
  All-kept q (x ∷ xs) = elim (Bool-cases (q x)) [
    | inl b ↦ rw (keep-true q x xs b) (b, All-kept q xs)
    | inr b ↦ rw (keep-false q x xs b) (All-kept q xs)
  ]

  pub any-keep : (p q : A → Bool) (xs : List A) → any p xs ≡ false → any p (keep q xs) ≡ false
  unfolding keep
  any-keep p q [] h = refl
  any-keep p q (x ∷ xs) h = elim (Bool-cases (q x)) [
    | inl b ↦ rw (keep-true q x xs b) (ground (arith, any-keep p q xs))
    | inr b ↦ rw (keep-false q x xs b) (ground (arith, any-keep p q xs))
  ]

-- No two rows have the same key: a PRIMARY KEY or UNIQUE column.
module _ {A K : Type 0} (same : K → A → Bool) (key : A → K) where
  abbrev pub Distinct : List A → Type 0
  Distinct [] = Unit
  Distinct (x ∷ xs) = (any (same (key x)) xs ≡ false) × Distinct xs

  pub Distinct-update :
      (q : A → Bool) (f : A → A) (xs : List A)
      → ((k : K) (x : A) → same k (f x) ≡ same k x)
      → ((x : A) → key (f x) ≡ key x)
      → Distinct xs
      → Distinct (update q f xs)
  unfolding update
  Distinct-update q f [] e k h = tt
  Distinct-update q f (x ∷ xs) e k h = elim (Bool-cases (q x)) [
    | inl b ↦
        rw (b, k x)
          (any-update (same (key x)) q f xs (e (key x)) ∙ h.0, Distinct-update q f xs e k h.1)
    | inr b ↦
        rw b (any-update (same (key x)) q f xs (e (key x)) ∙ h.0, Distinct-update q f xs e k h.1)
  ]

  pub Distinct-keep : (q : A → Bool) (xs : List A) → Distinct xs → Distinct (keep q xs)
  unfolding keep
  Distinct-keep q [] h = tt
  Distinct-keep q (x ∷ xs) h = elim (Bool-cases (q x)) [
    | inl b ↦ rw (keep-true q x xs b) (any-keep (same (key x)) q xs h.0, Distinct-keep q xs h.1)
    | inr b ↦ rw (keep-false q x xs b) (Distinct-keep q xs h.1)
  ]

  -- A new row at the end whose key is not there yet.
  pub Distinct-append :
      (xs : List A) (y : A)
      → ((x : A) → same (key y) x ≡ same (key x) y)
      → any (same (key y)) xs ≡ false
      → Distinct xs
      → Distinct (xs ++ y ∷ [])
  Distinct-append [] y sym_key n h = (refl, tt)
  Distinct-append (x ∷ xs) y sym_key n h = (
    ground (arith, append-any (same (key x)) xs, sym_key x),
    Distinct-append xs y sym_key (ground arith) h.1,
  )
    where
      append-any :
          (p : A → Bool) (zs : List A)
          → any p zs ≡ false
          → p y ≡ false
          → any p (zs ++ y ∷ []) ≡ false
      append-any p [] n e = ground arith
      append-any p (z ∷ zs) n e = ground (arith, append-any p zs)
