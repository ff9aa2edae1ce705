-- ===== src/Files/Sort/Laws.antt =====
-- The order of a listing.
use mathlib.Core.List.{Perm, append-nil, perm_middle}
use mathlib.Core.List.Perm
use aura_cp.Prelude.{
  ◌≡◌, refl, true, false, List, [], ◌∷◌, ◌++◌, Bytes, arith, ltz, pos, ℤ, All, Bool-cases, inl, inr,
  subst,
}
use aura_cp.Os.{Kernel}
use aura_cp.Files.Sort.{compare_bytes, sink, sort_onto, unroll, sort_entries, by_name_ci}

-- What sorting needs of a comparison.
pub record IsOrder {A : Type 0} (less : A → A → ℤ) : Type 0 where
  pub total : (a b : A) → ltz (pos 0) (less a b) ≡ true → ltz (pos 0) (less b a) ≡ false
  pub trans :
      (a b c : A)
      → ltz (pos 0) (less a b) ≡ false
      → ltz (pos 0) (less b c) ≡ false
      → ltz (pos 0) (less a c) ≡ false

module _ {A : Type 0} (less : A → A → ℤ) where
  -- a does not come after b
  abbrev pub Le : A → A → Type 0
  Le a b = ltz (pos 0) (less a b) ≡ false

  abbrev pub IsAscending : List A → Type 0
  IsAscending [] = Unit
  IsAscending (x ∷ xs) = All (Le x) xs × IsAscending xs

  abbrev IsDescending : List A → Type 0
  IsDescending [] = Unit
  IsDescending (x ∷ xs) = All (λ y. Le y x) xs × IsDescending xs

  sink-perm : (x : A) (s : List A) → Perm (sink less x s) (x ∷ s)
  unfolding sink
  sink-perm x [] = Perm.refl (x ∷ [])
  sink-perm x (y ∷ s) = elim (Bool-cases (ltz (pos 0) (less y x))) [
    | inl e ↦ rw e (Perm.trans (Perm.cons y (sink-perm x s)) (Perm.swap x y s))
    | inr e ↦ rw e (Perm.refl (x ∷ y ∷ s))
  ]

  sort_onto-perm : (sorted xs : List A) → Perm (sort_onto less sorted xs) (xs ++ sorted)
  unfolding sort_onto
  sort_onto-perm sorted [] = Perm.refl sorted
  sort_onto-perm sorted (x ∷ xs) =
      Perm.trans (sort_onto-perm (sink less x sorted) xs)
        (Perm.trans (Perm.append (Perm.refl xs) (sink-perm x sorted)) (perm_middle xs sorted))

  unroll-perm : (s out : List A) → Perm (unroll less s out) (s ++ out)
  unfolding unroll
  unroll-perm [] out = Perm.refl out
  unroll-perm (x ∷ s) out = Perm.trans (unroll-perm s (x ∷ out)) (perm_middle s out)

  -- Sorting keeps every element, as often as it was there.
  pub sort_entries-perm : (xs : List A) → Perm (sort_entries less xs) xs
  unfolding sort_entries
  sort_entries-perm xs = Perm.trans (unroll-perm (sort_onto less [] xs) []) (
      rw (append-nil (sort_onto less [] xs))
        (subst (Perm (sort_onto less [] xs)) (append-nil xs) (sort_onto-perm [] xs)))

  module _ (o : IsOrder less) where
    All-sink : (P : A → Type 0) (x : A) (s : List A) → P x → All P s → All P (sink less x s)
    unfolding sink
    All-sink P x [] p h = (p, tt)
    All-sink P x (y ∷ s) p (q, h) = elim (Bool-cases (ltz (pos 0) (less y x))) [
      | inl e ↦ rw e (q, All-sink P x s p h)
      | inr e ↦ rw e (p, (q, h))
    ]

    All-Le : (x y : A) (s : List A) → Le y x → All (λ z. Le z y) s → All (λ z. Le z x) s
    All-Le x y [] h a = tt
    All-Le x y (z ∷ s) h (p, a) = (o.trans z y x p h, All-Le x y s h a)

    sink-IsDescending : (x : A) (s : List A) → IsDescending s → IsDescending (sink less x s)
    unfolding sink
    sink-IsDescending x [] h = (tt, tt)
    sink-IsDescending x (y ∷ s) (a, h) = elim (Bool-cases (ltz (pos 0) (less y x))) [
      | inl e ↦ rw e (All-sink (λ z. Le z y) x s (o.total y x e) a, sink-IsDescending x s h)
      | inr e ↦ rw e ((e, All-Le x y s e a), (a, h))
    ]

    sort_onto-IsDescending : (s xs : List A) → IsDescending s → IsDescending (sort_onto less s xs)
    unfolding sort_onto
    sort_onto-IsDescending s [] h = h
    sort_onto-IsDescending s (x ∷ xs) h =
        sort_onto-IsDescending (sink less x s) xs (sink-IsDescending x s h)

    Below : List A → List A → Type 0
    Below s out = All (λ z. All (Le z) out) s

    Below-cons : (x : A) (s out : List A) → All (λ z. Le z x) s → Below s out → Below s (x ∷ out)
    unfolding Below
    Below-cons x [] out a b = tt
    Below-cons x (z ∷ s) out (p, a) (q, b) = ((p, q), Below-cons x s out a b)

    unroll-IsAscending :
        (s out : List A)
        → IsDescending s
        → IsAscending out
        → Below s out
        → IsAscending (unroll less s out)
    unfolding unroll Below
    unroll-IsAscending [] out d a b = a
    unroll-IsAscending (x ∷ s) out (h, d) a (p, b) =
        unroll-IsAscending s (x ∷ out) d (p, a) (Below-cons x s out h b)

    Below-nil : (s : List A) → Below s []
    unfolding Below
    Below-nil [] = tt
    Below-nil (x ∷ s) = (tt, Below-nil s)

    sort_onto-All :
        (P : A → Type 0) (s xs : List A) → All P s → All P xs → All P (sort_onto less s xs)
    unfolding sort_onto
    sort_onto-All P s [] h a = h
    sort_onto-All P s (x ∷ xs) h (p, a) = sort_onto-All P (sink less x s) xs (All-sink P x s p h) a

    unroll-All : (P : A → Type 0) (s out : List A) → All P s → All P out → All P (unroll less s out)
    unfolding unroll
    unroll-All P [] out h a = a
    unroll-All P (x ∷ s) out (p, h) a = unroll-All P s (x ∷ out) h (p, a)

    pub sort_entries-All : (P : A → Type 0) (xs : List A) → All P xs → All P (sort_entries less xs)
    unfolding sort_entries
    sort_entries-All P xs h = unroll-All P (sort_onto less [] xs) [] (sort_onto-All P [] xs tt h) tt

    -- Sorting by an order puts every element after those that it is not less than.
    pub sort_entries-IsAscending : (xs : List A) → IsAscending (sort_entries less xs)
    unfolding sort_entries
    sort_entries-IsAscending xs =
        unroll-IsAscending (sort_onto less [] xs) [] (sort_onto-IsDescending [] xs tt) tt
          (Below-nil (sort_onto less [] xs))

compare_bytes-total :
    (s t : Bytes) → ltz (pos 0) (compare_bytes s t) ≡ true → ltz (pos 0) (compare_bytes t s) ≡ false
unfolding compare_bytes
compare_bytes-total [] [] h = cc
compare_bytes-total [] (d ∷ t) h = cc
compare_bytes-total (c ∷ s) [] h = refl
compare_bytes-total (c ∷ s) (d ∷ t) h = ground (arith, compare_bytes-total s t)

compare_bytes_trans :
    (s t u : Bytes)
    → ltz (pos 0) (compare_bytes s t) ≡ false
    → ltz (pos 0) (compare_bytes t u) ≡ false
    → ltz (pos 0) (compare_bytes s u) ≡ false
unfolding compare_bytes
compare_bytes_trans [] t [] h g = refl
compare_bytes_trans [] t (e ∷ u) h g = refl
compare_bytes_trans (c ∷ s) [] u h g = absurd (cc)
compare_bytes_trans (c ∷ s) (d ∷ t) [] h g = absurd (cc)
compare_bytes_trans (c ∷ s) (d ∷ t) (e ∷ u) h g = ground (arith, compare_bytes_trans s t u)

pub by_name_ci-IsOrder : {W : Type 0} (k : Kernel W) → IsOrder (by_name_ci k)
by_name_ci-IsOrder k = record {
  total = λ a b. compare_bytes-total (k.to_lower a.name) (k.to_lower b.name);
  trans = λ a b c. compare_bytes_trans (k.to_lower a.name) (k.to_lower b.name) (k.to_lower c.name);
}
