-- ===== src/Regex/Matches.antt =====
-- What an expression means, and that the matcher decides it.
use aura_cp.Prelude.{
  ℕ, zero, suc, ◌≡◌, refl, sym, ap, ◌∙◌, ◌⊎◌, inl, inr, Bool, true, false, ◌||◌, List, [], ◌∷◌,
  ◌++◌, Bytes, arith, if◌then◌else◌, Bool-cases, ◌≤◌, length, All, All-append, All-map,
}
use aura_cp.Regex.{
  in_class, Regex, never, empty, class, seq, alt, star, up_to, nullable, deriv, match_string,
}

pub data Matches : Regex → Bytes → Type 0 where
  of_empty : Matches empty []
  of_class :
      {ranges : List (ℕ × ℕ)} {c : ℕ} → in_class ranges c ≡ true → Matches (class ranges) (c ∷ [])
  of_seq :
      {r q : Regex} (s t : Bytes) {u : Bytes}
      → u ≡ s ++ t
      → Matches r s
      → Matches q t
      → Matches (seq r q) u
  of_left : {r q : Regex} {s : Bytes} → Matches r s → Matches (alt r q) s
  of_right : {r q : Regex} {s : Bytes} → Matches q s → Matches (alt r q) s
  of_none : {r : Regex} → Matches (star r) []
  of_more :
      {r : Regex} (c : ℕ) (s t : Bytes) {u : Bytes}
      → u ≡ c ∷ (s ++ t)
      → Matches r (c ∷ s)
      → Matches (star r) t
      → Matches (star r) u

nil-append_inv : (s t : Bytes) → [] ≡ s ++ t → (s ≡ []) × (t ≡ [])
nil-append_inv [] t e = (refl, sym e)
nil-append_inv (x ∷ s) t e = absurd (cc)

-- A word that an expression matches splits off its first byte as the derivative says.
nullable_sound : (r : Regex) → nullable r ≡ true → Matches r []
unfolding nullable
nullable_sound never h = absurd (cc)
nullable_sound empty h = of_empty
nullable_sound (class ranges) h = absurd (cc)
nullable_sound (seq r q) h =
    of_seq [] [] refl (nullable_sound r (ground arith)) (nullable_sound q (ground arith))
nullable_sound (alt r q) h = elim (Bool-cases (nullable r)) [
  | inl e ↦ of_left (nullable_sound r e)
  | inr e ↦ of_right (nullable_sound q (ground arith))
]
nullable_sound (star r) h = of_none

nullable_complete : (r : Regex) (s : Bytes) → Matches r s → s ≡ [] → nullable r ≡ true
unfolding nullable
nullable_complete never s m e = elim m [ ]
nullable_complete empty s m e = refl
nullable_complete (class ranges) s (of_class h) e = absurd (cc)
nullable_complete (seq r q) u (of_seq s t p m n) e =
    let (es, et) = nil-append_inv s t (sym e ∙ p) in
    ground (arith, nullable_complete r s m es, nullable_complete q t n et)
nullable_complete (alt r q) s (of_left m) e = ground (arith, nullable_complete r s m e)
nullable_complete (alt r q) s (of_right m) e = ground (arith, nullable_complete q s m e)
nullable_complete (star r) s m e = refl

pub not-Matches-never : {s : Bytes} → ¬ Matches never s
not-Matches-never m = elim m [ ]

pub seq_inv :
    {r q : Regex} {u : Bytes}
    → Matches (seq r q) u
    → (s t : Bytes) × (u ≡ s ++ t) × Matches r s × Matches q t
seq_inv (of_seq s t e m n) = (s, t, e, m, n)

pub alt_inv : {r q : Regex} {s : Bytes} → Matches (alt r q) s → Matches r s ⊎ Matches q s
alt_inv (of_left m) = inl m
alt_inv (of_right m) = inr m

pub empty_inv : {s : Bytes} → Matches empty s → s ≡ []
empty_inv of_empty = refl

pub class_inv :
    {ranges : List (ℕ × ℕ)} {s : Bytes}
    → Matches (class ranges) s
    → (c : ℕ) × (s ≡ c ∷ []) × (in_class ranges c ≡ true)
class_inv (of_class {c} h) = (c, refl, h)

class-deriv_sound :
    (ranges : List (ℕ × ℕ)) (c : ℕ) (s : Bytes) (b : Bool)
    → in_class ranges c ≡ b
    → Matches (if b then empty else never) s
    → Matches (class ranges) (c ∷ s)
class-deriv_sound ranges c s true e m = rw (empty_inv m) (of_class e)
class-deriv_sound ranges c s false e m = absurd (not-Matches-never m)

deriv_sound : (r : Regex) (c : ℕ) (s : Bytes) → Matches (deriv c r) s → Matches r (c ∷ s)
unfolding deriv
deriv_sound never c s m = absurd (not-Matches-never m)
deriv_sound empty c s m = absurd (not-Matches-never m)
deriv_sound (class ranges) c s m = class-deriv_sound ranges c s (in_class ranges c) refl m
deriv_sound (seq r q) c s m = elim (Bool-cases (nullable r)) [
  | inl e ↦ elim (alt_inv (rw e at m)) [
    | inl h ↦
        let (v, t, p, mr, mq) = seq_inv h in
        of_seq (c ∷ v) t (ap (λ w. c ∷ w) p) (deriv_sound r c v mr) mq
    | inr h ↦ of_seq [] (c ∷ s) refl (nullable_sound r e) (deriv_sound q c s h)
  ]
  | inr e ↦
      let (v, t, p, mr, mq) = seq_inv (rw e at m) in
      of_seq (c ∷ v) t (ap (λ w. c ∷ w) p) (deriv_sound r c v mr) mq
]
deriv_sound (alt r q) c s m = elim (alt_inv m) [
  | inl h ↦ of_left (deriv_sound r c s h)
  | inr h ↦ of_right (deriv_sound q c s h)
]
deriv_sound (star r) c s m =
    let (v, t, p, mr, mq) = seq_inv m in of_more c v t (ap (λ w. c ∷ w) p) (deriv_sound r c v mr) mq

cons_inv : {a b : ℕ} {s t : Bytes} → a ∷ s ≡ b ∷ t → (a ≡ b) × (s ≡ t)
cons_inv e = (cc, cc)

deriv-seq_right :
    (r q : Regex) (c : ℕ) (s : Bytes)
    → nullable r ≡ true
    → Matches (deriv c q) s
    → Matches (deriv c (seq r q)) s
unfolding deriv
deriv-seq_right r q c s e m = rw e (of_right m)

deriv-seq_left :
    (r q : Regex) (c : ℕ) (s : Bytes)
    → Matches (seq (deriv c r) q) s
    → Matches (deriv c (seq r q)) s
unfolding deriv
deriv-seq_left r q c s m = elim (Bool-cases (nullable r)) [
  | inl e ↦ rw e (of_left m)
  | inr e ↦ rw e m
]

deriv_complete :
    (r : Regex) (c : ℕ) (s : Bytes) {u : Bytes} → Matches r u → u ≡ c ∷ s → Matches (deriv c r) s
unfolding deriv
deriv_complete never c s m e = elim m [ ]
deriv_complete empty c s of_empty e = absurd (cc)
deriv_complete (class ranges) c s (of_class {c = d} h) e =
    let (same, rest) = cons_inv e in rw (← rest, ← same, h) of_empty
deriv_complete (seq r q) c s (of_seq [] t p m n) e =
    deriv-seq_right r q c s (nullable_complete r [] m refl) (deriv_complete q c s n (sym p ∙ e))
deriv_complete (seq r q) c s (of_seq (d ∷ v) t p m n) e =
    let (same, rest) = cons_inv (sym p ∙ e) in
    deriv-seq_left r q c s (of_seq v t (sym rest) (deriv_complete r c v m (ap (λ k. k ∷ v) same)) n)
deriv_complete (alt r q) c s (of_left m) e = of_left (deriv_complete r c s m e)
deriv_complete (alt r q) c s (of_right m) e = of_right (deriv_complete q c s m e)
deriv_complete (star r) c s of_none e = absurd (cc)
deriv_complete (star r) c s (of_more d v t p m n) e =
    let (same, rest) = cons_inv (sym p ∙ e) in
    of_seq v t (sym rest) (deriv_complete r c v m (ap (λ k. k ∷ v) same)) n

pub match_string_sound : (r : Regex) (s : Bytes) → match_string r s ≡ true → Matches r s
unfolding match_string
match_string_sound r [] h = nullable_sound r h
match_string_sound r (c ∷ s) h = deriv_sound r c s (match_string_sound (deriv c r) s h)

pub match_string_complete : (r : Regex) (s : Bytes) → Matches r s → match_string r s ≡ true
unfolding match_string
match_string_complete r [] m = nullable_complete r [] m refl
match_string_complete r (c ∷ s) m =
    match_string_complete (deriv c r) s (deriv_complete r c s m refl)

-- The bytes that the classes of an expression name.
unfoldable pub alphabet : Regex → ℕ → Bool
alphabet (class ranges) c = in_class ranges c
alphabet (seq r q) c = alphabet r c || alphabet q c
alphabet (alt r q) c = alphabet r c || alphabet q c
alphabet (star r) c = alphabet r c
alphabet r c = false

pub Matches-All : {r : Regex} {s : Bytes} → Matches r s → All (λ c. alphabet r c ≡ true) s
unfolding alphabet
Matches-All of_empty = tt
Matches-All (of_class h) = (h, tt)
Matches-All (of_seq {r} {q} s t e m n) = rw e (
    All-append (λ c. alphabet (seq r q) c ≡ true) s t
      (All-map (λ c. alphabet r c ≡ true) (λ c. alphabet (seq r q) c ≡ true) s (λ c h. rw h)
        (Matches-All m))
      (All-map (λ c. alphabet q c ≡ true) (λ c. alphabet (seq r q) c ≡ true) t (λ c h. ground arith)
        (Matches-All n)))
Matches-All (of_left {r} {q} {s} m) =
    All-map (λ c. alphabet r c ≡ true) (λ c. alphabet (alt r q) c ≡ true) s (λ c h. rw h)
      (Matches-All m)
Matches-All (of_right {r} {q} {s} m) =
    All-map (λ c. alphabet q c ≡ true) (λ c. alphabet (alt r q) c ≡ true) s (λ c h. ground arith)
      (Matches-All m)
Matches-All of_none = tt
Matches-All (of_more {r} c s t e m n) =
    rw e (All-append (λ c. alphabet r c ≡ true) (c ∷ s) t (Matches-All m) (Matches-All n))

-- `r{0,n}` over a byte class: at most n bytes, each of the class.
pub up_to_class_sound :
    (ranges : List (ℕ × ℕ)) (n : ℕ) (s : Bytes)
    → Matches (up_to n (class ranges)) s
    → (length s ≤ n) × All (λ c. in_class ranges c ≡ true) s
unfolding up_to
up_to_class_sound ranges zero s m = rw (empty_inv m) (omega arith, tt)
up_to_class_sound ranges (suc n) s m = elim (alt_inv m) [
  | inl h ↦ rw (empty_inv h) (omega arith, tt)
  | inr h ↦
      let (v, t, p, mv, mt) = seq_inv h in
      let (c, one, inside) = class_inv mv in
      let (short, each) = up_to_class_sound ranges n t mt in
      rw (p, one) (omega arith, (inside, each))
]

pub up_to_class_complete :
    (ranges : List (ℕ × ℕ)) (n : ℕ) (s : Bytes)
    → length s ≤ n
    → All (λ c. in_class ranges c ≡ true) s
    → Matches (up_to n (class ranges)) s
unfolding up_to
up_to_class_complete ranges zero [] h a = of_empty
up_to_class_complete ranges zero (c ∷ s) h a = absurd (omega arith)
up_to_class_complete ranges (suc n) [] h a = of_left of_empty
up_to_class_complete ranges (suc n) (c ∷ s) h (p, a) =
    of_right (of_seq (c ∷ []) s refl (of_class p) (up_to_class_complete ranges n s (omega arith) a))
