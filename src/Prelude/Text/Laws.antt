-- ===== src/Prelude/Text/Laws.antt =====
-- Laws of the byte-string functions.
use aura_cp.Prelude.{
  inl, inr, ℕ, ◌≡◌, refl, ◌≢◌, true, List, [], ◌∷◌, ◌++◌, Bytes, arith, All, ◌==◌, nat_eq, bytes_eq,
  Bool-cases,
}
use aura_cp.Prelude.Text.{has_prefix, split, cons_head}

pub has_prefix-append : (p t : Bytes) → has_prefix p (p ++ t) ≡ true
unfolding has_prefix
has_prefix-append [] t = refl
has_prefix-append (c ∷ p) t = ground (arith, has_prefix-append p t)

pub rest_of_prefix : (p s : Bytes) → has_prefix p s ≡ true → (t : Bytes) × (s ≡ p ++ t)
unfolding has_prefix
rest_of_prefix [] s h = (s, refl)
rest_of_prefix (c ∷ p) [] h = absurd (cc)
rest_of_prefix (c ∷ p) (d ∷ s) h =
    let (t, e) = rest_of_prefix p s (ground arith) in (t, ground arith)

abbrev pub NoByte : ℕ → Bytes → Type 0
NoByte sep s = All (λ c. c ≢ sep) s

pub split_whole : (sep : ℕ) (w : Bytes) → NoByte sep w → split sep w ≡ w ∷ []
unfolding split cons_head
split_whole sep [] h = refl
split_whole sep (c ∷ w) h = ground (arith, split_whole sep w h.1)

pub split-cons : (sep : ℕ) (s : Bytes) → (w : Bytes) × (ws : List Bytes) × (split sep s ≡ w ∷ ws)
unfolding split cons_head
split-cons sep [] = ([], [], refl)
split-cons sep (c ∷ s) = elim (Bool-cases (c == sep)) [
  | inl e ↦ ([], split sep s, rw e)
  | inr e ↦ let (w, ws, p) = split-cons sep s in (c ∷ w, ws, rw (e, p))
]

-- A separator between two texts splits them apart.
pub split-append : (sep : ℕ) (s t : Bytes) → split sep (s ++ sep ∷ t) ≡ split sep s ++ split sep t
unfolding split cons_head
split-append sep [] t = ground arith
split-append sep (c ∷ s) t =
    let (w, ws, p) = split-cons sep s in rw (split-append sep s t, p) (ground arith)

pub split-NoByte : (sep : ℕ) (s : Bytes) → All (NoByte sep) (split sep s)
unfolding split cons_head
split-NoByte sep [] = (tt, tt)
split-NoByte sep (c ∷ s) =
    let (w, ws, p) = split-cons sep s in
    let ih = split-NoByte sep s in rw p (ground (arith, rw p at ih))
