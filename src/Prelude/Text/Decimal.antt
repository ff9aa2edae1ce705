-- ===== src/Prelude/Text/Decimal.antt =====
-- Printing a number.
use aura_cp.Prelude.{
  ℕ, zero, suc, ◌+◌, ◌/◌, ◌%◌, ◌≤◌, ◌<◌, ◌≡◌, [], ◌∷◌, Bytes, arith, ltb, Bool-cases, inl, inr, All,
}
use aura_cp.Prelude.Text.{itoa, itoa_from}

abbrev pub IsDigitByte : ℕ → Type 0
IsDigitByte c = (b'0' ≤ c) × (c ≤ b'9')

-- Only digits are printed, and at least one.
pub itoa_from-digits :
    (f n : ℕ) (out : Bytes)
    → n < f
    → All IsDigitByte out
    → (c : ℕ) × (s : Bytes) × (itoa_from f n out ≡ c ∷ s) × All IsDigitByte (c ∷ s)
unfolding itoa_from
itoa_from-digits zero n out h a = absurd (omega arith)
itoa_from-digits (suc f) n out h a = elim (Bool-cases (ltb n 10)) [
  | inl e ↦ (b'0' + n, out, rw e, (ground arith, a))
  | inr e ↦
      rw e (itoa_from-digits f (n / 10) ((b'0' + n % 10) ∷ out) (ground arith) (omega arith, a))
]

pub itoa-digits : (n : ℕ) → (c : ℕ) × (s : Bytes) × (itoa n ≡ c ∷ s) × All IsDigitByte (c ∷ s)
unfolding itoa
itoa-digits n = itoa_from-digits (suc n) n [] (omega arith) tt
