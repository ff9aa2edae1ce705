-- ===== src/Auth/Laws/Codes.antt =====
-- One-time codes.
use aura_cp.Prelude.{
  ℕ, zero, suc, ◌+◌, ◌*◌, ◌-◌, ◌/◌, ◌%◌, ◌^◌, ◌<◌, ◌≡◌, refl, ap, ◌⊎◌, ◌↔◌, inl, inr, Bool, true,
  false, ◌&&◌, ◌||◌, List, [], ◌∷◌, Option, none, some, Bytes, arith, bytes_eq, nat_eq, length, any,
  bytes_beq_iff, nat_beq_iff, &&-eq-true, Bool-cases, subst,
}
use aura_cp.Prelude.Text.{trim_space}
use aura_cp.Auth.Totp.{
  Hashing, six_digits, last, get_elem?, truncated, code_at, code_for, totp_code, is_code, counters,
  verify_totp, pad_base32, big_endian,
}

length-some : (x t : Bytes) → some x ≡ some t → length x ≡ 6 → length t ≡ 6
length-some x t h l = let same : x ≡ t = cc in subst (λ y. length y ≡ 6) same l

length-truncated : (a b c d : Option ℕ) (t : Bytes) → truncated a b c d ≡ some t → length t ≡ 6
unfolding six_digits
length-truncated (some a) (some b) (some c) (some d) t h = length-some _ t h refl
length-truncated none b c d t h = cc
length-truncated (some a) none c d t h = cc
length-truncated (some a) (some b) none d t h = cc
length-truncated (some a) (some b) (some c) none t h = cc

length-code_at : (off : ℕ) (sum t : Bytes) → code_at off sum ≡ some t → length t ≡ 6
unfolding code_at
length-code_at off sum t h = length-truncated _ _ _ _ t h

in_range : (xs : Bytes) (i : ℕ) → i < length xs → (x : ℕ) × (get_elem? xs i ≡ some x)
in_range [] i h = absurd (omega arith)
in_range (x ∷ xs) zero h = (x, refl)
in_range (x ∷ xs) (suc i) h = in_range xs i (omega arith)

truncated-some :
    (a b c d : ℕ) → (t : Bytes) × (truncated (some a) (some b) (some c) (some d) ≡ some t)
truncated-some a b c d =
    (six_digits ((a % 128 * 2 ^ 24 + b * 2 ^ 16 + c * 2 ^ 8 + d) % 1000000), refl)

-- A digest of twenty bytes has a code at every offset that four bits can name.
code_at-some :
    (off : ℕ) (sum : Bytes) → off < 16 → length sum ≡ 20 → (t : Bytes) × (code_at off sum ≡ some t)
unfolding code_at
code_at-some off sum small long =
    let (a, ea) = in_range sum off (omega arith) in
    let (b, eb) = in_range sum (off + 1) (omega arith) in
    let (c, ec) = in_range sum (off + 2) (omega arith) in
    let (d, ed) = in_range sum (off + 3) (omega arith) in
    rw (ea, eb, ec, ed) (truncated-some a b c d)

module _ (h : Hashing) (secret : Bytes) where
  length-code_for :
      (key : Option Bytes) (counter : ℕ) (t : Bytes)
      → code_for h key counter ≡ some t
      → length t ≡ 6
  length-code_for none counter t e = cc
  length-code_for (some key) counter t e = length-code_at _ _ t e

  length-totp_code : (counter : ℕ) (t : Bytes) → totp_code h secret counter ≡ some t → length t ≡ 6
  unfolding totp_code
  length-totp_code counter t e = length-code_for _ counter t e

  -- One of the counters has the code.
  abbrev pub HasCode : Bytes → List ℕ → Type 0
  HasCode t [] = ⊥
  HasCode t (c ∷ cs) = (totp_code h secret c ≡ some t) ⊎ HasCode t cs

  is_code→eq : (t : Bytes) (o : Option Bytes) → is_code h t o ≡ true → o ≡ some t
  is_code→eq t none e = cc
  is_code→eq t (some c) e = ap some ((bytes_beq_iff c t).0 e)

  eq→is_code : (t : Bytes) (o : Option Bytes) → o ≡ some t → is_code h t o ≡ true
  eq→is_code t o e = rw e ((bytes_beq_iff t t).1 refl)

  any_code :
      (t : Bytes) (cs : List ℕ)
      → (any (λ c. is_code h t (totp_code h secret c)) cs ≡ true) ↔ HasCode t cs
  any_code t [] = ((λ e. cc), (λ e. elim e [ ]))
  any_code t (c ∷ cs) = (
    (λ e. elim (Bool-cases (is_code h t (totp_code h secret c))) [
      | inl b ↦ inl (is_code→eq t _ b)
      | inr b ↦ inr ((any_code t cs).0 (rest _ _ b e))
    ]),
    (λ e. elim e [ inl q ↦ here _ _ (eq→is_code t _ q) | inr q ↦ there _ _ ((any_code t cs).1 q) ]),
  )
    where
      rest : (a b : Bool) → a ≡ false → (a || b) ≡ true → b ≡ true
      rest a b x y = ground arith

      here : (a b : Bool) → a ≡ true → (a || b) ≡ true
      here a b x = ground arith

      there : (a b : Bool) → b ≡ true → (a || b) ≡ true
      there a b x = ground arith

  HasCode-length : (t : Bytes) (cs : List ℕ) → HasCode t cs → length t ≡ 6
  HasCode-length t [] e = elim e [ ]
  HasCode-length t (c ∷ cs) (inl e) = length-totp_code c t e
  HasCode-length t (c ∷ cs) (inr e) = HasCode-length t cs e

  -- An input verifies exactly when it is, without the spaces around it, the code of the secret for the thirty
  -- seconds of the time given, or for those before or after, counted from 1970 in 64 bits; the test of its length
  -- refuses no code.
  pub verify_totp_iff :
      (input : Bytes) (unix : ℕ)
      → (verify_totp h secret input unix ≡ true)
        ↔ HasCode
            (trim_space input)
            ((unix / 30 + 2 ^ 64 - 1) % 2 ^ 64 ∷ unix / 30 % 2 ^ 64 ∷ (unix / 30 + 1) % 2 ^ 64 ∷ [])
  unfolding verify_totp
  verify_totp_iff input unix = (
    (λ e. (any_code (trim_space input) (counters h (unix / 30))).0 (&&-eq-true _ _ e).1),
    (λ q.
        both _ _
          ((nat_beq_iff (length (trim_space input)) 6).1
            (HasCode-length (trim_space input) (counters h (unix / 30)) q))
          ((any_code (trim_space input) (counters h (unix / 30))).1 q)),
  )
    where
      both : (a b : Bool) → a ≡ true → b ≡ true → (a && b) ≡ true
      both a b x y = ground arith

  -- Where HMAC-SHA1 gives its twenty bytes, a secret that decodes has a code of six bytes for every counter.
  totp_code-length :
      (key : Bytes) (counter : ℕ)
      → ((k m : Bytes) → length (h.hmac k m) ≡ 20)
      → h.decode (pad_base32 h secret) ≡ some key
      → (t : Bytes) × (totp_code h secret counter ≡ some t) × (length t ≡ 6)
  unfolding totp_code
  totp_code-length key counter twenty decoded =
      let sum = h.hmac key (big_endian counter) in
      let (t, e) =
        code_at-some (last 0 sum % 16) sum (omega arith) (twenty key (big_endian counter)) in
      (t, rw decoded e, length-code_at _ _ t e)
