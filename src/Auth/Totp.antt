-- ===== src/Auth/Totp.antt =====
-- internal/auth/totp.go: time-based one-time codes (RFC 6238).
--
-- HMAC-SHA1 and base32 decoding are parameters. `sum[off]` out of range, a panic, is `none`, as an error
-- of the decoder is.
use aura_cp.Prelude.{
  ℕ, zero, suc, ◌+◌, ◌-◌, ◌*◌, ◌/◌, ◌%◌, ◌^◌, Bool, false, ◌&&◌, List, [], ◌∷◌, ◌++◌, Option, none,
  some, Bytes, ◌==◌, bytes_eq, nat_eq, if◌then◌else◌, length, any,
}
use aura_cp.Prelude.Text.{trim_space}

pub record Hashing : Type 0 where
  -- h.Sum of hmac.New(sha1.New, key) after h.Write(message)
  pub hmac : (key message : Bytes) → Bytes
  pub decode : Bytes → Option Bytes
  pub to_upper : Bytes → Bytes

abbrev pub get_elem? : Bytes → ℕ → Option ℕ
get_elem? [] i = none
get_elem? (x ∷ xs) zero = some x
get_elem? (x ∷ xs) (suc i) = get_elem? xs i

-- strings.Repeat("=", n)
abbrev pub pads : ℕ → Bytes
pads zero = []
pads (suc n) = 61 ∷ pads n

abbrev pub u64 : ℕ → ℕ
u64 n = n % 2 ^ 64

-- binary.BigEndian.PutUint64
abbrev pub big_endian : ℕ → Bytes
big_endian n =
    n / 2 ^ 56 % 256
    ∷ n / 2 ^ 48 % 256
    ∷ n / 2 ^ 40 % 256
    ∷ n / 2 ^ 32 % 256
    ∷ n / 2 ^ 24 % 256
    ∷ n / 2 ^ 16 % 256
    ∷ n / 2 ^ 8 % 256
    ∷ n % 256
    ∷ []

-- fmt.Sprintf("%06d", n) of a number below a million
unfoldable pub six_digits : ℕ → Bytes
six_digits n =
    (b'0' + n / 100000 % 10)
    ∷ (b'0' + n / 10000 % 10)
    ∷ (b'0' + n / 1000 % 10)
    ∷ (b'0' + n / 100 % 10)
    ∷ (b'0' + n / 10 % 10)
    ∷ (b'0' + n % 10)
    ∷ []

-- the last byte of a list, 0 of an empty one
abbrev pub last : ℕ → Bytes → ℕ
last d [] = d
last d (x ∷ xs) = last x xs

-- The bytes are shifted into places of their own, so that `|` is a sum.
abbrev pub truncated : Option ℕ → Option ℕ → Option ℕ → Option ℕ → Option Bytes
truncated (some a) (some b) (some c) (some d) =
    some (six_digits ((a % 128 * 2 ^ 24 + b * 2 ^ 16 + c * 2 ^ 8 + d) % 1000000))
truncated _ _ _ _ = none

-- the code of a digest, from the offset that its last byte names
unfoldable pub code_at : ℕ → Bytes → Option Bytes
code_at off sum =
    truncated (get_elem? sum off) (get_elem? sum (off + 1)) (get_elem? sum (off + 2))
      (get_elem? sum (off + 3))

module _ (h : Hashing) where
  unfoldable pub pad_base32 : Bytes → Bytes
  pad_base32 s =
      let t = h.to_upper (trim_space s) in
      let m = length t % 8 in if m == 0 then t else t ++ pads (8 - m)

  abbrev pub code_for : Option Bytes → ℕ → Option Bytes
  code_for none counter = none
  code_for (some key) counter =
      let sum = h.hmac key (big_endian counter) in code_at (last 0 sum % 16) sum

  -- totpCode
  unfoldable pub totp_code : Bytes → ℕ → Option Bytes
  totp_code secret counter = code_for (h.decode (pad_base32 secret)) counter

  abbrev pub is_code : Bytes → Option Bytes → Bool
  is_code input none = false
  is_code input (some c) = c == input

  -- the steps before, at and after the present one, as uint64
  abbrev pub counters : ℕ → List ℕ
  counters now = u64 (now + 2 ^ 64 - 1) ∷ u64 now ∷ u64 (now + 1) ∷ []

  -- VerifyTOTP, at a time in Unix seconds
  unfoldable pub verify_totp : Bytes → Bytes → (unix : ℕ) → Bool
  verify_totp secret input unix =
      let t = trim_space input in
      length t == 6 && any (λ c. is_code t (totp_code secret c)) (counters (unix / 30))
