-- ===== src/Prelude/Text.antt =====
-- What the source takes from Go's `strings` and `strconv`, over bytes.
pub mod Laws
pub mod Decimal
use mathlib.Core.List.{reverse}
use aura_cp.Prelude.{
  ℕ, zero, suc, ◌+◌, ◌-◌, ◌*◌, ◌/◌, ◌%◌, ◌^◌, Bool, true, false, ◌&&◌, ◌||◌, not, List, [], ◌∷◌,
  ◌++◌, Option, none, some, Bytes, codes, ltb, leb, ◌==◌, nat_eq, bytes_eq, if◌then◌else◌, length,
  all, any, ℤ, pos, negsuc,
}

-- strings.HasPrefix(s, p), with the prefix first
unfoldable pub has_prefix : Bytes → Bytes → Bool
has_prefix [] s = true
has_prefix (p ∷ ps) [] = false
has_prefix (p ∷ ps) (c ∷ s) = p == c && has_prefix ps s

-- strings.HasSuffix(s, p), with the suffix first
unfoldable pub has_suffix : Bytes → Bytes → Bool
has_suffix p [] = p == []
has_suffix p (c ∷ s) = p == c ∷ s || has_suffix p s

-- strings.Contains(s, sub), with the part first
unfoldable pub contains : Bytes → Bytes → Bool
contains sub [] = sub == []
contains sub (c ∷ s) = has_prefix sub (c ∷ s) || contains sub s

-- strings.TrimPrefix(s, p), with the prefix first
unfoldable pub trim_prefix : Bytes → Bytes → Bytes
trim_prefix [] s = s
trim_prefix (p ∷ ps) [] = []
trim_prefix (p ∷ ps) (c ∷ s) = if has_prefix (p ∷ ps) (c ∷ s) then trim_prefix ps s else c ∷ s

cons_head : ℕ → List Bytes → List Bytes
cons_head c [] = (c ∷ []) ∷ []
cons_head c (w ∷ ws) = (c ∷ w) ∷ ws

-- strings.Split(s, sep), for a separator of one byte
unfoldable pub split : ℕ → Bytes → List Bytes
unfolding cons_head
split sep [] = [] ∷ []
split sep (c ∷ s) = let r = split sep s in if c == sep then [] ∷ r else cons_head c r

-- strings.Join(ws, sep), for a separator of one byte
unfoldable pub join : ℕ → List Bytes → Bytes
join sep [] = []
join sep (w ∷ []) = w
join sep (w ∷ v ∷ ws) = w ++ sep ∷ join sep (v ∷ ws)

-- the six ASCII bytes that strings.TrimSpace removes
is_space : ℕ → Bool
is_space c = c == 32 || (leb 9 c && leb c 13)

unfoldable pub trim_left : Bytes → Bytes
unfolding is_space
trim_left [] = []
trim_left (c ∷ s) = if is_space c then trim_left s else c ∷ s

-- strings.TrimSpace(s)
unfoldable pub trim_space : Bytes → Bytes
unfolding trim_left
trim_space s = reverse (trim_left (reverse (trim_left s)))

-- strings.ReplaceAll(s, old, new) for a nonempty `old`: from the left, without overlaps. `skip`
-- counts the bytes of the match that is being passed over.
unfoldable pub replace_from : Bytes → Bytes → ℕ → Bytes → Bytes
replace_from old new skip [] = []
replace_from old new (suc skip) (c ∷ s) = replace_from old new skip s
replace_from old new zero (c ∷ s) =
    let matched = new ++ replace_from old new (length old - 1) s in
    let passed = c ∷ replace_from old new 0 s in if has_prefix old (c ∷ s) then matched else passed

unfoldable pub replace_all : Bytes → Bytes → Bytes → Bytes
unfolding replace_from
replace_all s old new = replace_from old new 0 s

-- strconv.Itoa of a number that is not negative: its decimal digits, on fuel that exceeds it.
unfoldable pub itoa_from : ℕ → ℕ → Bytes → Bytes
itoa_from zero n out = out
itoa_from (suc f) n out =
    let rest = itoa_from f (n / 10) ((b'0' + n % 10) ∷ out) in
    if ltb n 10 then (b'0' + n) ∷ out else rest

unfoldable pub itoa : ℕ → Bytes
unfolding itoa_from
itoa n = itoa_from (suc n) n []

-- strconv.Atoi: the value, and whether the error is nil. A text that is no number gives 0, one
-- that does not fit an int64 gives the nearest bound.
unfoldable pub digits_value : ℕ → Bytes → Option ℕ
digits_value acc [] = some acc
digits_value acc (c ∷ s) =
    let rest = digits_value (acc * 10 + (c - b'0')) s in
    if leb b'0' c && leb c b'9' then rest else none

abbrev pub max_int : ℕ
max_int = 2 ^ 63 - 1

unsigned : Bytes → Option ℕ
unsigned [] = none
unsigned (c ∷ s) = digits_value 0 (c ∷ s)

positive : Option ℕ → ℤ × Bool
positive none = (pos 0, false)
positive (some n) = if leb n max_int then (pos n, true) else (pos max_int, false)

negative : Option ℕ → ℤ × Bool
negative none = (pos 0, false)
negative (some zero) = (pos 0, true)
negative (some (suc n)) = if leb n max_int then (negsuc n, true) else (negsuc max_int, false)

unfoldable pub atoi : Bytes → ℤ × Bool
unfolding unsigned positive negative digits_value
atoi [] = (pos 0, false)
atoi (c ∷ s) =
    if c == b'-'
    then negative (unsigned s)
    else if c == b'+'
    then positive (unsigned s)
    else positive (unsigned (c ∷ s))
