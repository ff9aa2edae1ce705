-- ===== src/Regex.antt =====
-- Go's `regexp` as far as the source uses it: anchored expressions over byte classes, with
-- concatenation, alternation, `*`, `+`, `?` and `{0,n}`. `match_string` is the executable matcher,
-- by derivatives; `Regex/Matches` gives the meaning that it is proved to decide.
pub mod Matches
use aura_cp.Prelude.{
  ℕ, zero, suc, Bool, true, false, ◌&&◌, ◌||◌, List, [], ◌∷◌, Bytes, leb, any, if◌then◌else◌,
}

-- A byte class is a list of inclusive ranges.
abbrev pub in_range : ℕ → ℕ × ℕ → Bool
in_range c (lo, hi) = leb lo c && leb c hi

abbrev pub in_class : List (ℕ × ℕ) → ℕ → Bool
in_class ranges c = any (in_range c) ranges

pub data Regex : Type 0 where
  never : Regex
  empty : Regex
  class : List (ℕ × ℕ) → Regex
  seq : Regex → Regex → Regex
  alt : Regex → Regex → Regex
  star : Regex → Regex

-- `r+`, `r?`, `r{0,n}` and one given byte
abbrev pub plus : Regex → Regex
plus r = seq r (star r)

abbrev pub opt : Regex → Regex
opt r = alt empty r

pub up_to : ℕ → Regex → Regex
up_to zero r = empty
up_to (suc n) r = opt (seq r (up_to n r))

abbrev pub byte : ℕ → Regex
byte c = class ((c, c) ∷ [])

pub nullable : Regex → Bool
nullable never = false
nullable empty = true
nullable (class ranges) = false
nullable (seq r q) = nullable r && nullable q
nullable (alt r q) = nullable r || nullable q
nullable (star r) = true

pub deriv : ℕ → Regex → Regex
deriv c never = never
deriv c empty = never
deriv c (class ranges) = if in_class ranges c then empty else never
deriv c (seq r q) =
    let first = seq (deriv c r) q in
    let second = deriv c q in if nullable r then alt first second else first
deriv c (alt r q) = alt (deriv c r) (deriv c q)
deriv c (star r) = seq (deriv c r) (star r)

-- `re.MatchString(s)`, for an expression anchored at both ends
unfoldable pub match_string : Regex → Bytes → Bool
unfolding nullable deriv up_to
match_string r [] = nullable r
match_string r (c ∷ s) = match_string (deriv c r) s
