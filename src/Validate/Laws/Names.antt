-- ===== src/Validate/Laws/Names.antt =====
-- User names and database identifiers, stated without the regular expressions.
use aura_cp.Prelude.{
  ℕ, ◌≤◌, ◌≡◌, refl, sym, ap, ◌∙◌, ◌≢◌, ◌↔◌, ◌⊎◌, Bool, true, false, not, List, [], ◌∷◌, ◌++◌,
  Bytes, arith, length, All, All-map, ok, fail_if, subst,
}
use aura_cp.Regex.{class, seq, up_to, match_string, in_class}
use aura_cp.Regex.Matches.{
  of_class, of_seq, match_string_sound, match_string_complete, seq_inv, class_inv,
  up_to_class_sound, up_to_class_complete,
}
use aura_cp.Filepath.{slash, dot, dot_dot}
use aura_cp.Filepath.Laws.{IsPart}
use aura_cp.Validate.{lower, upper, user_tail, ident_tail, user_re, ident_re, username, identifier}

abbrev pub Between : ℕ → ℕ → ℕ → Type 0
Between lo hi c = (lo ≤ c) × (c ≤ hi)

abbrev pub IsLower : ℕ → Type 0
IsLower c = Between b'a' b'z' c

abbrev pub IsUpper : ℕ → Type 0
IsUpper c = Between b'A' b'Z' c

abbrev pub IsDigit : ℕ → Type 0
IsDigit c = Between b'0' b'9' c

abbrev pub IsUserByte : ℕ → Type 0
IsUserByte c = IsLower c ⊎ IsDigit c ⊎ (c ≡ b'_') ⊎ (c ≡ b'-')

abbrev pub IsIdentByte : ℕ → Type 0
IsIdentByte c = IsLower c ⊎ IsUpper c ⊎ IsDigit c ⊎ (c ≡ b'_')

-- A lower-case letter, and at most 31 letters, digits, `_` or `-` behind it.
abbrev pub IsUserName : Bytes → Type 0
IsUserName [] = ⊥
IsUserName (c ∷ s) = IsLower c × (length s ≤ 31) × All IsUserByte s

-- A letter, and at most 63 letters, digits or `_` behind it.
abbrev pub IsIdentifier : Bytes → Type 0
IsIdentifier [] = ⊥
IsIdentifier (c ∷ s) = (IsLower c ⊎ IsUpper c) × (length s ≤ 63) × All IsIdentByte s

-- A class, then up to n bytes of another class.
module _ (head tail : List (ℕ × ℕ)) (n : ℕ) where
  abbrev Fits : Bytes → Type 0
  Fits [] = ⊥
  Fits (c ∷ s) = (in_class head c ≡ true) × (length s ≤ n) × All (λ b. in_class tail b ≡ true) s

  head_tail_sound :
      (s : Bytes) → match_string (seq (class head) (up_to n (class tail))) s ≡ true → Fits s
  head_tail_sound s h =
      let (v, t, p, mv, mt) = seq_inv (match_string_sound _ s h) in
      let (c, one, inside) = class_inv mv in
      let (short, each) = up_to_class_sound tail n t mt in
      subst Fits (sym (p ∙ ap (λ k. k ++ t) one)) (inside, short, each)

  head_tail_complete :
      (s : Bytes) → Fits s → match_string (seq (class head) (up_to n (class tail))) s ≡ true
  head_tail_complete [] h = absurd h
  head_tail_complete (c ∷ s) (p, short, each) =
      match_string_complete _ (c ∷ s)
        (of_seq (c ∷ []) s refl (of_class p) (up_to_class_complete tail n s short each))

lower_iff : (c : ℕ) → (in_class (lower ∷ []) c ≡ true) ↔ IsLower c
lower_iff c = ground arith

letter_iff : (c : ℕ) → (in_class (lower ∷ upper ∷ []) c ≡ true) ↔ (IsLower c ⊎ IsUpper c)
letter_iff c = ground arith

IsUserByte-iff : (c : ℕ) → (in_class user_tail c ≡ true) ↔ IsUserByte c
IsUserByte-iff c = ground arith

IsIdentByte-iff : (c : ℕ) → (in_class ident_tail c ≡ true) ↔ IsIdentByte c
IsIdentByte-iff c = ground arith

not-not : (b : Bool) → not b ≡ false → b ≡ true
not-not b h = ground arith

fail_if-ok : {E : Type 0} (b : Bool) (e : E) → fail_if b e ≡ ok tt → b ≡ false
fail_if-ok true e h = absurd (cc)
fail_if-ok false e h = refl

-- Username accepts exactly a lower-case letter followed by at most 31 lower-case letters, digits,
-- underscores and dashes.
pub username_iff : (u : Bytes) → (username u ≡ ok tt) ↔ IsUserName u
unfolding username user_re
username_iff u = (to u, from u)
  where
    to : (u : Bytes) → username u ≡ ok tt → IsUserName u
    to [] h = absurd (head_tail_sound (lower ∷ []) user_tail 31 [] (not-not _ (fail_if-ok _ _ h)))
    to (c ∷ s) h =
        let (p, short, each) =
          head_tail_sound (lower ∷ []) user_tail 31 (c ∷ s) (not-not _ (fail_if-ok _ _ h)) in
        ((lower_iff c).0 p, short, All-map _ _ s (λ b. (IsUserByte-iff b).0) each)

    from : (u : Bytes) → IsUserName u → username u ≡ ok tt
    from [] h = absurd h
    from (c ∷ s) (p, short, each) = rw (
        head_tail_complete (lower ∷ []) user_tail 31 (c ∷ s)
          ((lower_iff c).1 p, short, All-map _ _ s (λ b. (IsUserByte-iff b).1) each))

-- Identifier accepts exactly a letter followed by at most 63 letters, digits and underscores.
pub identifier_iff : (s : Bytes) → (identifier s ≡ ok tt) ↔ IsIdentifier s
unfolding identifier ident_re
identifier_iff s = (to s, from s)
  where
    to : (s : Bytes) → identifier s ≡ ok tt → IsIdentifier s
    to [] h =
        absurd
          (head_tail_sound (lower ∷ upper ∷ []) ident_tail 63 [] (not-not _ (fail_if-ok _ _ h)))
    to (c ∷ s) h =
        let (p, short, each) =
          head_tail_sound (lower ∷ upper ∷ []) ident_tail 63 (c ∷ s)
            (not-not _ (fail_if-ok _ _ h)) in
        ((letter_iff c).0 p, short, All-map _ _ s (λ b. (IsIdentByte-iff b).0) each)

    from : (s : Bytes) → IsIdentifier s → identifier s ≡ ok tt
    from [] h = absurd h
    from (c ∷ s) (p, short, each) = rw (
        head_tail_complete (lower ∷ upper ∷ []) ident_tail 63 (c ∷ s)
          ((letter_iff c).1 p, short, All-map _ _ s (λ b. (IsIdentByte-iff b).1) each))

-- A user name is a name in a directory: no slash, and neither `.` nor `..`.
pub IsPart_of_IsUserName : (u : Bytes) → IsUserName u → IsPart u
IsPart_of_IsUserName [] h = absurd h
IsPart_of_IsUserName (c ∷ s) (p, short, each) = (
  cc,
  λ e. absurd (omega (arith, head_of_dot c s e)),
  λ e. absurd (omega (arith, head_of_dot_dot c s e)),
  (omega arith, All-map IsUserByte (λ b. b ≢ slash) s (λ b h. ground arith) each),
)
  where
    head_of_dot : (c : ℕ) (s : Bytes) → c ∷ s ≡ dot → c ≡ b'.'
    head_of_dot c s e = cc

    head_of_dot_dot : (c : ℕ) (s : Bytes) → c ∷ s ≡ dot_dot → c ≡ b'.'
    head_of_dot_dot c s e = cc
