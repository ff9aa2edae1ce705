-- ===== src/Validate.antt =====
-- internal/validate/validate.go: the tests that every outside identifier has to pass.
pub mod Laws
use aura_cp.Prelude.{
  ℕ, Bool, true, false, ◌||◌, not, List, [], ◌∷◌, Bytes, codes, String, ltb, length, ◌==◌,
  string_eq, bytes_eq, if◌then◌else◌, ℤ, pos, negsuc, ltz, Result, ok, err, fail_if, ◌>>=◌, ◌>>◌,
}
use aura_cp.Prelude.Text.{atoi}
use aura_cp.Regex.{Regex, class, seq, alt, star, plus, opt, byte, up_to, match_string}
use aura_cp.Errors.{
  Error, invalid_domain, invalid_username, invalid_identifier, invalid_port, not_a_port,
  unknown_site_type, unsupported_php_version,
}

abbrev pub lower : ℕ × ℕ
lower = (b'a', b'z')

abbrev pub upper : ℕ × ℕ
upper = (b'A', b'Z')

abbrev pub digit : ℕ × ℕ
digit = (b'0', b'9')

-- `(?i)[a-z0-9]` over UTF-8. Go folds case by Unicode, where the long s (0xc5 0xbf) folds to `s` and
-- the Kelvin sign (0xe2 0x84 0xaa) to `k`, so the class has these two letters beside the ASCII ones.
pub folded_alnum : Regex
folded_alnum =
    alt (class (lower ∷ upper ∷ digit ∷ []))
      (alt (seq (byte 0xc5) (byte 0xbf)) (seq (byte 0xe2) (seq (byte 0x84) (byte 0xaa))))

-- `[a-z0-9](-?[a-z0-9])*`, case folded
pub label : Regex
unfolding folded_alnum
label = seq folded_alnum (star (seq (opt (byte b'-')) folded_alnum))

pub domain_re : Regex
unfolding label
domain_re = seq label (plus (seq (byte b'.') label))

abbrev pub user_tail : List (ℕ × ℕ)
user_tail = lower ∷ digit ∷ (b'_', b'_') ∷ (b'-', b'-') ∷ []

pub user_re : Regex
user_re = seq (class (lower ∷ [])) (up_to 31 (class user_tail))

abbrev pub ident_tail : List (ℕ × ℕ)
ident_tail = lower ∷ upper ∷ digit ∷ (b'_', b'_') ∷ []

pub ident_re : Regex
ident_re = seq (class (lower ∷ upper ∷ [])) (up_to 63 (class ident_tail))

unfoldable pub domain : Bytes → Result Error (Unit {0})
unfolding domain_re
domain d = fail_if (ltb 253 (length d) || not (match_string domain_re d)) invalid_domain

unfoldable pub username : Bytes → Result Error (Unit {0})
unfolding user_re
username u = fail_if (not (match_string user_re u)) invalid_username

unfoldable pub identifier : Bytes → Result Error (Unit {0})
unfolding ident_re
identifier s = fail_if (not (match_string ident_re s)) invalid_identifier

unfoldable pub port : ℤ → Result Error (Unit {0})
port p = fail_if (ltz p (pos 1) || ltz (pos 65535) p) invalid_port

unfoldable pub site_type : Bytes → Result Error (Unit {0})
site_type t =
    if t == codes "wordpress"
      || t == codes "php"
      || t == codes "nodejs"
      || t == codes "python"
      || t == codes "static"
      || t == codes "reverseproxy"
    then ok tt
    else err unknown_site_type

unfoldable pub php_version : Bytes → Result Error (Unit {0})
php_version v =
    if v == codes "8.3" || v == codes "8.4" || v == codes "8.5"
    then ok tt
    else err unsupported_php_version

-- The number is returned beside the error of `port`, and no caller that gets an error reads it.
checked : ℤ × Bool → Result Error ℤ
unfolding port
checked (p, false) = err not_a_port
checked (p, true) = do port p; ok p

unfoldable pub parse_port : Bytes → Result Error ℤ
unfolding checked
parse_port s = checked (atoi s)
