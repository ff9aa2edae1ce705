-- ===== src/Updater.antt =====
-- internal/updater/updater.go: which release is newer, and the cached answer about it.
--
-- The probe of GitHub is a parameter, `none` for an error; times are natural numbers, and the zero
-- time is `none`. Applying an update is not modelled.
pub mod Versions
pub mod Cache
use aura_cp.Prelude.{
  ℕ, suc, zero, ◌+◌, ◌-◌, ◌*◌, Bool, true, false, ◌&&◌, List, [], ◌∷◌, Option, none, some, Bytes,
  codes, ◌==◌, bytes_eq, nat_eq, ltb, length, if◌then◌else◌, ℤ, pos, negsuc, ltz, eqz,
}
use aura_cp.Prelude.Text.{atoi, trim_prefix, trim_space}

-- The dot is 46.
unfoldable pub split_first : Bytes → Bytes × Bytes
split_first [] = ([], [])
split_first (c ∷ s) =
    let (head, rest) = split_first s in if c == 46 then ([], s) else (c ∷ head, rest)

abbrev pub value : Bytes → ℤ
value s = (atoi s).0

-- 1, -1, or what the rest says
abbrev pub first_difference : ℤ → ℤ → ℤ → ℤ
first_difference x y rest = if eqz x y then rest else if ltz y x then pos 1 else negsuc 0

abbrev pub settled : ℤ → ℤ → Option ℤ → Option ℤ
settled x y rest = if eqz x y then rest else if ltz y x then some (pos 1) else some (negsuc 0)

-- The loop, on fuel: `none` when it runs out.
unfoldable pub compare_from : ℕ → Bytes → Bytes → Option ℤ
unfolding split_first
compare_from zero a b = none
compare_from (suc f) a b =
    let (ap, ar) = split_first a in
    let (bp, br) = split_first b in
    let rest = compare_from f ar br in
    settled (value ap) (value bp) (if ar == [] && br == [] then some (pos 0) else rest)

abbrev pub stripped : Bytes → Bytes
stripped v = trim_prefix (codes "v") (trim_space v)

unfoldable pub compare_versions : Bytes → Bytes → Option ℤ
unfolding compare_from
compare_versions a b =
    compare_from (suc (length (stripped a) + length (stripped b))) (stripped a) (stripped b)

pub record Release : Type 0 where
  pub tag : Bytes
  pub html_url : Bytes

pub record Status : Type 0 where
  pub current : Bytes
  pub latest : Bytes
  pub latest_plain : Bytes
  pub available : Bool
  pub release_url : Bytes
  pub checked_at : Option ℕ
  pub failed : Bool

pub record Manager : Type 0 where
  pub current : Bytes
  pub last : Status
  pub ttl : ℕ

abbrev pub no_status : Status
no_status = record {
  current = [];
  latest = [];
  latest_plain = [];
  available = false;
  release_url = [];
  checked_at = none;
  failed = false;
}

-- New: the time to live is an hour, in nanoseconds.
unfoldable pub new_manager : Bytes → Manager
new_manager version = record { current = version; last = no_status; ttl = 3600 * 1000000000 }

abbrev pub is_positive : Option ℤ → Bool
is_positive none = false
is_positive (some (pos zero)) = false
is_positive (some (pos (suc n))) = true
is_positive (some (negsuc n)) = false

abbrev pub status_of : Bytes → ℕ → Option Release → Status
status_of version now none = record {
  current = version;
  latest = [];
  latest_plain = [];
  available = false;
  release_url = [];
  checked_at = some now;
  failed = true;
}
status_of version now (some r) = record {
  current = version;
  latest = r.tag;
  latest_plain = trim_prefix (codes "v") r.tag;
  available = is_positive (compare_versions (trim_prefix (codes "v") r.tag) version);
  release_url = r.html_url;
  checked_at = some now;
  failed = false;
}

-- Refresh, given what the probe returned
unfoldable pub refresh : ℕ → Option Release → Manager → Status × Manager
refresh now probe m =
    let s = status_of m.current now probe in
    (s, record { current = m.current; last = s; ttl = m.ttl })

abbrev pub is_cached : ℕ → Option ℕ → ℕ → Bool
is_cached now none ttl = false
is_cached now (some t) ttl = ltb (now - t) ttl

-- Status; the probe's result is used only when the cached status is stale.
unfoldable pub status : ℕ → Option Release → Manager → Status × Manager
unfolding refresh
status now probe m =
    if is_cached now m.last.checked_at m.ttl then (m.last, m) else refresh now probe m
