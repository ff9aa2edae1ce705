-- ===== src/Web/Limiter.antt =====
-- internal/api/middleware.go, the type rateLimiter: at most `max` attempts of a key in a window.
--
-- Times are nanoseconds as natural numbers, so `t` is after `now - window` when `now < t + window`.
pub mod Laws
use aura_cp.Prelude.{
  ℕ, ◌+◌, Bool, true, false, List, [], ◌∷◌, ◌++◌, Bytes, bytes_beq, ltb, leb, length, keep,
  if◌then◌else◌,
}

pub record Limiter : Type 0 where
  -- a Go map, with the zero value of an absent key
  pub hits : Bytes → List ℕ
  pub max : ℕ
  pub window : ℕ

unfoldable pub new_limiter : ℕ → ℕ → Limiter
new_limiter max window = record { hits = λ key. []; max = max; window = window }

abbrev pub is_fresh : ℕ → ℕ → ℕ → Bool
is_fresh now window t = ltb now (t + window)

unfoldable pub store : Bytes → List ℕ → Limiter → Limiter
store key ts rl = record {
  hits = λ k. if bytes_beq key k then ts else rl.hits k;
  max = rl.max;
  window = rl.window;
}

abbrev pub decide : Bytes → ℕ → List ℕ → Limiter → Bool × Limiter
decide key now kept rl =
    if leb rl.max (length kept)
    then (false, store key kept rl)
    else (true, store key (kept ++ now ∷ []) rl)

unfoldable pub allow : Bytes → ℕ → Limiter → Bool × Limiter
unfolding keep
allow key now rl = decide key now (keep (is_fresh now rl.window) (rl.hits key)) rl
