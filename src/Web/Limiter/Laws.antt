-- ===== src/Web/Limiter/Laws.antt =====
-- The rate limiter against a log of the attempts it has accepted.
use aura_cp.Prelude.{
  ℕ, suc, ◌≤◌, ◌≡◌, refl, sym, ap, ◌∙◌, inl, inr, Bool, true, false, ◌&&◌, List, [], ◌∷◌, ◌++◌,
  arith, Bytes, bytes_beq, bytes_beq_iff, ltb, leb, length, keep, if◌then◌else◌, Bool-cases,
}
use aura_cp.Web.Limiter.{Limiter, new_limiter, is_fresh, store, allow}

abbrev pub Attempt : Type 0
Attempt = Bytes × ℕ

-- What the limiter answers to attempts in turn.
unfoldable pub answers : Limiter → List Attempt → List Bool
answers rl [] = []
answers rl ((key, now) ∷ rest) = let (b, rl') = allow key now rl in b ∷ answers rl' rest

-- How many attempts of a log are by `key` and less than `window` old.
abbrev pub recent : ℕ → Bytes → ℕ → List Attempt → ℕ
recent window key now [] = 0
recent window key now ((k, t) ∷ log) =
    if bytes_beq k key && is_fresh now window t
    then suc (recent window key now log)
    else recent window key now log

-- What to answer, by a log of everything accepted so far, which forgets nothing.
abbrev pub by_log : ℕ → ℕ → List Attempt → List Attempt → List Bool
by_log max window log [] = []
by_log max window log ((key, now) ∷ rest) =
    let yes = ltb (recent window key now log) max in
    yes ∷ by_log max window (if yes then (key, now) ∷ log else log) rest

-- Times do not go back, and start at or after a given one.
abbrev pub InOrder : ℕ → List Attempt → Type 0
InOrder from [] = Unit
InOrder from ((key, now) ∷ rest) = (from ≤ now) × InOrder now rest

-- Up to the time `from`, the hits of each key are the log's recent attempts.
abbrev Agrees : ℕ → Limiter → List Attempt → Type 0
Agrees from rl log =
    (key : Bytes) (t : ℕ)
    → from ≤ t
    → length (keep (is_fresh t rl.window) (rl.hits key)) ≡ recent rl.window key t log

module _ (p : ℕ → Bool) where
  keep_yes : (x : ℕ) (xs : List ℕ) → p x ≡ true → keep p (x ∷ xs) ≡ x ∷ keep p xs
  unfolding keep
  keep_yes x xs e = rw (e, keep) refl

  keep_no : (x : ℕ) (xs : List ℕ) → p x ≡ false → keep p (x ∷ xs) ≡ keep p xs
  unfolding keep
  keep_no x xs e = rw (e, keep) refl

  length-keep_yes :
      (x : ℕ) (xs : List ℕ) → p x ≡ true → length (keep p (xs ++ x ∷ [])) ≡ suc (length (keep p xs))
  unfolding keep
  length-keep_yes x [] e = ap length (keep_yes x [] e)
  length-keep_yes x (y ∷ ys) e = elim (Bool-cases (p y)) [
    | inl f ↦
        ap length (keep_yes y _ f)
        ∙ ap suc (length-keep_yes x ys e)
        ∙ sym (ap (λ l. suc (length l)) (keep_yes y ys f))
    | inr f ↦
        ap length (keep_no y _ f)
        ∙ length-keep_yes x ys e
        ∙ sym (ap (λ l. suc (length l)) (keep_no y ys f))
  ]

  length-keep_no :
      (x : ℕ) (xs : List ℕ) → p x ≡ false → length (keep p (xs ++ x ∷ [])) ≡ length (keep p xs)
  unfolding keep
  length-keep_no x [] e = ap length (keep_no x [] e)
  length-keep_no x (y ∷ ys) e = elim (Bool-cases (p y)) [
    | inl f ↦
        ap length (keep_yes y _ f)
        ∙ ap suc (length-keep_no x ys e)
        ∙ sym (ap length (keep_yes y ys f))
    | inr f ↦ ap length (keep_no y _ f) ∙ length-keep_no x ys e ∙ sym (ap length (keep_no y ys f))
  ]

is_fresh-later : (w now t x : ℕ) → now ≤ t → is_fresh now w x ≡ false → is_fresh t w x ≡ false
is_fresh-later w now t x le h = ground arith

-- Dropping what is stale now loses nothing that is fresh later.
keep-keep :
    (w now t : ℕ) (xs : List ℕ)
    → now ≤ t
    → keep (is_fresh t w) (keep (is_fresh now w) xs) ≡ keep (is_fresh t w) xs
unfolding keep
keep-keep w now t [] le = refl
keep-keep w now t (x ∷ xs) le =
    let ih = keep-keep w now t xs le in
    elim (Bool-cases (is_fresh now w x)) [
      | inl e ↦
          ap (keep (is_fresh t w)) (keep_yes (is_fresh now w) x xs e)
          ∙ elim (Bool-cases (is_fresh t w x)) [
            | inl f ↦
                keep_yes (is_fresh t w) x _ f
                ∙ ap (λ l. x ∷ l) ih
                ∙ sym (keep_yes (is_fresh t w) x xs f)
            | inr f ↦ keep_no (is_fresh t w) x _ f ∙ ih ∙ sym (keep_no (is_fresh t w) x xs f)
          ]
      | inr e ↦
          ap (keep (is_fresh t w)) (keep_no (is_fresh now w) x xs e)
          ∙ ih
          ∙ sym (keep_no (is_fresh t w) x xs (is_fresh-later w now t x le e))
    ]

module _ (rl : Limiter) (log : List Attempt) (key : Bytes) (now : ℕ) (h : Agrees now rl log) where
  abbrev kept : List ℕ
  kept = keep (is_fresh now rl.window) (rl.hits key)

  fresh_of :
      (k : Bytes) (t : ℕ)
      → now ≤ t
      → bytes_beq key k ≡ true
      → length (keep (is_fresh t rl.window) kept) ≡ recent rl.window k t log
  fresh_of k t le e =
      ap length (keep-keep rl.window now t (rl.hits key) le)
      ∙ h key t le
      ∙ ap (λ q. recent rl.window q t log) ((bytes_beq_iff key k).0 e)

  refused-Agrees : Agrees now (store key kept rl) log
  unfolding store
  refused-Agrees k t le = elim (Bool-cases (bytes_beq key k)) [
    | inl e ↦ rw e (fresh_of k t le e)
    | inr e ↦ rw e (h k t le)
  ]

  accepted-Agrees : Agrees now (store key (kept ++ now ∷ []) rl) ((key, now) ∷ log)
  unfolding store keep
  accepted-Agrees k t le = elim (Bool-cases (bytes_beq key k)) [
    | inl e ↦ elim (Bool-cases (is_fresh t rl.window now)) [
      | inl f ↦
          rw (e, f) (length-keep_yes (is_fresh t rl.window) now kept f ∙ ap suc (fresh_of k t le e))
      | inr f ↦ rw (e, f) (length-keep_no (is_fresh t rl.window) now kept f ∙ fresh_of k t le e)
    ]
    | inr e ↦ rw e (h k t le)
  ]

answers-by_log_from :
    (rest : List Attempt) (rl : Limiter) (log : List Attempt) (from : ℕ)
    → Agrees from rl log
    → InOrder from rest
    → answers rl rest ≡ by_log rl.max rl.window log rest
unfolding answers allow store
answers-by_log_from [] rl log from h o = refl
answers-by_log_from ((key, now) ∷ rest) rl log from h (le, o) =
    elim (Bool-cases (leb rl.max (length (kept rl log key now h')))) [
      | inl e ↦
          rw (e, no e)
            (ap (λ l. false ∷ l)
              (answers-by_log_from rest (store key (kept rl log key now h') rl) log now
                (refused-Agrees rl log key now h') o))
      | inr e ↦
          rw (e, yes e)
            (ap (λ l. true ∷ l)
              (answers-by_log_from rest (store key (kept rl log key now h' ++ now ∷ []) rl)
                ((key, now) ∷ log) now (accepted-Agrees rl log key now h') o))
    ]
  where
    h' : Agrees now rl log
    h' k t now_le = h k t (omega (arith, le, now_le))

    no :
        leb rl.max (length (kept rl log key now h')) ≡ true
        → ltb (recent rl.window key now log) rl.max ≡ false
    no e = ground (arith, h' key now (omega arith))

    yes :
        leb rl.max (length (kept rl log key now h')) ≡ false
        → ltb (recent rl.window key now log) rl.max ≡ true
    yes e = ground (arith, h' key now (omega arith))

-- Whatever keys try at whatever times, so long as the clock does not go back, a new limiter allows
-- an attempt exactly when fewer than `max` of the attempts of its key that were allowed are less than
-- `window` old.
pub answers-by_log :
    (max window : ℕ) (rest : List Attempt)
    → InOrder 0 rest
    → answers (new_limiter max window) rest ≡ by_log max window [] rest
unfolding new_limiter keep
answers-by_log max window rest o =
    answers-by_log_from rest (new_limiter max window) [] 0 (λ key t le. refl) o
