-- ===== src/Web/Middleware/Laws.antt =====
-- What Secure lets through, and what it does to the rate limiter.
use aura_cp.Prelude.{
  ℕ, ◌≡◌, ◌≢◌, ◌↔◌, refl, sym, ◌∙◌, ◌⊎◌, inl, inr, Bool, true, false, ◌&&◌, not, List, [], ◌∷◌,
  ◌++◌, Option, none, some, arith, Bytes, ◌==◌, bytes_eq, bytes_beq_iff, if◌then◌else◌, Bool-cases,
}
use aura_cp.Web.Limiter.{Limiter, allow}
use aura_cp.Web.Middleware.{
  Cookie, Request, Outcome, too_many_attempts, invalid_csrf_token, served, csrf_cookie, csrf_header,
  cookie, is_unsafe, is_api, is_login_attempt, client_ip, with_cookie, fresh_cookie, ensured,
  ensure_csrf_cookie, token_ok, csrf_ok, guarded, limited, secure,
}

-- The cookie's token of a request as the code reads it: its own, or one just made when it has none.
abbrev pub HasToken : Option Bytes → Request → Bytes → Type 0
HasToken token r v =
    (cookie csrf_cookie r.cookies ≡ some v)
    ⊎ ((cookie csrf_cookie r.cookies ≡ none) × (token ≡ some v))

-- The handler behind the wrapper is called.
abbrev pub Passes : Outcome → Type 0
Passes too_many_attempts = ⊥
Passes invalid_csrf_token = ⊥
Passes (served r) = Unit

abbrev pub IsThrottled : Outcome → Type 0
IsThrottled too_many_attempts = Unit
IsThrottled invalid_csrf_token = ⊥
IsThrottled (served r) = ⊥

cookie-append :
    (cs : List (Bytes × Bytes)) (v : Bytes)
    → cookie csrf_cookie cs ≡ none
    → cookie csrf_cookie (cs ++ (csrf_cookie, v) ∷ []) ≡ some v
unfolding cookie
cookie-append [] v h = refl
cookie-append ((n, w) ∷ cs) v h = elim (Bool-cases (n == csrf_cookie)) [
  | inl e ↦ absurd (ground (arith, rw e at h))
  | inr e ↦ rw e (cookie-append cs v (rw e at h))
]

token_ok_lem :
    (o : Option Bytes) (sent : Bytes)
    → token_ok o sent ≡ true
    → (v : Bytes) × (o ≡ some v) × (v ≢ []) × (sent ≡ v)
token_ok_lem none sent h = ground arith
token_ok_lem (some v) sent h = elim (Bool-cases (v == [])) [
  | inl e ↦ absurd (ground (arith, rw e at h))
  | inr e ↦ (
    v,
    refl,
    (λ f. ground (arith, e, (bytes_beq_iff v []).1 f)),
    (bytes_beq_iff sent v).0 (rw e at h),
  )
]

module _ (next : Request → List ℕ) (took : ℕ) where
  guarded-csrf_ok :
      (r : Request) (cookies : List Cookie)
      → Passes (guarded next took r cookies).0
      → is_unsafe r ≡ true
      → is_api r ≡ true
      → csrf_ok r ≡ true
  guarded-csrf_ok r cookies h u a = elim (Bool-cases (csrf_ok r)) [
    | inl e ↦ e
    | inr e ↦ absurd (rw (u, a, e) at h)
  ]

  limited-csrf_ok :
      (p : Bool × Limiter) (r : Request) (cookies : List Cookie)
      → Passes (limited next took p r cookies).0.0
      → is_unsafe r ≡ true
      → is_api r ≡ true
      → csrf_ok r ≡ true
  limited-csrf_ok (false, rl) r cookies h u a = absurd h
  limited-csrf_ok (true, rl) r cookies h u a = guarded-csrf_ok r cookies h u a

  reaches :
      (o token : Option Bytes) (r : Request) (p : Bool × Limiter)
      → cookie csrf_cookie r.cookies ≡ o
      → Passes (limited next took p (ensured o token r).0 (ensured o token r).1).0.0
      → is_unsafe r ≡ true
      → is_api r ≡ true
      → (v : Bytes) × (v ≢ []) × (r.header csrf_header ≡ v) × HasToken token r v
  unfolding csrf_ok
  reaches (some w) token r p e h u a =
      let (v, o, ne, s) = token_ok_lem _ _ (limited-csrf_ok p r [] h u a) in (v, ne, s, inl o)
  reaches none none r p e h u a =
      let (v, o, ne, s) = token_ok_lem _ _ (limited-csrf_ok p r [] h u a) in (v, ne, s, inl o)
  reaches none (some t) r p e h u a =
      let (v, o, ne, s) =
        token_ok_lem _ _ (limited-csrf_ok p (with_cookie t r) (fresh_cookie t r ∷ []) h u a) in
      (v, ne, s, inr (e, sym (cookie-append r.cookies t e) ∙ o))

  -- A request under /api/ with a method that changes something reaches the handler only if its
  -- X-CSRF-Token header is the token of its CSRF cookie, which is not empty; a request without
  -- the cookie counts as having the one that is just made for it.
  pub secure-csrf :
      (token : Option Bytes) (now : ℕ) (r : Request) (rl : Limiter)
      → Passes (secure next took token now r rl).0.0
      → is_unsafe r ≡ true
      → is_api r ≡ true
      → (v : Bytes) × (v ≢ []) × (r.header csrf_header ≡ v) × HasToken token r v
  unfolding secure ensure_csrf_cookie
  secure-csrf token now r rl h u a = reaches (cookie csrf_cookie r.cookies) token r _ refl h u a

  not-IsThrottled :
      (r : Request) (cookies : List Cookie) → ¬ IsThrottled (guarded next took r cookies).0
  not-IsThrottled r cookies h = elim (Bool-cases (is_unsafe r && (is_api r && not (csrf_ok r)))) [
    | inl e ↦ rw e at h
    | inr e ↦ elim (Bool-cases (is_api r)) [ inl f ↦ rw (e, f) at h | inr f ↦ rw (e, f) at h ]
  ]

  throttled :
      (b : Bool) (p : Bool × Limiter) (rl : Limiter) (r : Request) (cookies : List Cookie)
      → IsThrottled (limited next took (if b then p else (true, rl)) r cookies).0.0
        ↔ ((b ≡ true) × (p.0 ≡ false))
  throttled false p rl r cookies =
      ((λ h. absurd (not-IsThrottled r cookies h)), (λ h. ground (arith, h.0)))
  throttled true (true, rl') rl r cookies =
      ((λ h. absurd (not-IsThrottled r cookies h)), (λ h. ground (arith, h.1)))
  throttled true (false, rl') rl r cookies = ((λ h. (refl, refl)), (λ h. tt))

  limiter_after :
      (b : Bool) (p : Bool × Limiter) (rl : Limiter) (r : Request) (cookies : List Cookie)
      → (limited next took (if b then p else (true, rl)) r cookies).1 ≡ (if b then p.1 else rl)
  limiter_after false p rl r cookies = refl
  limiter_after true (true, rl') rl r cookies = refl
  limiter_after true (false, rl') rl r cookies = refl

  throttle_of :
      (o token : Option Bytes) (now : ℕ) (r : Request) (rl : Limiter)
      → let (r', cookies) = ensured o token r in
        let out =
          limited next took
            (if is_login_attempt r' then allow (client_ip r') now rl else (true, rl))
            r'
            cookies in
        (IsThrottled out.0.0
          ↔ ((is_login_attempt r ≡ true) × ((allow (client_ip r) now rl).0 ≡ false)))
        × (out.1 ≡ (if is_login_attempt r then (allow (client_ip r) now rl).1 else rl))
  unfolding client_ip
  throttle_of (some w) token now r rl =
      (throttled (is_login_attempt r) _ rl r [], limiter_after (is_login_attempt r) _ rl r [])
  throttle_of none none now r rl =
      (throttled (is_login_attempt r) _ rl r [], limiter_after (is_login_attempt r) _ rl r [])
  throttle_of none (some t) now r rl = (
    throttled (is_login_attempt r) _ rl _ _,
    limiter_after (is_login_attempt r) _ rl (with_cookie t r) (fresh_cookie t r ∷ []),
  )

  -- A request is answered with "too many attempts" exactly when it is a login attempt that the rate
  -- limiter refuses for the client's address, and no other request changes the limiter.
  pub secure-throttle :
      (token : Option Bytes) (now : ℕ) (r : Request) (rl : Limiter)
      → (IsThrottled (secure next took token now r rl).0.0
          ↔ ((is_login_attempt r ≡ true) × ((allow (client_ip r) now rl).0 ≡ false)))
        × ((secure next took token now r rl).1
            ≡ (if is_login_attempt r then (allow (client_ip r) now rl).1 else rl))
  unfolding secure ensure_csrf_cookie client_ip
  secure-throttle token now r rl = throttle_of (cookie csrf_cookie r.cookies) token now r rl
