-- ===== src/Web/Middleware.antt =====
-- internal/api/middleware.go: Secure, and what it calls.
--
-- A header that is absent reads as the empty text. The handler behind the wrapper, random tokens and
-- the clock are parameters; the handler is known by the status codes that it writes.
pub mod Laws
use aura_cp.Prelude.{
  ℕ, ◌*◌, ◌-◌, Bool, true, false, ◌&&◌, ◌||◌, not, List, [], ◌∷◌, ◌++◌, Option, none, some, Bytes,
  codes, ◌==◌, bytes_eq, nat_eq, ltb, if◌then◌else◌,
}
use aura_cp.Prelude.Text.{has_prefix, trim_space}
use aura_cp.Web.Limiter.{Limiter, allow, new_limiter}

pub record Request : Type 0 where
  pub method : Bytes
  pub path : Bytes
  pub header : Bytes → Bytes
  pub cookies : List (Bytes × Bytes)
  pub remote_addr : Bytes
  pub tls : Bool

pub record Cookie : Type 0 where
  pub name : Bytes
  pub value : Bytes
  pub path : Bytes
  pub http_only : Bool
  pub secure : Bool

-- What the wrapper writes: headers and cookies, and the lines of its access log (status, duration).
pub record Response : Type 0 where
  pub headers : List (Bytes × Bytes)
  pub set_cookies : List Cookie
  pub log : List (ℕ × ℕ)

pub data Outcome : Type 0 where
  too_many_attempts : Outcome
  invalid_csrf_token : Outcome
  served : (by_handler : Request) → Outcome

abbrev pub csrf_cookie : Bytes
csrf_cookie = codes "auracp_csrf"

abbrev pub csrf_header : Bytes
csrf_header = codes "X-CSRF-Token"

abbrev pub upper : ℕ → ℕ
upper c = c - 32

-- r.Cookie: the first cookie of that name
unfoldable pub cookie : Bytes → List (Bytes × Bytes) → Option Bytes
cookie name [] = none
cookie name ((n, v) ∷ cs) = if n == name then some v else cookie name cs

abbrev pub is_unsafe : Request → Bool
is_unsafe r =
    r.method == codes "POST"
    || (r.method == codes "PUT" || (r.method == codes "PATCH" || r.method == codes "DELETE"))

abbrev pub is_login_attempt : Request → Bool
is_login_attempt r =
    r.method == codes "POST"
    && (r.path == codes "/api/auth/login" || r.path == codes "/api/auth/mfa/verify")

-- strings.EqualFold with "https": ASCII letters of either case, and for `s` also the long s that
-- Unicode folds with it, the bytes 197 and 191.
unfoldable pub folds_to : Bytes → Bytes → Bool
folds_to [] [] = true
folds_to [] (x ∷ xs) = false
folds_to (c ∷ cs) [] = false
folds_to (c ∷ cs) (x ∷ []) = (x == c || x == upper c) && folds_to cs []
folds_to (c ∷ cs) (x ∷ y ∷ xs) =
    let plain = folds_to cs (y ∷ xs) in
    let long = folds_to cs xs in
    ((x == c || x == upper c) && plain) || ((c == 115 && (x == 197 && y == 191)) && long)

unfoldable pub is_tls : Request → Bool
is_tls r = r.tls || folds_to (codes "https") (r.header (codes "X-Forwarded-Proto"))

-- What stands before the first byte `c`, and whether there is one.
unfoldable pub before_first : ℕ → Bytes → Bytes × Bool
before_first c [] = ([], false)
before_first c (x ∷ s) =
    let (t, found) = before_first c s in if x == c then ([], true) else (x ∷ t, found)

-- What stands before the last byte `c`, and whether there is one.
unfoldable pub before_last : ℕ → Bytes → Bytes × Bool
before_last c [] = ([], false)
before_last c (x ∷ s) =
    let (t, found) = before_last c s in if found then (x ∷ t, true) else ([], x == c)

-- `if i > 0 { s = s[:i] }`, for the index that stands after the bytes given
abbrev pub cut : Bytes × Bool → Bytes → Bytes
cut (t, false) s = s
cut ([], true) s = s
cut (x ∷ t, true) s = x ∷ t

-- The comma is 44, the colon 58.
unfoldable pub client_ip : Request → Bytes
client_ip r =
    let xff = r.header (codes "X-Forwarded-For") in
    if xff == []
    then cut (before_last 58 r.remote_addr) r.remote_addr
    else trim_space (cut (before_first 44 xff) xff)

abbrev pub security_headers : List (Bytes × Bytes)
security_headers =
    (codes "X-Content-Type-Options", codes "nosniff")
    ∷ (codes "X-Frame-Options", codes "DENY")
    ∷ (codes "Referrer-Policy", codes "no-referrer")
    ∷ (codes "Cross-Origin-Opener-Policy", codes "same-origin")
    ∷ (codes "Content-Security-Policy", csp)
    ∷ []
  where
    csp : Bytes
    csp =
        codes "default-src 'self'; script-src 'self'; "
        ++ codes "style-src 'self' 'unsafe-inline' https://fonts.googleapis.com; "
        ++ codes
            "font-src 'self' https://fonts.gstatic.com; img-src 'self' data:; connect-src 'self'; "
        ++ codes "frame-ancestors 'none'; base-uri 'self'"

abbrev pub with_cookie : Bytes → Request → Request
with_cookie token r = record {
  method = r.method;
  path = r.path;
  header = r.header;
  cookies = r.cookies ++ (csrf_cookie, token) ∷ [];
  remote_addr = r.remote_addr;
  tls = r.tls;
}

abbrev pub fresh_cookie : Bytes → Request → Cookie
fresh_cookie token r = record {
  name = csrf_cookie;
  value = token;
  path = codes "/";
  http_only = false;
  secure = is_tls r;
}

abbrev pub ensured : Option Bytes → Option Bytes → Request → Request × List Cookie
ensured (some v) token r = (r, [])
ensured none none r = (r, [])
ensured none (some t) r = (with_cookie t r, fresh_cookie t r ∷ [])

-- The request that the rest of the handler sees, and the cookies set. `token` is what RandomToken
-- returns, `none` an error.
unfoldable pub ensure_csrf_cookie : Option Bytes → Request → Request × List Cookie
ensure_csrf_cookie token r = ensured (cookie csrf_cookie r.cookies) token r

abbrev pub token_ok : Option Bytes → Bytes → Bool
token_ok none sent = false
token_ok (some v) sent = if v == [] then false else sent == v

unfoldable pub csrf_ok : Request → Bool
csrf_ok r = token_ok (cookie csrf_cookie r.cookies) (r.header csrf_header)

abbrev pub is_api : Request → Bool
is_api r = has_prefix (codes "/api/") r.path

-- logAPI: the line it writes
unfoldable pub log_api : Request → ℕ → ℕ → List (ℕ × ℕ)
log_api r status took = if r.path == codes "/api/health" then [] else (status, took) ∷ []

-- statusRecorder: the last code that the handler writes, or 200
unfoldable pub recorded : ℕ → List ℕ → ℕ
recorded status [] = status
recorded status (code ∷ written) = recorded code written

-- newRateLimiter(10, 5*time.Minute)
abbrev pub login_limiter : Limiter
login_limiter = new_limiter 10 (5 * 60000000000)

module _ (next : Request → List ℕ) (took : ℕ) where
  abbrev pub respond : List Cookie → List (ℕ × ℕ) → Response
  respond cookies log = record { headers = security_headers; set_cookies = cookies; log = log }

  -- from the CSRF test on
  abbrev pub guarded : Request → List Cookie → Outcome × Response
  guarded r cookies =
      if is_unsafe r && (is_api r && not (csrf_ok r))
      then (invalid_csrf_token, respond cookies [])
      else if is_api r
      then (served r, respond cookies (log_api r (recorded 200 (next r)) took))
      else (served r, respond cookies [])

  abbrev pub limited : Bool × Limiter → Request → List Cookie → (Outcome × Response) × Limiter
  limited (false, rl) r cookies = ((too_many_attempts, respond cookies (log_api r 429 0)), rl)
  limited (true, rl) r cookies = (guarded r cookies, rl)

  -- The handler that Secure returns. The log.Printf of a CSRF reject is not noted.
  unfoldable pub secure : Option Bytes → ℕ → Request → Limiter → (Outcome × Response) × Limiter
  secure token now r rl =
      let (r', cookies) = ensure_csrf_cookie token r in
      limited (if is_login_attempt r' then allow (client_ip r') now rl else (true, rl)) r' cookies
