-- ===== src/Tests/Web.antt =====
-- The HTTP wrapper and the updater on concrete inputs.
use aura_cp.Prelude.{
  ℕ, ◌*◌, ◌+◌, ◌≡◌, refl, ◌≢◌, ◌↔◌, Bool, true, false, List, [], ◌∷◌, Option, none, some, Bytes,
  codes, ltb, ◌==◌, bytes_eq, if◌then◌else◌, arith,
}
use aura_cp.Web.Limiter.{new_limiter, allow}
use aura_cp.Web.Limiter.Laws.{answers, by_log, answers-by_log}
use aura_cp.Web.Middleware.{
  Request, csrf_cookie, csrf_header, is_unsafe, is_api, is_login_attempt, client_ip, secure,
  login_limiter,
}
use aura_cp.Web.Middleware.Laws.{IsThrottled, HasToken, secure-csrf, secure-throttle}
use aura_cp.Updater.{Manager, compare_versions, stripped, new_manager, refresh, status}
use aura_cp.Updater.Versions.{lexicographic, numbers, compare_versions_lem}
use aura_cp.Updater.Cache.{status-refresh}

-- Two attempts in a window of ten: the third is refused, one after the window is not.
answers-by_log_example :
    answers
      (new_limiter 2 10)
      ((codes "a", 1) ∷ (codes "a", 2) ∷ (codes "a", 3) ∷ (codes "a", 12) ∷ [])
    ≡ by_log 2 10 [] ((codes "a", 1) ∷ (codes "a", 2) ∷ (codes "a", 3) ∷ (codes "a", 12) ∷ [])
answers-by_log_example =
    answers-by_log 2 10 ((codes "a", 1) ∷ (codes "a", 2) ∷ (codes "a", 3) ∷ (codes "a", 12) ∷ [])
      (omega arith, (omega arith, (omega arith, (omega arith, tt))))

abbrev login : Request
login = record {
  method = codes "POST";
  path = codes "/api/auth/login";
  header = λ name. if name == csrf_header then codes "secret" else [];
  cookies = (csrf_cookie, codes "secret") ∷ [];
  remote_addr = codes "192.0.2.1:4711";
  tls = true;
}

abbrev handler : Request → List ℕ
handler r = 201 ∷ []

secure-csrf_example :
    (v : Bytes) × (v ≢ []) × (login.header csrf_header ≡ v) × HasToken none login v
unfolding secure aura_cp.Web.Middleware.ensure_csrf_cookie aura_cp.Web.Middleware.cookie allow
    new_limiter aura_cp.Prelude.Text.has_prefix aura_cp.Web.Middleware.csrf_ok
secure-csrf_example = secure-csrf handler 5 none 7 login login_limiter tt refl refl

secure-throttle_example :
    (IsThrottled (secure handler 5 none 7 login login_limiter).0.0
      ↔ ((is_login_attempt login ≡ true) × ((allow (client_ip login) 7 login_limiter).0 ≡ false)))
    × ((secure handler 5 none 7 login login_limiter).1 ≡ (
        if is_login_attempt login
        then (allow (client_ip login) 7 login_limiter).1
        else login_limiter))
secure-throttle_example = secure-throttle handler 5 none 7 login login_limiter

compare_versions_lem_example :
    compare_versions (codes "v0.2.10") (codes "0.2.9")
    ≡ some
        (lexicographic (numbers (stripped (codes "v0.2.10"))) (numbers (stripped (codes "0.2.9"))))
compare_versions_lem_example = compare_versions_lem (codes "v0.2.10") (codes "0.2.9")

abbrev panel : Manager
panel = new_manager (codes "0.2.9")

status-refresh_example : status 20 none (refresh 10 none panel).1 ≡ (
    if ltb 20 (10 + panel.ttl)
    then refresh 10 none panel
    else refresh 20 none (refresh 10 none panel).1)
status-refresh_example = status-refresh 10 20 none none panel (omega arith)
