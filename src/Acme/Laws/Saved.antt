-- ===== src/Acme/Laws/Saved.antt =====
-- A success of the ACME manager means that the table has an issued certificate.
use aura_cp.Prelude.{
  ℕ, ◌≡◌, refl, Bool, true, false, ◌⊎◌, inl, inr, [], Option, none, some, Bytes, codes, Result, ok,
  err, if◌then◌else◌, subst,
}
use aura_cp.Errors.{Error}
use aura_cp.Paths.{cert_path, key_path}
use aura_cp.Os.{State, Kernel, Exec, asks, pure, ◌>>=◌}
use aura_cp.Os.Triples.{Yields, Yields-bind, Yields-raise, Yields-made, Yields-if}
use aura_cp.Os.Steady.{Makes, Makes-before}
use aura_cp.Store.{Tables, Certificate, certificate, upsert_certificate}
use aura_cp.Store.Laws.{merged_into, upsert-same}
use aura_cp.Host.{Host, query, commit}
use aura_cp.Acme.{Authority, Outcome, issued, refused, renewing, row_of, saved, is_fresh}
use aura_cp.Acme.Issue.{
  save_issued_cert, give_up, after_dns, with_dns, issue_dns, after_http, with_http, issue_http,
  issue, ensure_cert,
}
use aura_cp.Acme.Laws.Tabled.{Tabled, Tabled-on_machine}

-- The table says that the domain has a certificate in the files where nginx looks for it.
abbrev pub IsIssued : Bytes → Tables → Type 0
IsIssued domain t =
    (c : Certificate) × (certificate domain t ≡ some c)
    × (c.status ≡ codes "issued")
    × (c.last_error ≡ [])
    × (c.cert_path ≡ some (cert_path domain))
    × (c.key_path ≡ some (key_path domain))

abbrev Tells : Bytes → Certificate → Type 0
Tells domain c =
    (c.status ≡ codes "issued")
    × (c.last_error ≡ [])
    × (c.cert_path ≡ some (cert_path domain))
    × (c.key_path ≡ some (key_path domain))

saved-Tells :
    (prev : Certificate) (now : ℕ) (expiry : Option ℕ) (o : Option Certificate)
    → Tells prev.domain (merged_into (saved now expiry prev) o)
saved-Tells prev now expiry none = (refl, refl, refl, refl)
saved-Tells prev now expiry (some row) = (refl, refl, refl, refl)

saved-IsIssued :
    (prev : Certificate) (now : ℕ) (expiry : Option ℕ) (t : Tables)
    → IsIssued prev.domain (upsert_certificate (saved now expiry prev) t)
saved-IsIssued prev now expiry t =
    let c = saved now expiry prev in
    let old = certificate prev.domain t in
    let (status, fine, cert, key) = saved-Tells prev now expiry old in
    (merged_into c old, upsert-same c t, status, fine, cert, key)

module _ {W : Type 0} (k : Kernel W) (a : Authority W) (domain : Bytes) where
  abbrev Is : State (Host W) → Type 0
  Is = Tabled (IsIssued domain)

  give_up-Yields :
      (prev : Certificate) (text : Bytes) (e : Error) → Yields Is (give_up k a prev text e)
  give_up-Yields prev text e = Yields-bind _ _ λ x. Yields-raise e

  commit-Makes :
      (prev : Certificate) (now : ℕ) (expiry : Option ℕ)
      → prev.domain ≡ domain
      → Makes Is (commit (upsert_certificate (saved now expiry prev)))
  unfolding commit
  commit-Makes prev now expiry same = record {
    at = λ s. record {
      holds =
          subst (λ d. IsIssued d (upsert_certificate (saved now expiry prev) s.world.tables)) same
            (saved-IsIssued prev now expiry s.world.tables);
    };
  }

  save-Yields :
      (prev : Certificate) (body key : Bytes)
      → prev.domain ≡ domain
      → Yields Is (save_issued_cert k a domain prev body key)
  unfolding save_issued_cert
  save-Yields prev body key same = Yields-bind _ _ λ x.
      Yields-bind _ _ λ now.
        Yields-made _ (Makes-before _ _ (commit-Makes prev _ _ same) λ y. Tabled-on_machine _)

  after_dns-Yields :
      (prev : Certificate) (o : Outcome)
      → prev.domain ≡ domain
      → Yields Is (after_dns k a domain prev o)
  after_dns-Yields prev (refused text) same = give_up-Yields prev _ _
  after_dns-Yields prev (issued body key) same = save-Yields prev body key same

  with_dns-Yields :
      (prev : Certificate) (r : Result Bytes (Unit {0}))
      → prev.domain ≡ domain
      → Yields Is (with_dns k a domain prev r)
  with_dns-Yields prev (err text) same = give_up-Yields prev _ _
  with_dns-Yields prev (ok x) same = Yields-bind _ _ λ o. after_dns-Yields prev o same

  after_http-Yields :
      (prev : Certificate) (o : Outcome)
      → prev.domain ≡ domain
      → Yields Is (after_http k a domain prev o)
  after_http-Yields prev (refused text) same = Yields-bind _ _ λ token. give_up-Yields prev _ _
  after_http-Yields prev (issued body key) same = save-Yields prev body key same

  with_http-Yields :
      (prev : Certificate) (r : Result Bytes (Unit {0}))
      → prev.domain ≡ domain
      → Yields Is (with_http k a domain prev r)
  with_http-Yields prev (err text) same = Yields-raise _
  with_http-Yields prev (ok x) same = Yields-bind _ _ λ o. after_http-Yields prev o same

  issue_dns-Yields :
      (prev : Certificate) → prev.domain ≡ domain → Yields Is (issue_dns k a domain prev)
  unfolding issue_dns
  issue_dns-Yields prev same = Yields-bind _ _ λ token.
      Yields-if _ _ _ (give_up-Yields prev _ _) (Yields-bind _ _ λ r. with_dns-Yields prev r same)

  issue_http-Yields :
      (prev : Certificate) → prev.domain ≡ domain → Yields Is (issue_http k a domain prev)
  unfolding issue_http
  issue_http-Yields prev same = Yields-bind _ _ λ r. with_http-Yields prev r same

  row_of-domain : (old : Option Certificate) → (row_of domain old).domain ≡ domain
  row_of-domain none = refl
  row_of-domain (some c) = refl

  issue-Yields : (force_dns : Bool) → Yields Is (issue k a domain force_dns)
  unfolding issue
  issue-Yields force_dns = Yields-bind _ _ λ x. Yields-bind _ _ λ old. Yields-bind _ _ λ y.
      Yields-if _ _ _ (issue_dns-Yields (renewing (row_of domain old)) (row_of-domain old))
        (issue_http-Yields (renewing (row_of domain old)) (row_of-domain old))

  either-IsIssued :
      (fresh : Bool) (s : State (Host W)) (m : Exec (Host W) (Unit {0}))
      → Yields Is m
      → ((if fresh then pure tt else m) s).0 ≡ ok tt
      → IsIssued domain ((if fresh then pure tt else m) s).1.world.tables
        ⊎ (fresh ≡ true) × (((if fresh then pure tt else m) s).1 ≡ s)
  unfolding pure
  either-IsIssued true s m y e = inr (refl, refl)
  either-IsIssued false s m y e = inl (y.at s tt e).holds

  -- When EnsureCert returns without an error, the table has an issued certificate for the domain in the
  -- files where nginx looks for it, or it had one that is valid for more than 30 days and nothing has
  -- happened.
  pub ensure_cert-ok :
      (s : State (Host W))
      → (ensure_cert k a domain s).0 ≡ ok tt
      → IsIssued domain (ensure_cert k a domain s).1.world.tables
        ⊎ (is_fresh (a.now s.world.machine) (certificate domain s.world.tables) ≡ true)
          × ((ensure_cert k a domain s).1 ≡ s)
  unfolding ensure_cert asks query ◌>>=◌
  ensure_cert-ok s e =
      either-IsIssued (is_fresh (a.now s.world.machine) (certificate domain s.world.tables)) s
        (issue k a domain false) (issue-Yields false) e
