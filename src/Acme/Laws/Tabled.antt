-- ===== src/Acme/Laws/Tabled.antt =====
-- Predicates of the tables that every method of the ACME manager keeps when its upserts do.
use aura_cp.Prelude.{ℕ, ◌≡◌, refl, Bool, false, Option, none, some, Bytes, Result, ok, err}
use aura_cp.Errors.{Error}
use aura_cp.Os.{State, Kernel, Exec, raise, need, ◌>>=◌}
use aura_cp.Os.Steady.{Preserves, Preserves-pure, Preserves-asks, Preserves-if, Preserves-bind}
use aura_cp.Store.{Tables, Certificate, upsert_certificate, certificate}
use aura_cp.Host.{
  Host, Client, on_machine, query, commit, try_commit, committed, set_client, caught,
}
use aura_cp.Acme.{Authority, Outcome, issued, refused, renewing, row_of, failed, saved}
use aura_cp.Acme.Obtain.{
  ensure_client, make_client, set_http_01, set_dns_01_cloudflare, if_accepted, obtain, heal, retry,
  after_rebuild, heal_kid, obtain_with_kid_heal, change_client,
}
use aura_cp.Acme.Issue.{
  save_issued_cert, give_up, after_dns, with_dns, issue_dns, after_http, with_http, issue_http,
  issue, ensure_cert,
}

pub record Tabled {W : Type 0} (R : Tables → Type 0) (s : State (Host W)) : Type 0 where
  pub holds : R s.world.tables

module _ {W A : Type 0} {R : Tables → Type 0} where
  pub Tabled-on_machine : (m : Exec W A) → Preserves (Tabled R) (on_machine m)
  unfolding on_machine
  Tabled-on_machine m = record { at = λ s h. record { holds = h.holds } }

  pub Tabled-query : (f : Tables → A) → Preserves (Tabled {W = W} R) (query f)
  unfolding query
  Tabled-query f = record { at = λ s h. record { holds = h.holds } }

  pub Tabled-raise : (e : Error) → Preserves {A = A} (Tabled {W = W} R) (raise e)
  unfolding raise
  Tabled-raise e = record { at = λ s h. record { holds = h.holds } }

  pub Tabled-need : (o : Option A) → Preserves (Tabled {W = W} R) (need o)
  unfolding need
  Tabled-need none = record { at = λ s h. h }
  Tabled-need (some a) = record { at = λ s h. h }

  pub Tabled-caught :
      (m : Exec (Host W) A) → Preserves (Tabled R) m → Preserves (Tabled R) (caught m)
  unfolding caught
  Tabled-caught m km = record { at = λ s h. record { holds = (km.at s h).holds } }

module _ {W A B : Type 0} {R : Tables → Type 0} where
  -- The rest of the block may use what holds of the tables that it has read.
  pub Tabled-query_bind :
      (f : Tables → A) (g : A → Exec (Host W) B)
      → ((t : Tables) → R t → Preserves (Tabled R) (g (f t)))
      → Preserves (Tabled R) (query f >>= g)
  unfolding query ◌>>=◌
  Tabled-query_bind f g kg = record { at = λ s h. (kg s.world.tables h.holds).at s h }

module _ {W : Type 0} {R : Tables → Type 0} where
  pub Tabled-set_client : (c : Option Client) → Preserves (Tabled {W = W} R) (set_client c)
  unfolding set_client
  Tabled-set_client c = record { at = λ s h. record { holds = h.holds } }

  pub Tabled-commit :
      (f : Tables → Tables)
      → ((t : Tables) → R t → R (f t))
      → Preserves (Tabled {W = W} R) (commit f)
  unfolding commit
  Tabled-commit f kf = record { at = λ s h. record { holds = kf s.world.tables h.holds } }

  committed-Tabled :
      (s : State (Host W)) (o : Option Tables) (r : R s.world.tables)
      → ((t : Tables) → o ≡ some t → R t)
      → Tabled R (committed o s).1
  committed-Tabled s none r kept = record { holds = r }
  committed-Tabled s (some t) r kept = record { holds = kept t refl }

  pub Tabled-try_commit :
      (f : Tables → Option Tables)
      → ((t u : Tables) → R t → f t ≡ some u → R u)
      → Preserves (Tabled {W = W} R) (try_commit f)
  unfolding try_commit
  Tabled-try_commit f kf = record {
    at =
        λ s h. committed-Tabled s (f s.world.tables) h.holds (λ t e. kf s.world.tables t h.holds e);
  }

module _ {W : Type 0} {R : Tables → Type 0} (k : Kernel W) (a : Authority W) where
  ensure_client-Tabled : Preserves (Tabled R) (ensure_client k a)
  unfolding ensure_client
  ensure_client-Tabled = Preserves-bind _ _ (Preserves-asks _) λ there.
      Preserves-if _ _ _ (Preserves-pure tt) (
        Preserves-bind _ _ (Tabled-query _) λ email.
          Preserves-bind _ _ (Tabled-on_machine (make_client k a email))
            λ c. Tabled-set_client (some c))

  change-Tabled : (f : Client → Client) → Preserves (Tabled R) (change_client k a f)
  change-Tabled f = Preserves-bind _ _ (Preserves-asks _) λ c. Tabled-set_client _

  if_accepted-Tabled :
      (f : Client → Client) (r : Result Bytes (Unit {0}))
      → Preserves (Tabled R) (if_accepted k a f r)
  if_accepted-Tabled f (ok x) = Preserves-bind _ _ (change-Tabled f) λ y. Preserves-pure (ok x)
  if_accepted-Tabled f (err text) = Preserves-pure (err text)

  set_http_01-Tabled : Preserves (Tabled R) (set_http_01 k a)
  unfolding set_http_01
  set_http_01-Tabled = Preserves-bind _ _ (change-Tabled _) λ x. if_accepted-Tabled _ _

  set_dns_01-Tabled : (token : Bytes) → Preserves (Tabled R) (set_dns_01_cloudflare k a token)
  unfolding set_dns_01_cloudflare
  set_dns_01-Tabled token = Preserves-bind _ _ (change-Tabled _) λ x. if_accepted-Tabled _ _

  obtain-Tabled : (domain : Bytes) → Preserves (Tabled R) (obtain k a domain)
  unfolding obtain
  obtain-Tabled domain =
      Preserves-bind _ _ (Preserves-asks _)
        λ there. Preserves-bind _ _ (Tabled-need there) λ c. Tabled-on_machine (a.obtain c domain)

  retry-Tabled :
      (domain : Bytes) (r : Result Bytes (Unit {0})) → Preserves (Tabled R) (retry k a domain r)
  retry-Tabled domain (ok x) = obtain-Tabled domain
  retry-Tabled domain (err text) = Preserves-pure _

  after_rebuild-Tabled :
      (domain : Bytes) (r : Result Error (Unit {0}))
      → Preserves (Tabled R) (after_rebuild k a domain r)
  after_rebuild-Tabled domain (err e) = Preserves-pure _
  after_rebuild-Tabled domain (ok x) = Preserves-bind _ _ set_http_01-Tabled (retry-Tabled domain)

  heal-Tabled : (domain : Bytes) → Preserves (Tabled R) (heal k a domain)
  unfolding heal
  heal-Tabled domain = Preserves-bind _ _ (Tabled-set_client none) λ x.
      Preserves-bind _ _ (Tabled-on_machine _)
        λ y. Preserves-bind _ _ (Tabled-caught _ ensure_client-Tabled) (after_rebuild-Tabled domain)

  heal_kid-Tabled : (domain : Bytes) (o : Outcome) → Preserves (Tabled R) (heal_kid k a domain o)
  heal_kid-Tabled domain (issued body key) = Preserves-pure _
  heal_kid-Tabled domain (refused text) = Preserves-if _ _ _ (heal-Tabled domain) (Preserves-pure _)

  pub obtain_with_kid_heal-Tabled :
      (domain : Bytes) → Preserves (Tabled R) (obtain_with_kid_heal k a domain)
  unfolding obtain_with_kid_heal
  obtain_with_kid_heal-Tabled domain =
      Preserves-bind _ _ (obtain-Tabled domain) (heal_kid-Tabled domain)

  -- V holds of the rows that one run of the manager writes: it holds of the one that the run starts from, and is
  -- kept by a failure and by a saved certificate.
  module _ (domain : Bytes) (V : Certificate → Type 0)
      (start : (t : Tables) → R t → V (renewing (row_of domain (certificate domain t))))
      (fail : (text : Bytes) (c : Certificate) → V c → V (failed text c))
      (save : (now : ℕ) (body : Bytes) (c : Certificate)
        → V c
        → V (saved now (a.leaf_expiry body) c))
      (upsert : (c : Certificate) (t : Tables) → V c → R t → R (upsert_certificate c t)) where
    give_up-Tabled :
        (prev : Certificate) (text : Bytes) (e : Error)
        → V prev
        → Preserves (Tabled R) (give_up k a prev text e)
    give_up-Tabled prev text e same =
        Preserves-bind _ _
          (Tabled-commit _ (λ t. upsert (failed text prev) t (fail text prev same)))
          λ x. Tabled-raise e

    save-Tabled :
        (prev : Certificate) (body key : Bytes)
        → V prev
        → Preserves (Tabled R) (save_issued_cert k a domain prev body key)
    unfolding save_issued_cert
    save-Tabled prev body key same = Preserves-bind _ _ (Tabled-on_machine _) λ x.
        Preserves-bind _ _ (Preserves-asks _) λ now.
          Preserves-bind _ _ (Tabled-commit _ (λ t. upsert _ t (save _ body prev same)))
            λ y. Tabled-on_machine _

    after_dns-Tabled :
        (prev : Certificate) (o : Outcome)
        → V prev
        → Preserves (Tabled R) (after_dns k a domain prev o)
    after_dns-Tabled prev (refused text) same = give_up-Tabled prev _ _ same
    after_dns-Tabled prev (issued body key) same = save-Tabled prev body key same

    with_dns-Tabled :
        (prev : Certificate) (r : Result Bytes (Unit {0}))
        → V prev
        → Preserves (Tabled R) (with_dns k a domain prev r)
    with_dns-Tabled prev (err text) same = give_up-Tabled prev _ _ same
    with_dns-Tabled prev (ok x) same =
        Preserves-bind _ _ (obtain_with_kid_heal-Tabled domain) λ o. after_dns-Tabled prev o same

    issue_dns-Tabled :
        (prev : Certificate) → V prev → Preserves (Tabled R) (issue_dns k a domain prev)
    unfolding issue_dns
    issue_dns-Tabled prev same = Preserves-bind _ _ (Tabled-query _) λ token.
        Preserves-if _ _ _ (give_up-Tabled prev _ _ same)
          (Preserves-bind _ _ (set_dns_01-Tabled token) λ r. with_dns-Tabled prev r same)

    after_http-Tabled :
        (prev : Certificate) (o : Outcome)
        → V prev
        → Preserves (Tabled R) (after_http k a domain prev o)
    after_http-Tabled prev (refused text) same =
        Preserves-bind _ _ (Tabled-query _) λ token. give_up-Tabled prev _ _ same
    after_http-Tabled prev (issued body key) same = save-Tabled prev body key same

    with_http-Tabled :
        (prev : Certificate) (r : Result Bytes (Unit {0}))
        → V prev
        → Preserves (Tabled R) (with_http k a domain prev r)
    with_http-Tabled prev (err text) same = Tabled-raise _
    with_http-Tabled prev (ok x) same =
        Preserves-bind _ _ (obtain_with_kid_heal-Tabled domain) λ o. after_http-Tabled prev o same

    issue_http-Tabled :
        (prev : Certificate) → V prev → Preserves (Tabled R) (issue_http k a domain prev)
    unfolding issue_http
    issue_http-Tabled prev same =
        Preserves-bind _ _ set_http_01-Tabled λ r. with_http-Tabled prev r same

    pub issue-Tabled : (force_dns : Bool) → Preserves (Tabled R) (issue k a domain force_dns)
    unfolding issue
    issue-Tabled force_dns = Preserves-bind _ _ ensure_client-Tabled λ x.
        Tabled-query_bind (certificate domain) _ λ t r.
          let prev = renewing (row_of domain (certificate domain t)) in
          Preserves-bind _ _ (Tabled-commit _ (λ u. upsert prev u (start t r))) λ y.
            Preserves-if _ _ _ (issue_dns-Tabled prev (start t r))
              (issue_http-Tabled prev (start t r))

    pub ensure_cert-Tabled : Preserves (Tabled R) (ensure_cert k a domain)
    unfolding ensure_cert
    ensure_cert-Tabled = Preserves-bind _ _ (Preserves-asks _) λ now.
        Preserves-bind _ _ (Tabled-query (certificate domain))
          λ row. Preserves-if _ _ _ (Preserves-pure tt) (issue-Tabled false)
