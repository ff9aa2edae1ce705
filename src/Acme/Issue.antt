-- ===== src/Acme/Issue.antt =====
-- internal/acme/acme.go: issuing a certificate, and renewing those that expire.
use aura_cp.Prelude.{
  ◌/◌, Bool, false, ◌&&◌, not, [], ◌++◌, Bytes, codes, ◌==◌, bytes_eq, string_eq, if◌then◌else◌,
  Result, ok, err,
}
use aura_cp.Errors.{Error, no_cloudflare_token, dns_setup_failed, obtain_failed, client_failed}
use aura_cp.Paths.{ssl_dir, cert_path, key_path}
use aura_cp.Os.{
  mkdir_all, write_file, Kernel, Exec, pure, raise, asks, perform, ignored, each, ◌>>=◌, ◌>>◌,
}
use aura_cp.Auth.Accounts.{get_setting}
use aura_cp.Store.{
  Certificate, Tables, certificate, upsert_certificate, certificates_expiring_within,
}
use aura_cp.Host.{Host, on_machine, query, commit}
use aura_cp.Acme.{
  Authority, Outcome, issued, refused, second, month, looks_like_proxied_domain, hint, row_of,
  renewing, failed, saved, is_fresh, opened, no_token_text,
}
use aura_cp.Acme.Obtain.{ensure_client, set_http_01, set_dns_01_cloudflare, obtain_with_kid_heal}

module _ {W : Type 0} (k : Kernel W) (a : Authority W) where
  unfoldable pub cloudflare_token : Tables → Bytes
  cloudflare_token t = opened a.decrypt (get_setting "cloudflare_token_enc" t.panel)

  unfoldable pub save_issued_cert :
      (domain : Bytes) → Certificate → (certificate key : Bytes) → Exec (Host W) (Unit {0})
  save_issued_cert domain prev certificate key = do
    on_machine (
        perform k (mkdir_all ssl_dir 0o750)
        >> perform k (write_file (cert_path domain) certificate 0o644)
        >> perform k (write_file (key_path domain) key 0o600))
    now ← asks (λ h. a.now h.machine)
    commit (upsert_certificate (saved (now / second) (a.leaf_expiry certificate) prev))
    on_machine (ignored a.reloader)

  abbrev pub give_up : Certificate → (text : Bytes) → Error → Exec (Host W) (Unit {0})
  give_up prev text e = commit (upsert_certificate (failed text prev)) >> raise e

  abbrev pub after_dns : Bytes → Certificate → Outcome → Exec (Host W) (Unit {0})
  after_dns domain prev (refused text) =
      give_up prev (codes "DNS-01 (Cloudflare): " ++ text) obtain_failed
  after_dns domain prev (issued certificate key) = save_issued_cert domain prev certificate key

  abbrev pub with_dns : Bytes → Certificate → Result Bytes (Unit {0}) → Exec (Host W) (Unit {0})
  with_dns domain prev (err text) =
      give_up prev (codes "DNS-01 setup failed: " ++ text) dns_setup_failed
  with_dns domain prev (ok x) = obtain_with_kid_heal k a domain >>= after_dns domain prev

  -- issue, when the operator has chosen DNS-01
  unfoldable pub issue_dns : (domain : Bytes) → Certificate → Exec (Host W) (Unit {0})
  unfolding cloudflare_token set_dns_01_cloudflare obtain_with_kid_heal save_issued_cert
  issue_dns domain prev = do
    token ← query cloudflare_token
    if token == []
        then give_up prev no_token_text no_cloudflare_token
        else set_dns_01_cloudflare k a token >>= with_dns domain prev

  abbrev pub hint_for : (text token : Bytes) → Bytes
  hint_for text token =
      if looks_like_proxied_domain k.to_lower text && not (token == []) then hint else []

  abbrev pub after_http : Bytes → Certificate → Outcome → Exec (Host W) (Unit {0})
  after_http domain prev (refused text) = do
    token ← query cloudflare_token
    give_up prev (text ++ hint_for text token) obtain_failed
  after_http domain prev (issued certificate key) = save_issued_cert domain prev certificate key

  abbrev pub with_http : Bytes → Certificate → Result Bytes (Unit {0}) → Exec (Host W) (Unit {0})
  with_http domain prev (err text) = raise client_failed
  with_http domain prev (ok x) = obtain_with_kid_heal k a domain >>= after_http domain prev

  unfoldable pub issue_http : (domain : Bytes) → Certificate → Exec (Host W) (Unit {0})
  unfolding cloudflare_token set_http_01 obtain_with_kid_heal save_issued_cert
      looks_like_proxied_domain
  issue_http domain prev = set_http_01 k a >>= with_http domain prev

  -- issue and IssueOnce
  unfoldable pub issue : (domain : Bytes) (force_dns : Bool) → Exec (Host W) (Unit {0})
  unfolding ensure_client issue_dns issue_http
  issue domain force_dns = do
    ensure_client k a
    old ← query (certificate domain)
    commit (upsert_certificate (renewing (row_of domain old)))
    if force_dns
        then issue_dns domain (renewing (row_of domain old))
        else issue_http domain (renewing (row_of domain old))

  unfoldable pub ensure_cert : (domain : Bytes) → Exec (Host W) (Unit {0})
  unfolding issue
  ensure_cert domain = do
    now ← asks (λ h. a.now h.machine)
    row ← query (certificate domain)
    if is_fresh now row then pure tt else issue domain false

  unfoldable pub renew : Certificate → Exec (Host W) (Unit {0})
  unfolding issue
  renew c = ignored (issue c.domain false)

  unfoldable pub renew_due : Exec (Host W) (Unit {0})
  unfolding renew
  renew_due = do
    now ← asks (λ h. a.now h.machine)
    due ← query (certificates_expiring_within (now / second) month)
    each renew due
