-- ===== src/Acme/Obtain.antt =====
-- internal/acme/acme.go and http_provider.go: the client with its account, the challenges that it answers, and
-- obtaining a certificate with it.
use aura_cp.Prelude.{
  not, [], ◌∷◌, ◌++◌, Option, none, some, String, Bytes, codes, bytes_eq, string_eq, if◌then◌else◌,
  Result, ok, err,
}
use aura_cp.Errors.{Error, client_failed, register_failed}
use aura_cp.Filepath.{join_path}
use aura_cp.Paths.{acme_challenge_dir}
use aura_cp.Os.{
  mkdir_all, remove, write_file, Kernel, Exec, pure, lift, asks, need, guard, perform, attempt,
  ignored, relabel, ◌>>=◌, ◌>>◌,
}
use aura_cp.Auth.Accounts.{get_setting}
use aura_cp.Store.{certificate}
use aura_cp.Host.{Host, Client, on_machine, query, set_client, caught}
use aura_cp.Site.Users.{exists}
use aura_cp.Acme.{
  Authority, Registration, Outcome, issued, refused, is_kid_error, has_uri, email_of, as_error,
  changed,
}

module _ {W : Type 0} (k : Kernel W) (a : Authority W) where
  abbrev pub acme_root : Bytes
  acme_root = join_path (a.etc_dir ∷ codes "acme" ∷ [])

  abbrev pub account_path : Bytes
  account_path = join_path (acme_root ∷ codes "account.key" ∷ [])

  abbrev pub registration_path : Bytes
  registration_path = join_path (acme_root ∷ codes "registration.json" ∷ [])

  -- Present and CleanUp of the HTTP-01 provider
  unfoldable pub present : (dir token key_auth : Bytes) → Exec W (Unit {0})
  present dir token key_auth = do
    perform k (mkdir_all dir 0o755)
    perform k (write_file (join_path (dir ∷ token ∷ [])) key_auth 0o644)

  unfoldable pub clean_up : (dir token : Bytes) → Exec W (Unit {0})
  clean_up dir token = attempt k (remove (join_path (dir ∷ token ∷ [])))

  unfoldable pub load_or_create_account_key : Exec W Bytes
  load_or_create_account_key = do
    there ← asks (k.read_file account_path)
    if exists there
        then (do key ← need there; guard (not (a.parses_key key)) client_failed; pure key)
        else do
          made ← asks a.fresh_key
          key ← need made
          perform k (write_file account_path key 0o600)
          pure key

  unfoldable pub load_registration : W → Option Registration
  load_registration w = elim (k.read_file registration_path w) [
    | none ↦ none
    | some body ↦ a.read_registration body
  ]

  abbrev pub save_registration : Registration → Exec W (Unit {0})
  save_registration r = perform k (write_file registration_path (a.print_registration r) 0o600)

  -- the account that the authority knows for the key, or a new one
  unfoldable pub registered : Client → Exec W Registration
  registered c = do
    known ← a.resolve_account c
    if has_uri known
        then need known
        else do made ← a.register c; relabel register_failed (need made)

  unfoldable pub account : Client → Exec W Registration
  unfolding load_registration registered
  account c = do
    stored ← asks load_registration
    if has_uri stored
        then need stored
        else do reg ← registered c; ignored (save_registration reg); pure reg

  abbrev pub new_client : Bytes → String → Client
  new_client key email = record {
    key = key;
    email = email;
    staging = a.staging;
    uri = [];
    http_01 = some acme_challenge_dir;
    dns_01 = none;
  }

  -- The client that ensureClient makes when there is none.
  unfoldable pub make_client : String → Exec W Client
  unfolding load_or_create_account_key account
  make_client email = do
    perform k (mkdir_all acme_root 0o700)
    key ← load_or_create_account_key
    let c = new_client key email
    guard (not (a.accepts c)) client_failed
    relabel client_failed (lift (as_error (a.accepts_http acme_challenge_dir)))
    reg ← account c
    pure (record c { uri = reg.uri })

  unfoldable pub ensure_client : Exec (Host W) (Unit {0})
  unfolding make_client
  ensure_client = do
    there ← asks (λ h. h.client)
    if exists there then pure tt else do
      email ← query (λ t. email_of (get_setting "acme_email" t.panel))
      c ← on_machine (make_client email)
      set_client (some c)

  abbrev pub change_client : (Client → Client) → Exec (Host W) (Unit {0})
  change_client f = do c ← asks (λ h. h.client); set_client (changed f c)

  abbrev pub if_accepted :
      (Client → Client) → Result Bytes (Unit {0}) → Exec (Host W) (Result Bytes (Unit {0}))
  if_accepted f (ok x) = change_client f >> pure (ok x)
  if_accepted f (err text) = pure (err text)

  -- The text of the library's error is in the result.
  unfoldable pub set_http_01 : Exec (Host W) (Result Bytes (Unit {0}))
  set_http_01 = do
    change_client (λ c. record c { dns_01 = none })
    if_accepted (λ c. record c { http_01 = some acme_challenge_dir })
        (a.accepts_http acme_challenge_dir)

  unfoldable pub set_dns_01_cloudflare : (token : Bytes) → Exec (Host W) (Result Bytes (Unit {0}))
  set_dns_01_cloudflare token = do
    change_client (λ c. record c { http_01 = none })
    if_accepted (λ c. record c { dns_01 = some token }) (a.accepts_dns token)

  -- The client is there, since ensure_client comes first.
  unfoldable pub obtain : (domain : Bytes) → Exec (Host W) Outcome
  obtain domain = do there ← asks (λ h. h.client); c ← need there; on_machine (a.obtain c domain)

  abbrev pub retry : (domain : Bytes) → Result Bytes (Unit {0}) → Exec (Host W) Outcome
  retry domain (ok x) = obtain domain
  retry domain (err text) = pure (refused text)

  abbrev pub after_rebuild : (domain : Bytes) → Result Error (Unit {0}) → Exec (Host W) Outcome
  after_rebuild domain (err e) = pure (refused (codes "rebuild after kid error: " ++ a.text e))
  after_rebuild domain (ok x) = set_http_01 >>= retry domain

  -- Forget the registration, make the client again, and try once more.
  unfoldable pub heal : (domain : Bytes) → Exec (Host W) Outcome
  unfolding obtain ensure_client set_http_01
  heal domain = do
    set_client none
    on_machine (attempt k (remove registration_path))
    rebuilt ← caught ensure_client
    after_rebuild domain rebuilt

  abbrev pub heal_kid : (domain : Bytes) → Outcome → Exec (Host W) Outcome
  heal_kid domain (issued certificate key) = pure (issued certificate key)
  heal_kid domain (refused text) = if is_kid_error text then heal domain else pure (refused text)

  unfoldable pub obtain_with_kid_heal : (domain : Bytes) → Exec (Host W) Outcome
  unfolding obtain heal is_kid_error
  obtain_with_kid_heal domain = obtain domain >>= heal_kid domain
