-- ===== src/Acme.antt =====
-- internal/acme/acme.go and http_provider.go: issuing and renewing certificates.
--
-- The ACME library, the files that encode keys and certificates, and the secret box are parameters. The pauses
-- between renewals and the loop that starts a round every twelve hours are left out.
pub mod Obtain
pub mod Issue
pub mod Laws
use aura_cp.Prelude.{
  ℕ, zero, suc, ◌+◌, ◌*◌, ◌/◌, Bool, true, false, ◌&&◌, ◌||◌, not, List, [], ◌∷◌, ◌++◌, Option,
  none, some, String, Bytes, codes, ◌==◌, bytes_eq, string_eq, ltb, if◌then◌else◌, any, Result, ok,
  err,
}
use aura_cp.Prelude.Text.{contains}
use aura_cp.Errors.{
  Error, os_error, no_cloudflare_token, dns_setup_failed, obtain_failed, client_failed,
  register_failed,
}
use aura_cp.Filepath.{join_path}
use aura_cp.Paths.{ssl_dir, cert_path, key_path, acme_challenge_dir}
use aura_cp.Os.{
  mkdir_all, remove, write_file, Kernel, Exec, pure, raise, lift, asks, need, guard, perform,
  attempt, ignored, relabel, each, ◌>>=◌, ◌>>◌,
}
use aura_cp.Auth.Accounts.{get_setting}
use aura_cp.Store.{
  Certificate, Tables, certificate, upsert_certificate, certificates_expiring_within,
}
use aura_cp.Host.{Host, Client, on_machine, query, commit, set_client, caught}
use aura_cp.Site.Users.{exists}

-- registration.Resource: the account's URI, and the rest
pub record Registration : Type 0 where
  pub uri : Bytes
  pub body : Bytes

-- What Obtain returns: the certificate and its key, or the text of an error.
pub data Outcome : Type 0 where
  issued : (certificate key : Bytes) → Outcome
  refused : (text : Bytes) → Outcome

-- acme.Manager with the libraries it calls
pub record Authority (W : Type 0) : Type 0 where
  pub etc_dir : Bytes
  pub staging : Bool
  -- time.Now, in nanoseconds since 1970
  pub now : W → ℕ
  -- Decrypt of the secret box, if there is one
  pub decrypt : String → Option Bytes
  -- lego.NewClient, its two challenge providers and Obtain
  pub accepts : Client → Bool
  pub accepts_http : (dir : Bytes) → Result Bytes (Unit {0})
  pub accepts_dns : (token : Bytes) → Result Bytes (Unit {0})
  pub obtain : Client → Bytes → Exec W Outcome
  -- Registration.ResolveAccountByKey and Registration.Register
  pub resolve_account : Client → Exec W (Option Registration)
  pub register : Client → Exec W (Option Registration)
  -- the PEM text of a fresh key, whether a PEM text holds a key, and NotAfter of a certificate
  pub fresh_key : W → Option Bytes
  pub parses_key : Bytes → Bool
  pub leaf_expiry : Bytes → Option ℕ
  -- registration.json
  pub read_registration : Bytes → Option Registration
  pub print_registration : Registration → Bytes
  -- the text of an error that the code makes
  pub text : Error → Bytes
  -- the callback after a certificate has been saved
  pub reloader : Exec W (Unit {0})

abbrev pub second : ℕ
second = 1000000000

abbrev pub month : ℕ
month = 30 * 24 * 3600

-- isKidError
unfoldable pub is_kid_error : Bytes → Bool
is_kid_error text = contains (codes "JWS") text && contains (codes "Key ID") text

abbrev proxy_words : List Bytes
proxy_words =
    codes "cloudflare"
    ∷ codes "unauthorized"
    ∷ codes "incorrect"
    ∷ codes "404"
    ∷ codes "403"
    ∷ codes "connection refused"
    ∷ codes "timeout"
    ∷ codes "dns problem"
    ∷ []

unfoldable pub looks_like_proxied_domain : (to_lower : Bytes → Bytes) → Bytes → Bool
looks_like_proxied_domain to_lower text = any (λ word. contains word (to_lower text)) proxy_words

abbrev pub hint : Bytes
hint =
    codes
      " (this looks like a proxied / firewalled origin; enable Cloudflare DNS-01 in this site's SSL tab"
    ++ codes " to issue via DNS instead)"

-- the row that issue starts from
abbrev pub blank : Bytes → Certificate
blank domain = record {
  domain = domain;
  issuer = [];
  cert_path = none;
  key_path = none;
  issued_at = none;
  expires_at = none;
  status = [];
  last_error = [];
  attempts = 0;
}

abbrev pub row_of : Bytes → Option Certificate → Certificate
row_of domain none = blank domain
row_of domain (some c) = record c { domain = domain }

abbrev pub renewing : Certificate → Certificate
renewing c = record c {
  issuer = if c.issuer == [] then codes "letsencrypt" else c.issuer;
  status = codes "renewing";
  attempts = suc c.attempts;
}

abbrev pub failed : Bytes → Certificate → Certificate
failed text c = record c { status = codes "failed"; last_error = text }

-- what saveIssuedCert makes of the row
abbrev pub saved : (now : ℕ) → Option ℕ → Certificate → Certificate
saved now expiry c = record c {
  status = codes "issued";
  last_error = [];
  cert_path = some (cert_path c.domain);
  key_path = some (key_path c.domain);
  issued_at = some now;
  expires_at = elim expiry [ none ↦ c.expires_at | some at ↦ some at ];
}

abbrev pub is_fresh : ℕ → Option Certificate → Bool
is_fresh now none = false
is_fresh now (some c) = c.status == codes "issued" && elim c.expires_at [
  | none ↦ false
  | some expires ↦ ltb (now + month * second) (expires * second)
]

abbrev pub opened : (String → Option Bytes) → Option String → Bytes
opened decrypt none = []
opened decrypt (some cipher) =
    if cipher == "" then [] else elim (decrypt cipher) [ none ↦ [] | some token ↦ token ]

abbrev pub has_uri : Option Registration → Bool
has_uri none = false
has_uri (some r) = not (r.uri == [])

abbrev pub email_of : Option String → String
email_of none = ""
email_of (some e) = e

abbrev pub as_error : Result Bytes (Unit {0}) → Result Error (Unit {0})
as_error (ok x) = ok x
as_error (err text) = err client_failed

abbrev pub changed : (Client → Client) → Option Client → Option Client
changed f none = none
changed f (some c) = some (f c)

-- The arrow in the text is U+2192.
abbrev pub no_token_text : Bytes
no_token_text =
    codes
      "DNS-01 was selected but no Cloudflare API token is configured. Configure one under Settings "
    ++ (0xe2 ∷ 0x86 ∷ 0x92 ∷ [])
    ++ codes " Cloudflare, or turn off Cloudflare DNS-01 on this site to use HTTP-01."
