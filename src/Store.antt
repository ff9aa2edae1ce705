-- ===== src/Store.antt =====
-- internal/store: the tables of sites and their settings (queries.go, sitedata.go), certificates (certificates.go)
-- and PHP versions (phpruntimes.go).
--
-- A table is a list of rows; the newest row of a table without ORDER BY is last. A statement fails where a
-- constraint of the schema refuses it; a database that cannot be read or written is not modelled.
pub mod Laws
pub mod Nodes
use aura_cp.Prelude.{
  ℕ, suc, ◌+◌, ◌<◌, Bool, true, false, ◌&&◌, ◌||◌, not, List, [], ◌∷◌, ◌++◌, Option, none, some,
  Bytes, codes, ◌==◌, bytes_eq, ltb, if◌then◌else◌, any, keep, ℤ, pos,
}
use aura_cp.Rows.{first, update}
use aura_cp.Auth.Accounts.{Panel}

pub record Site : Type 0 where
  pub site_type : Bytes
  pub domain : Bytes
  pub site_user : Bytes
  pub root_path : Bytes
  pub app : Bytes
  pub node_version : Option Bytes
  pub port : ℤ
  pub upstream : Bytes
  pub php_version : Bytes
  pub pm2_enabled : Bool
  pub status : Bytes
  pub status_text : Bytes

-- Times are Unix seconds, none before 1970.
pub record Certificate : Type 0 where
  pub domain : Bytes
  pub issuer : Bytes
  pub cert_path : Option Bytes
  pub key_path : Option Bytes
  pub issued_at : Option ℕ
  pub expires_at : Option ℕ
  pub status : Bytes
  pub last_error : Bytes
  pub attempts : ℕ

pub record PhpRuntime : Type 0 where
  pub version : Bytes
  pub is_default : Bool

pub record NodeRuntime : Type 0 where
  pub version : Bytes
  pub path : Bytes
  pub is_default : Bool

pub record Tables : Type 0 where
  pub sites : List Site
  pub certificates : List Certificate
  pub php_runtimes : List PhpRuntime
  pub node_runtimes : List NodeRuntime
  -- (domain, key, value), of php_settings and of site_config
  pub php_settings : List (Bytes × Bytes × Bytes)
  pub site_config : List (Bytes × Bytes × Bytes)
  -- the other tables
  pub panel : Panel

-- nz
abbrev pub or_default : Bytes → Bytes → Bytes
or_default v default = if v == [] then default else v

abbrev pub of_domain : Bytes → Site → Bool
of_domain domain s = s.domain == domain

unfoldable pub site_by_domain : Bytes → Tables → Option Site
unfolding first
site_by_domain domain t = first (of_domain domain) t.sites

-- The domain is unique.
unfoldable pub create_site : Site → Tables → Option Tables
create_site s t =
    if any (of_domain s.domain) t.sites
    then none
    else some (record t {
      sites =
          t.sites
          ++ record s {
            status = or_default s.status (codes "up");
            status_text = or_default s.status_text (codes "Provisioning");
          }
            ∷ [];
    })

unfoldable pub delete_site : Bytes → Tables → Tables
unfolding keep
delete_site domain t = record t { sites = keep (λ s. not (of_domain domain s)) t.sites }

unfoldable pub set_site_php_version : (domain version : Bytes) → Tables → Tables
unfolding update
set_site_php_version domain version t = record t {
  sites = update (of_domain domain) (λ s. record s { php_version = version }) t.sites;
}

abbrev pub setting_of : (domain key : Bytes) → Bytes × Bytes × Bytes → Bool
setting_of domain key r = r.0 == domain && r.1 == key

abbrev pub third_of : Option (Bytes × Bytes × Bytes) → Option Bytes
third_of none = none
third_of (some r) = some r.2

abbrev pub text_of : Option Bytes → Bytes
text_of none = []
text_of (some v) = v

-- SiteConfig, as the lookup of a key in the map that it makes: "" where there is none
unfoldable pub config_value : (domain key : Bytes) → Tables → Bytes
unfolding first
config_value domain key t = text_of (third_of (first (setting_of domain key) t.site_config))

abbrev pub cert_of : Bytes → Certificate → Bool
cert_of domain c = c.domain == domain

-- COALESCE
abbrev pub coalesce : {A : Type 0} → Option A → Option A → Option A
coalesce none old = old
coalesce (some a) old = some a

-- What ON CONFLICT makes of the row that is there.
abbrev pub merged : Certificate → Certificate → Certificate
merged c old = record {
  domain = old.domain;
  issuer = c.issuer;
  cert_path = coalesce c.cert_path old.cert_path;
  key_path = coalesce c.key_path old.key_path;
  issued_at = coalesce c.issued_at old.issued_at;
  expires_at = coalesce c.expires_at old.expires_at;
  status = c.status;
  last_error = c.last_error;
  attempts = c.attempts;
}

unfoldable pub certificate : Bytes → Tables → Option Certificate
unfolding first
certificate domain t = first (cert_of domain) t.certificates

unfoldable pub upsert_certificate : Certificate → Tables → Tables
unfolding update
upsert_certificate c t = record t {
  certificates =
      if any (cert_of c.domain) t.certificates
      then update (cert_of c.domain) (merged c) t.certificates
      else t.certificates ++ c ∷ [];
}

abbrev pub expires_within : (now secs : ℕ) → Certificate → Bool
expires_within now secs c = elim c.expires_at [
  | none ↦ false
  | some expires ↦ ltb expires (now + secs)
]

abbrev pub expiry : Certificate → ℕ
expiry c = elim c.expires_at [ none ↦ 0 | some expires ↦ expires ]

-- ORDER BY expires_at
unfoldable pub by_expiry : Certificate → List Certificate → List Certificate
by_expiry c [] = c ∷ []
by_expiry c (d ∷ ds) = if ltb (expiry d) (expiry c) then d ∷ by_expiry c ds else c ∷ d ∷ ds

unfoldable pub sorted_by_expiry : List Certificate → List Certificate
unfolding by_expiry
sorted_by_expiry [] = []
sorted_by_expiry (c ∷ cs) = by_expiry c (sorted_by_expiry cs)

unfoldable pub certificates_expiring_within : (now secs : ℕ) → Tables → List Certificate
unfolding keep sorted_by_expiry
certificates_expiring_within now secs t =
    sorted_by_expiry (keep (expires_within now secs) t.certificates)

unfoldable pub delete_certificate : Bytes → Tables → Tables
unfolding keep
delete_certificate domain t = record t {
  certificates = keep (λ c. not (cert_of domain c)) t.certificates;
}

abbrev pub has_version : Bytes → PhpRuntime → Bool
has_version version r = r.version == version

unfoldable pub php_runtime : Bytes → Tables → Option PhpRuntime
unfolding first
php_runtime version t = first (has_version version) t.php_runtimes

unfoldable pub default_php_runtime : Tables → Option PhpRuntime
unfolding first
default_php_runtime t = first (λ r. r.is_default) t.php_runtimes

-- INSERT OR IGNORE
unfoldable pub add_php_runtime : Bytes → Tables → Tables
add_php_runtime version t = record t {
  php_runtimes =
      if any (has_version version) t.php_runtimes
      then t.php_runtimes
      else t.php_runtimes ++ record { version = version; is_default = false } ∷ [];
}

abbrev pub all_rows : {A : Type 0} → A → Bool
all_rows a = true

-- Two updates in one transaction: clear the mark everywhere, and set it on the version.
unfoldable pub set_default_php_runtime : Bytes → Tables → Tables
unfolding update
set_default_php_runtime version t = record t {
  php_runtimes =
      update (has_version version) (λ r. record r { is_default = true })
        (update all_rows (λ r. record r { is_default = false }) t.php_runtimes);
}

unfoldable pub delete_php_runtime : Bytes → Tables → Tables
unfolding keep
delete_php_runtime version t = record t {
  php_runtimes = keep (λ r. not (has_version version r)) t.php_runtimes;
}

unfoldable pub site_uses_php_version : Bytes → Tables → Bool
site_uses_php_version version t = any (λ s. s.php_version == version) t.sites

unfoldable pub php_setting : (domain key : Bytes) → Tables → Option Bytes
unfolding first
php_setting domain key t = third_of (first (setting_of domain key) t.php_settings)

unfoldable pub delete_all_php_settings : Bytes → Tables → Tables
unfolding keep
delete_all_php_settings domain t = record t {
  php_settings = keep (λ r. not (r.0 == domain)) t.php_settings;
}
