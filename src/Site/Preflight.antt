-- ===== src/Site/Preflight.antt =====
-- internal/site/creator/preflight.go: what is checked before anything is changed.
--
-- It asks and changes nothing, so it is a function of the world. `none` for the installed versions
-- stands for a PHP manager that is nil.
use aura_cp.Prelude.{
  Bool, true, false, ◌&&◌, ◌||◌, not, List, [], ◌∷◌, Option, none, some, Bytes, codes, ◌==◌,
  bytes_eq, any, if◌then◌else◌, Result, ok, err, fail_if, ◌>>◌,
}
use aura_cp.Prelude.Text.{has_prefix}
use aura_cp.Errors.{
  Error, vhost_exists, stale_pool, home_has_files, home_not_empty, php_not_installed,
  upstream_missing, upstream_not_url, upstream_scheme, upstream_loopback, start_file_missing,
  module_missing,
}
use aura_cp.Validate
use aura_cp.Filepath.{join_path}
use aura_cp.Paths.{site_home, nginx_site_file, php_pool_file}
use aura_cp.Os.{Info, Kernel}
use aura_cp.Site.Spec.{Spec, is_php}
use aura_cp.Site.Users.{exists}

-- what url.Parse finds in a text
pub record Url : Type 0 where
  pub scheme : Bytes
  pub hostname : Bytes

abbrev pub is_loopback : Bytes → Bool
is_loopback host =
    host == codes "127.0.0.1" || host == codes "localhost" || has_prefix (codes "127.") host

-- IsDir of an entry; one whose Info fails is taken for a file.
abbrev pub entry_is_dir : Option Info → Bool
entry_is_dir none = false
entry_is_dir (some i) = i.is_dir

abbrev pub has_entries : Option (List (Bytes × Option Info)) → Bool
has_entries none = false
has_entries (some []) = false
has_entries (some (e ∷ es)) = true

abbrev pub check_url : Option Url → Result Error (Unit {0})
check_url none = err upstream_not_url
check_url (some u) =
    if not (u.scheme == codes "http" || u.scheme == codes "https")
    then err upstream_scheme
    else fail_if (is_loopback u.hostname) upstream_loopback

module _ {W : Type 0} (k : Kernel W) (parse_url : Bytes → Option Url) (w : W) where
  unfoldable pub check_pools : Bytes → List Bytes → Result Error (Unit {0})
  check_pools domain [] = ok tt
  check_pools domain (v ∷ vs) =
      let rest = check_pools domain vs in
      if exists (k.stat (php_pool_file v domain) w) then err stale_pool else rest

  unfoldable pub check_home : Bytes → List (Bytes × Option Info) → Result Error (Unit {0})
  check_home home [] = ok tt
  check_home home ((name, info) ∷ es) =
      let rest = check_home home es in
      if not (entry_is_dir info)
      then err home_has_files
      else if has_entries (k.read_dir (join_path (home ∷ name ∷ [])) w)
          && not (name == codes ".ssh")
      then err home_not_empty
      else rest

  abbrev pub check_read : Bytes → Option (List (Bytes × Option Info)) → Result Error (Unit {0})
  check_read home none = ok tt
  check_read home (some es) = check_home home es

  abbrev pub check_version : Bytes → Option (List Bytes) → Result Error (Unit {0})
  check_version v none = ok tt
  check_version v (some vs) = fail_if (not (any (λ u. u == v) vs)) php_not_installed

  abbrev pub pools_of : Bytes → Option (List Bytes) → Result Error (Unit {0})
  pools_of domain none = ok tt
  pools_of domain (some vs) = check_pools domain vs

  abbrev pub check_php : Spec → Option (List Bytes) → Result Error (Unit {0})
  check_php s php = Validate.php_version s.php_version >> check_version s.php_version php

  abbrev pub check_upstream : Spec → Result Error (Unit {0})
  check_upstream s = fail_if (s.upstream == []) upstream_missing >> check_url (parse_url s.upstream)

  unfoldable pub check_type : Spec → Option (List Bytes) → Result Error (Unit {0})
  check_type s php =
      if is_php s.site_type
      then check_php s php
      else if s.site_type == codes "reverseproxy"
      then check_upstream s
      else if s.site_type == codes "nodejs"
      then fail_if (s.start_file == []) start_file_missing
      else if s.site_type == codes "python"
      then fail_if (s.entry == []) module_missing
      else ok tt

  unfoldable pub preflight : Spec → Option (List Bytes) → Result Error (Unit {0})
  unfolding check_pools check_home check_type
  preflight s php = do
    Validate.site_type s.site_type
    Validate.domain s.domain
    Validate.username s.user
    fail_if (exists (k.stat (nginx_site_file s.domain) w)) vhost_exists
    pools_of s.domain php
    check_read (site_home s.user) (k.read_dir (site_home s.user) w)
    check_type s php
