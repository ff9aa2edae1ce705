-- ===== src/Auth/Users.antt =====
-- internal/api/admin.go: managing panel users, role permissions and settings; the scope of a user
-- (scopedDomain, listSites and getSite of internal/api/api.go); and the role permissions that
-- cmd/auracpd/main.go loads at startup.
--
-- `none` stands for a body that cannot be decoded; a JSON object of texts is a list of its pairs.
use aura_cp.Prelude.{
  ℕ, Bool, false, ◌||◌, not, List, [], ◌∷◌, Option, none, some, String, Bytes, ◌==◌, bytes_eq,
  string_eq, if◌then◌else◌, any, keep,
}
use Prim.Native.String.{◌++◌ as joined}
use aura_cp.Permissions.{
  PermSet, Overrides, admin, site_manager, set_override, clear_override, allowed_sites,
}
use aura_cp.Web.Middleware.{Request}
use aura_cp.Auth.Accounts.{
  User, Panel, create_user, update_user_access, delete_user_by_email, get_setting, set_setting,
}
use aura_cp.Auth.Handlers.{Reply, Crypto, answer, refuse, created_user, done, current_user, audit}

abbrev pub known_roles : List String
known_roles = site_manager ∷ "ROLE_USER" ∷ []

-- normalizeRole
unfoldable pub normalize_role : String → String
normalize_role role =
    if role == admin || any (λ known. known == role) known_roles then role else "ROLE_USER"

-- the key of the settings table that holds the permissions of a role
abbrev pub role_key : String → String
role_key role = joined "role_perm_" role

module _ (c : Crypto) (r : Request) (now : ℕ) where
  abbrev pub added :
      Option (ℕ × Panel) → (email role : String) (password : Bytes) → Panel → Reply × Panel
  added none email role password p = refuse 400 p
  added (some (id, q)) email role password p =
      (answer 201 (created_user email role password), audit r now "user.create" email q)

  abbrev pub with_hash :
      Option Bytes
      → (email role permissions sites_scope : String) (password : Bytes) → Panel
      → Reply × Panel
  with_hash none email role permissions scope password p = refuse 500 p
  with_hash (some hash) email role permissions scope password p =
      added (create_user email hash role permissions scope p) email role password p

  -- createAdminUser, given email, role, password, permissions and scope; `random` is what RandomPassword
  -- gives, the empty text with an error, which is dropped
  unfoldable pub create_admin_user :
      Option (String × String × Bytes × String × String) → (random : Bytes) → Panel → Reply × Panel
  unfolding normalize_role
  create_admin_user none random p = refuse 400 p
  create_admin_user (some (email, role, password, permissions, scope)) random p =
      let chosen = if password == [] then random else password in
      if email == ""
      then refuse 400 p
      else with_hash (c.hash_password chosen) email (normalize_role role) permissions scope chosen p

  -- updateAdminUser, given role, permissions and scope
  unfoldable pub update_admin_user :
      (email : String) → Option (String × String × String) → Panel → Reply × Panel
  unfolding normalize_role
  update_admin_user email none p = refuse 400 p
  update_admin_user email (some (role, permissions, scope)) p = (
    answer 200 done,
    audit r now "user.update" email
        (update_user_access email (normalize_role role) permissions scope p),
  )

  abbrev pub is_self : Option User → String → Bool
  is_self none email = false
  is_self (some u) email = u.email == email

  unfoldable pub delete_admin_user : String → Panel → Reply × Panel
  unfolding current_user
  delete_admin_user email p =
      if is_self (current_user r now p) email
      then refuse 400 p
      else (answer 200 done, audit r now "user.delete" email (delete_user_by_email email p))

-- The permission matrices of the roles; `marshal` is the JSON encoder. A set may be the nil map, `none`, which the
-- body `null` decodes to, and which reads as the empty one.
module _ (marshal : Option PermSet → String) (r : Request) (now : ℕ) where
  abbrev pub entries_of : Option PermSet → PermSet
  entries_of none = []
  entries_of (some s) = s

  abbrev pub overridden : String → Option PermSet → Panel → Panel
  overridden role s p =
      let q = set_setting (role_key role) (marshal s) p in
      record q { overrides = set_override role (entries_of s) q.overrides }

  abbrev pub put_role : String → Option (Option PermSet) → Panel → Reply × Panel
  put_role role none p = refuse 400 p
  put_role role (some s) p = (answer 200 done, audit r now "role.update" role (overridden role s p))

  unfoldable pub update_role_perms : String → Option (Option PermSet) → Panel → Reply × Panel
  update_role_perms role input p =
      if role == admin
      then refuse 403 p
      else if not (any (λ known. known == role) known_roles)
      then refuse 400 p
      else put_role role input p

module _ (r : Request) (now : ℕ) where
  abbrev pub without_override : String → Panel → Panel
  without_override role p =
      let q = set_setting (role_key role) "" p in
      record q { overrides = clear_override role q.overrides }

  unfoldable pub reset_role_perms : String → Panel → Reply × Panel
  reset_role_perms role p =
      if role == admin
      then refuse 403 p
      else (answer 200 done, audit r now "role.reset" role (without_override role p))

-- the loop of putSettings
unfoldable pub set_settings : List (String × String) → Panel → Panel
unfolding set_setting
set_settings [] p = p
set_settings ((k, v) ∷ kvs) p = set_settings kvs (set_setting k v p)

unfoldable pub put_settings : Option (List (String × String)) → Panel → Reply × Panel
unfolding set_settings
put_settings none p = refuse 400 p
put_settings (some kvs) p = (answer 200 done, set_settings kvs p)

module _ (c : Crypto) where
  abbrev pub setting_or_empty : Option String → String
  setting_or_empty none = ""
  setting_or_empty (some v) = v

  abbrev pub decoded_override : String → Option (Option PermSet) → Overrides → Overrides
  decoded_override role none o = o
  decoded_override role (some none) o = o
  decoded_override role (some (some s)) o = set_override role s o

  abbrev pub load_override : Panel → String → Overrides → Overrides
  load_override p role o =
      let blob = setting_or_empty (get_setting (role_key role) p) in
      if blob == "" then o else decoded_override role (c.unmarshal_set blob) o

  -- What main does to a new process's empty overrides.
  unfoldable pub load_overrides : Panel → Overrides
  load_overrides p = load_override p "ROLE_USER" (load_override p site_manager [])

  -- The panel after the daemon is started again.
  unfoldable pub restart : Panel → Panel
  unfolding load_overrides
  restart p = record p { overrides = load_overrides p }

  abbrev pub in_scope : List String × Bool → String → Bool
  in_scope (domains, all_sites) domain = all_sites || any (λ d. d == domain) domains

  abbrev pub reaches : User → String → Bool
  reaches u domain =
      u.role == admin || in_scope (allowed_sites c.unmarshal_sites u.sites_scope) domain

  abbrev pub judged : Option User → String → Option ℕ
  judged none domain = some 401
  judged (some u) domain = if reaches u domain then none else some 403

  -- scopedDomain: the status of the refusal, if it is one
  unfoldable pub scoped_domain : Request → ℕ → String → Panel → Option ℕ
  unfolding current_user
  scoped_domain r now domain p = judged (current_user r now p) domain

  abbrev pub visible : Option User → List String → List String
  visible none domains = domains
  visible (some u) domains = if u.role == admin then domains else keep (reaches u) domains

  -- the domains of the sites that listSites shows
  unfoldable pub list_sites : Request → ℕ → List String → Panel → List String
  unfolding current_user keep
  list_sites r now domains p = visible (current_user r now p) domains
