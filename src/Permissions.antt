-- ===== src/Permissions.antt =====
-- internal/perm/perm.go: what each panel role may do with each resource.
--
-- A Go map is an association list. Decoding JSON is a parameter: `none` is an error, `some none` a
-- JSON null.
pub mod Roles
pub mod Overrides
pub mod Sites
use aura_cp.Prelude.{
  Bool, true, false, ◌||◌, List, [], ◌∷◌, Option, none, some, String, ◌==◌, string_eq,
  if◌then◌else◌,
}

abbrev pub resources : List String
resources =
    "sites" ∷ "databases" ∷ "backups" ∷ "cron" ∷ "files" ∷ "ssh_users" ∷ "users" ∷ "settings" ∷ []

pub record Crud : Type 0 where
  pub create : Bool
  pub read : Bool
  pub update : Bool
  pub delete : Bool

abbrev pub all_crud : Crud
all_crud = record { create = true; read = true; update = true; delete = true }

abbrev pub read_crud : Crud
read_crud = record { create = false; read = true; update = false; delete = false }

abbrev pub none_crud : Crud
none_crud = record { create = false; read = false; update = false; delete = false }

abbrev pub PermSet : Type 0
PermSet = List (String × Crud)

module _ {V : Type 0} where
  unfoldable pub find : String → List (String × V) → Option V
  find k [] = none
  find k ((j, v) ∷ m) = if j == k then some v else find k m

  unfoldable pub put : String → V → List (String × V) → List (String × V)
  put k v [] = (k, v) ∷ []
  put k v ((j, w) ∷ m) = if j == k then (k, v) ∷ m else (j, w) ∷ put k v m

  -- delete(m, k)
  unfoldable pub drop_key : String → List (String × V) → List (String × V)
  drop_key k [] = []
  drop_key k ((j, w) ∷ m) = let rest = drop_key k m in if j == k then rest else (j, w) ∷ rest

abbrev pub allows : Crud → String → Bool
allows c action =
    if action == "create"
    then c.create
    else if action == "read"
    then c.read
    else if action == "update"
    then c.update
    else if action == "delete"
    then c.delete
    else false

abbrev pub permitted : Option Crud → String → Bool
permitted none action = false
permitted (some c) action = allows c action

-- Set.Can
unfoldable pub can : PermSet → String → String → Bool
can s resource action = permitted (find resource s) action

abbrev pub admin : String
admin = "ROLE_ADMIN"

abbrev pub site_manager : String
site_manager = "ROLE_SITE_MANAGER"

grant_all : List String → PermSet
grant_all [] = []
grant_all (r ∷ rs) = (r, all_crud) ∷ grant_all rs

abbrev pub manager_set : PermSet
manager_set =
    ("sites", all_crud)
    ∷ ("databases", all_crud)
    ∷ ("backups", all_crud)
    ∷ ("cron", all_crud)
    ∷ ("files", all_crud)
    ∷ ("ssh_users", all_crud)
    ∷ ("users", none_crud)
    ∷ ("settings", read_crud)
    ∷ []

abbrev pub user_set : PermSet
user_set =
    ("sites", read_crud)
    ∷ ("databases", read_crud)
    ∷ ("backups", read_crud)
    ∷ ("cron", read_crud)
    ∷ ("files", read_crud)
    ∷ ("ssh_users", none_crud)
    ∷ ("users", none_crud)
    ∷ ("settings", none_crud)
    ∷ []

unfoldable pub compiled_default : String → PermSet
unfolding grant_all
compiled_default role =
    if role == admin
    then grant_all resources
    else if role == site_manager
    then manager_set
    else user_set

abbrev pub Overrides : Type 0
Overrides = List (String × PermSet)

unfoldable pub set_override : String → PermSet → Overrides → Overrides
set_override role s overrides = if role == admin then overrides else put role s overrides

unfoldable pub clear_override : String → Overrides → Overrides
clear_override role overrides = drop_key role overrides

abbrev pub is_found : {V : Type 0} → Option V → Bool
is_found none = false
is_found (some v) = true

unfoldable pub has_override : String → Overrides → Bool
has_override role overrides = is_found (find role overrides)

abbrev pub or_compiled : Option PermSet → String → PermSet
or_compiled none role = compiled_default role
or_compiled (some s) role = s

-- The copy of an override that the code makes is the same value here.
unfoldable pub default_for_role : Overrides → String → PermSet
default_for_role overrides role =
    if role == admin then compiled_default role else or_compiled (find role overrides) role

abbrev pub or_default : Option (Option PermSet) → PermSet → PermSet
or_default none d = d
or_default (some none) d = d
or_default (some (some s)) d = s

unfoldable pub parse : (String → Option (Option PermSet)) → Overrides → String → String → PermSet
parse unmarshal overrides json role =
    if json == ""
    then default_for_role overrides role
    else or_default (unmarshal json) (default_for_role overrides role)

abbrev pub with_site : String → Option (List String) → Option (List String)
with_site d none = none
with_site d (some out) = some (d ∷ out)

-- The loop of AllowedSites: `none` when it meets a star.
unfoldable pub collect_sites : List String → Option (List String)
collect_sites [] = some []
collect_sites (d ∷ ds) = let rest = collect_sites ds in if d == "*" then none else with_site d rest

abbrev pub scope_of : Option (List String) → List String × Bool
scope_of none = ([], true)
scope_of (some out) = (out, false)

abbrev pub scoped : Option (List String) → List String × Bool
scoped none = ([], true)
scoped (some domains) = scope_of (collect_sites domains)

-- The set of domains, and whether all are allowed. An empty array gives the empty set, as the loop
-- does.
unfoldable pub allowed_sites : (String → Option (List String)) → String → List String × Bool
unfolding collect_sites
allowed_sites unmarshal json = if json == "" then ([], true) else scoped (unmarshal json)
