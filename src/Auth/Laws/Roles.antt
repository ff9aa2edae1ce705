-- ===== src/Auth/Laws/Roles.antt =====
-- Role permissions in memory and in the settings table.
use aura_cp.Prelude.{
  ℕ, ◌≡◌, refl, inl, inr, true, false, List, [], ◌∷◌, Option, none, some, String, ◌==◌, string_eq,
  if◌then◌else◌, Bool-cases, ◌∙◌, sym, ap, All,
}
use aura_cp.Permissions.{
  PermSet, Overrides, find, admin, site_manager, set_override, clear_override, default_for_role,
}
use aura_cp.Permissions.Overrides.{find-put, find-drop_key}
use aura_cp.Permissions.Roles.{OneOf}
use aura_cp.Web.Middleware.{Request}
use aura_cp.Auth.Accounts.{Panel, get_setting, set_setting, add_audit}
use aura_cp.Auth.Handlers.{Crypto, audit}
use aura_cp.Auth.Users.{
  known_roles, role_key, setting_or_empty, decoded_override, load_override, load_overrides, restart,
  overridden, without_override, update_role_perms, reset_role_perms,
}

module _ (c : Crypto) where
  -- What the text in the settings table means as an override.
  abbrev meaning : Option (Option PermSet) → Option PermSet
  meaning none = none
  meaning (some none) = none
  meaning (some (some s)) = some s

  abbrev stored : String → Option PermSet
  stored blob = if blob == "" then none else meaning (c.unmarshal_set blob)

  abbrev blob_of : String → Panel → String
  blob_of role p = setting_or_empty c (get_setting (role_key role) p)

  -- For both roles the override in memory is the one that the settings hold.
  abbrev pub InSync : Panel → Type 0
  InSync p =
      (find site_manager p.overrides ≡ stored (blob_of site_manager p))
      × (find "ROLE_USER" p.overrides ≡ stored (blob_of "ROLE_USER" p))

  module _ (q role : String) (not_admin : (role == admin) ≡ false) where
    decoded_other :
        (d : Option (Option PermSet)) (o : Overrides)
        → (role == q) ≡ false
        → find q (decoded_override c role d o) ≡ find q o
    unfolding set_override
    decoded_other none o ne = refl
    decoded_other (some none) o ne = refl
    decoded_other (some (some s)) o ne = rw (not_admin, find-put q role s o, ne) refl

    decoded_self :
        (d : Option (Option PermSet)) (o : Overrides)
        → (role == q) ≡ true
        → find q o ≡ none
        → find q (decoded_override c role d o) ≡ meaning d
    unfolding set_override
    decoded_self none o same e = e
    decoded_self (some none) o same e = e
    decoded_self (some (some s)) o same e = rw (not_admin, find-put q role s o, same) refl

    load_other :
        (p : Panel) (o : Overrides)
        → (role == q) ≡ false
        → find q (load_override c p role o) ≡ find q o
    load_other p o ne = elim (Bool-cases (blob_of role p == "")) [
      | inl b ↦ rw b refl
      | inr b ↦ rw b (decoded_other _ o ne)
    ]

    load_self :
        (p : Panel) (o : Overrides)
        → (role == q) ≡ true
        → find q o ≡ none
        → find q (load_override c p role o) ≡ stored (blob_of role p)
    load_self p o same e = elim (Bool-cases (blob_of role p == "")) [
      | inl b ↦ rw b e
      | inr b ↦ rw b (decoded_self _ o same e)
    ]

  find-load_overrides :
      (p : Panel)
      → (find site_manager (load_overrides c p) ≡ stored (blob_of site_manager p))
        × (find "ROLE_USER" (load_overrides c p) ≡ stored (blob_of "ROLE_USER" p))
  unfolding load_overrides find
  find-load_overrides p = (
    load_other site_manager "ROLE_USER" refl p (load_override c p site_manager []) refl
        ∙ load_self site_manager site_manager refl p [] refl refl,
    load_self "ROLE_USER" "ROLE_USER" refl p (load_override c p site_manager []) refl
        (load_other "ROLE_USER" site_manager refl p [] refl),
  )

  -- In step with the settings, a restart gives each role the permissions that it had.
  restart-default_for_role :
      (p : Panel) (role : String)
      → InSync p
      → OneOf role (admin ∷ known_roles)
      → default_for_role (restart c p).overrides role ≡ default_for_role p.overrides role
  unfolding default_for_role restart
  restart-default_for_role p role sync (inl e) = rw e refl
  restart-default_for_role p role sync (inr (inl e)) =
      rw (e, (find-load_overrides p).0, sync.0) refl
  restart-default_for_role p role sync (inr (inr (inl e))) =
      rw (e, (find-load_overrides p).1, sync.1) refl
  restart-default_for_role p role sync (inr (inr (inr e))) = elim e [ ]

  abbrev read_as : Option String → Option PermSet
  read_as v = stored (setting_or_empty c v)

  module _ (marshal : Option PermSet → String) (s : PermSet)
      (reads_back : (c.unmarshal_set (marshal (some s)) ≡ some (some s))
        × ((marshal (some s) == "") ≡ false))
      (r : Request) (now : ℕ) where
    stored-marshal : stored (marshal (some s)) ≡ some s
    stored-marshal = rw (reads_back.1, reads_back.0) refl

    overridden-InSync :
        (p : Panel) (role : String)
        → OneOf role known_roles
        → InSync p
        → InSync (overridden marshal r now role (some s) p)
    unfolding set_override set_setting get_setting
    overridden-InSync p role (inl e) sync = rw e (
      find-put site_manager site_manager s p.overrides
          ∙ sym (
              ap read_as (
                find-put (role_key site_manager) (role_key site_manager) (marshal (some s))
                  p.settings)
              ∙ stored-marshal),
      find-put "ROLE_USER" site_manager s p.overrides
          ∙ sync.1
          ∙ sym (
              ap read_as (
                find-put (role_key "ROLE_USER") (role_key site_manager) (marshal (some s))
                  p.settings)),
    )
    overridden-InSync p role (inr (inl e)) sync = rw e (
      find-put site_manager "ROLE_USER" s p.overrides
          ∙ sync.0
          ∙ sym (
              ap read_as (
                find-put (role_key site_manager) (role_key "ROLE_USER") (marshal (some s))
                  p.settings)),
      find-put "ROLE_USER" "ROLE_USER" s p.overrides
          ∙ sym (
              ap read_as (
                find-put (role_key "ROLE_USER") (role_key "ROLE_USER") (marshal (some s))
                  p.settings)
              ∙ stored-marshal),
    )
    overridden-InSync p role (inr (inr e)) sync = elim e [ ]

  without_override-InSync :
      (r : Request) (now : ℕ) (p : Panel) (role : String)
      → OneOf role known_roles
      → InSync p
      → InSync (without_override r now role p)
  unfolding clear_override set_setting get_setting
  without_override-InSync r now p role (inl e) sync = rw e (
    find-drop_key site_manager site_manager p.overrides
        ∙ sym (ap read_as (find-put (role_key site_manager) (role_key site_manager) "" p.settings)),
    find-drop_key "ROLE_USER" site_manager p.overrides
        ∙ sync.1
        ∙ sym (ap read_as (find-put (role_key "ROLE_USER") (role_key site_manager) "" p.settings)),
  )
  without_override-InSync r now p role (inr (inl e)) sync = rw e (
    find-drop_key site_manager "ROLE_USER" p.overrides
        ∙ sync.0
        ∙ sym (ap read_as (find-put (role_key site_manager) (role_key "ROLE_USER") "" p.settings)),
    find-drop_key "ROLE_USER" "ROLE_USER" p.overrides
        ∙ sym (ap read_as (find-put (role_key "ROLE_USER") (role_key "ROLE_USER") "" p.settings)),
  )
  without_override-InSync r now p role (inr (inr e)) sync = elim e [ ]

-- Requests that set the permissions of a role to a set other than null, or reset them.
abbrev Changes : Type 0
Changes = List (String × Option PermSet)

module _ (marshal : Option PermSet → String) (r : Request) (now : ℕ) where
  unfoldable pub change_roles : Changes → Panel → Panel
  unfolding update_role_perms reset_role_perms
  change_roles [] p = p
  change_roles ((role, some s) ∷ cs) p =
      change_roles cs (update_role_perms marshal r now role (some (some s)) p).1
  change_roles ((role, none) ∷ cs) p = change_roles cs (reset_role_perms r now role p).1

-- A change of one of the two roles that can be edited, to a set that the JSON decoder reads back from what the
-- encoder makes of it.
abbrev pub IsReadBack : Crypto → (Option PermSet → String) → String × Option PermSet → Type 0
IsReadBack c marshal (role, none) = OneOf role known_roles
IsReadBack c marshal (role, some s) =
    OneOf role known_roles
    × (c.unmarshal_set (marshal (some s)) ≡ some (some s))
    × ((marshal (some s) == "") ≡ false)

module _ (c : Crypto) (marshal : Option PermSet → String) (r : Request) (now : ℕ) where
  update-InSync :
      (role : String) (s : PermSet) (p : Panel)
      → (c.unmarshal_set (marshal (some s)) ≡ some (some s)) × ((marshal (some s) == "") ≡ false)
      → OneOf role known_roles
      → InSync c p
      → InSync c (update_role_perms marshal r now role (some (some s)) p).1
  unfolding update_role_perms audit add_audit set_setting get_setting
  update-InSync role s p reads_back (inl e) sync =
      rw e (overridden-InSync c marshal s reads_back r now p site_manager (inl refl) sync)
  update-InSync role s p reads_back (inr (inl e)) sync =
      rw e (overridden-InSync c marshal s reads_back r now p "ROLE_USER" (inr (inl refl)) sync)
  update-InSync role s p reads_back (inr (inr e)) sync = elim e [ ]

  reset-InSync :
      (role : String) (p : Panel)
      → OneOf role known_roles
      → InSync c p
      → InSync c (reset_role_perms r now role p).1
  unfolding reset_role_perms audit add_audit set_setting get_setting
  reset-InSync role p (inl e) sync =
      rw e (without_override-InSync c r now p site_manager (inl refl) sync)
  reset-InSync role p (inr (inl e)) sync =
      rw e (without_override-InSync c r now p "ROLE_USER" (inr (inl refl)) sync)
  reset-InSync role p (inr (inr e)) sync = elim e [ ]

  change_roles-InSync :
      (cs : Changes) (p : Panel)
      → All (IsReadBack c marshal) cs
      → InSync c p
      → InSync c (change_roles marshal r now cs p)
  unfolding change_roles
  change_roles-InSync [] p known sync = sync
  change_roles-InSync ((role, some s) ∷ cs) p known sync =
      change_roles-InSync cs _ known.1
        (update-InSync role s p (known.0.1, known.0.2) known.0.0 sync)
  change_roles-InSync ((role, none) ∷ cs) p known sync =
      change_roles-InSync cs _ known.1 (reset-InSync role p known.0 sync)

  -- Starting from overrides that the settings hold, whatever sets other than null are given to the two roles
  -- that can be edited and whichever of them are reset, where the JSON decoder reads back what the encoder makes
  -- of each set, a restart of the daemon leaves every role its default permissions.
  pub restart-change_roles :
      (cs : Changes) (p : Panel) (role : String)
      → All (IsReadBack c marshal) cs
      → InSync c p
      → OneOf role (admin ∷ known_roles)
      → let q = change_roles marshal r now cs p in
        default_for_role (restart c q).overrides role ≡ default_for_role q.overrides role
  restart-change_roles cs p role known sync named =
      restart-default_for_role c _ role (change_roles-InSync cs p known sync) named
