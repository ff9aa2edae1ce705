-- ===== src/Auth/Laws/Histories.antt =====
-- What holds after any history of requests and restarts.
use aura_cp.Prelude.{
  ℕ, List, [], ◌∷◌, Option, none, some, String, Bytes, ◌==◌, bytes_eq, string_eq, nat_eq, any,
  Bool-cases, inl, inr,
}
use aura_cp.Permissions.{PermSet, admin}
use aura_cp.Web.Middleware.{Request}
use aura_cp.Auth.Accounts.{Panel}
use aura_cp.Auth.Handlers.{Crypto}
use aura_cp.Auth.Users.{
  create_admin_user, with_hash, added, update_admin_user, update_role_perms, known_roles, put_role,
  reset_role_perms, set_settings, put_settings, restart,
}
use aura_cp.Auth.Events.{
  Event, Occurrence, serve, history, sets_up, signs_in, verifies, signs_out, enrols, enables,
  disables, adds_user, changes_user, removes_user, changes_role, resets_role, changes_settings,
  restarts,
}
use aura_cp.Auth.Laws.Schema.{Holds}
use aura_cp.Auth.Laws.Keeping.{
  Survives, audit-keeps, behind-keeps, setup_admin-keeps, login-keeps, mfa_verify-keeps,
  logout-keeps, mfa_setup-keeps, mfa_enable-keeps, mfa_disable-keeps,
}

module _ {P : Panel → Type 0} (k : Survives P) where
  module _ (c : Crypto) (r : Request) (now : ℕ) where
    added-keeps :
        (o : Option (ℕ × Panel)) (email role : String) (password : Bytes) (p : Panel)
        → Holds (λ x. P x.1) o
        → P p
        → P (added c r now o email role password p).1
    added-keeps none email role password p h v = v
    added-keeps (some (id, q)) email role password p h v = audit-keeps k r now _ email q h

    with_hash-keeps :
        (hash : Option Bytes) (email role permissions scope : String) (password : Bytes) (p : Panel)
        → P p
        → P (with_hash c r now hash email role permissions scope password p).1
    with_hash-keeps none email role permissions scope password p v = v
    with_hash-keeps (some hash) email role permissions scope password p v =
        added-keeps _ email role password p (k.created p email hash role permissions scope v) v

    create_admin_user-keeps :
        (input : Option (String × String × Bytes × String × String)) (random : Bytes) (p : Panel)
        → P p
        → P (create_admin_user c r now input random p).1
    unfolding create_admin_user
    create_admin_user-keeps none random p v = v
    create_admin_user-keeps (some (email, role, password, permissions, scope)) random p v =
        elim (Bool-cases (email == "")) [
          | inl e ↦ rw e v
          | inr e ↦ rw e (with_hash-keeps _ email _ permissions scope _ p v)
        ]

    update_admin_user-keeps :
        (email : String) (input : Option (String × String × String)) (p : Panel)
        → P p
        → P (update_admin_user c r now email input p).1
    unfolding update_admin_user
    update_admin_user-keeps email none p v = v
    update_admin_user-keeps email (some (role, permissions, scope)) p v =
        audit-keeps k r now _ email _ (k.access p email _ permissions scope v)

  module _ (marshal : Option PermSet → String) (r : Request) (now : ℕ) where
    put_role-keeps :
        (role : String) (input : Option (Option PermSet)) (p : Panel)
        → P p
        → P (put_role marshal r now role input p).1
    put_role-keeps role none p v = v
    put_role-keeps role (some s) p v =
        audit-keeps k r now _ role _ (k.overrides _ _ (k.setting p _ (marshal s) v))

    update_role_perms-keeps :
        (role : String) (input : Option (Option PermSet)) (p : Panel)
        → P p
        → P (update_role_perms marshal r now role input p).1
    unfolding update_role_perms
    update_role_perms-keeps role input p v = elim (Bool-cases (role == admin)) [
      | inl e ↦ rw e v
      | inr e ↦ elim (Bool-cases (any (λ known. known == role) known_roles)) [
        | inl f ↦ rw (e, f) (put_role-keeps role input p v)
        | inr f ↦ rw (e, f) v
      ]
    ]

    reset_role_perms-keeps : (role : String) (p : Panel) → P p → P (reset_role_perms r now role p).1
    unfolding reset_role_perms
    reset_role_perms-keeps role p v = elim (Bool-cases (role == admin)) [
      | inl e ↦ rw e v
      | inr e ↦ rw e (audit-keeps k r now _ role _ (k.overrides _ _ (k.setting p _ "" v)))
    ]

  set_settings-keeps : (kvs : List (String × String)) (p : Panel) → P p → P (set_settings kvs p)
  unfolding set_settings
  set_settings-keeps [] p v = v
  set_settings-keeps ((key, value) ∷ kvs) p v = set_settings-keeps kvs _ (k.setting p key value v)

  put_settings-keeps :
      (input : Option (List (String × String))) (p : Panel) → P p → P (put_settings input p).1
  unfolding put_settings
  put_settings-keeps none p v = v
  put_settings-keeps (some kvs) p v = set_settings-keeps kvs p v

  module _ (c : Crypto) (marshal : Option PermSet → String)
      (removal : (r : Request) (now : ℕ) (email : String) (p : Panel)
        → P p
        → P (serve c marshal r now (removes_user email) p).1) where
    serve-keeps :
        (r : Request) (now : ℕ) (e : Event) (p : Panel) → P p → P (serve c marshal r now e p).1
    unfolding serve restart
    serve-keeps r now (sets_up input token) p =
        behind-keeps k c _ r now _ p (setup_admin-keeps k c r now input token p)
    serve-keeps r now (signs_in input token) p =
        behind-keeps k c _ r now _ p (login-keeps k c r now input token p)
    serve-keeps r now (verifies code) p =
        behind-keeps k c _ r now _ p (mfa_verify-keeps k c r now code p)
    serve-keeps r now signs_out p = behind-keeps k c _ r now _ p (logout-keeps k c r now p)
    serve-keeps r now (enrols secret) p =
        behind-keeps k c _ r now _ p (mfa_setup-keeps k c r now secret p)
    serve-keeps r now (enables input) p =
        behind-keeps k c _ r now _ p (mfa_enable-keeps k c r now input p)
    serve-keeps r now (disables code) p =
        behind-keeps k c _ r now _ p (mfa_disable-keeps k c r now code p)
    serve-keeps r now (adds_user input random) p =
        behind-keeps k c _ r now _ p (create_admin_user-keeps c r now input random p)
    serve-keeps r now (changes_user email input) p =
        behind-keeps k c _ r now _ p (update_admin_user-keeps c r now email input p)
    serve-keeps r now (removes_user email) p = removal r now email p
    serve-keeps r now (changes_role role input) p =
        behind-keeps k c _ r now _ p (update_role_perms-keeps marshal r now role input p)
    serve-keeps r now (resets_role role) p =
        behind-keeps k c _ r now _ p (reset_role_perms-keeps marshal r now role p)
    serve-keeps r now (changes_settings input) p =
        behind-keeps k c _ r now _ p (put_settings-keeps input p)
    serve-keeps r now restarts p = k.overrides p _

    pub history-keeps : (os : List Occurrence) (p : Panel) → P p → P (history c marshal os p)
    unfolding history
    history-keeps [] p v = v
    history-keeps (o ∷ os) p v = history-keeps os _ (serve-keeps o.request o.now o.event p v)
