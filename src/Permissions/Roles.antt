-- ===== src/Permissions/Roles.antt =====
-- What the compiled-in roles may do.
use text.Mathlib.TextEquality.{eq_iff}
use aura_cp.Prelude.{
  subst, Bool-cases, All, ◌≡◌, ◌≢◌, refl, ◌⊎◌, inl, inr, Bool, true, false, List, [], ◌∷◌, String,
  arith, ◌==◌, string_eq, if◌then◌else◌,
}
use aura_cp.Permissions.{
  allows, permitted, read_crud, none_crud, all_crud, Crud, find, can, compiled_default, admin,
  site_manager, user_set, grant_all, resources, default_for_role, Overrides, PermSet,
}

abbrev pub OneOf : String → List String → Type 0
OneOf s [] = ⊥
OneOf s (t ∷ ts) = (s ≡ t) ⊎ OneOf s ts

abbrev pub actions : List String
actions = "create" ∷ "read" ∷ "update" ∷ "delete" ∷ []

-- Whatever has been overridden, an administrator may do every action on every resource.
pub admin-can :
    (overrides : Overrides) (resource action : String)
    → OneOf resource resources
    → OneOf action actions
    → can (default_for_role overrides admin) resource action ≡ true
unfolding can default_for_role compiled_default grant_all find
admin-can overrides resource action r a = allowed resource r action a
  where
    every : (action : String) → OneOf action actions → allows all_crud action ≡ true
    every action (inl e) = rw e refl
    every action (inr (inl e)) = rw e refl
    every action (inr (inr (inl e))) = rw e refl
    every action (inr (inr (inr (inl e)))) = rw e refl
    every action (inr (inr (inr (inr x)))) = elim x [ ]

    allowed :
        (resource : String)
        → OneOf resource resources
        → (action : String) → OneOf action actions
        → can (default_for_role overrides admin) resource action ≡ true
    allowed resource (inl e) action a = rw e (every action a)
    allowed resource (inr (inl e)) action a = rw e (every action a)
    allowed resource (inr (inr (inl e))) action a = rw e (every action a)
    allowed resource (inr (inr (inr (inl e)))) action a = rw e (every action a)
    allowed resource (inr (inr (inr (inr (inl e))))) action a = rw e (every action a)
    allowed resource (inr (inr (inr (inr (inr (inl e)))))) action a = rw e (every action a)
    allowed resource (inr (inr (inr (inr (inr (inr (inl e))))))) action a = rw e (every action a)
    allowed resource (inr (inr (inr (inr (inr (inr (inr (inl e)))))))) action a =
        rw e (every action a)
    allowed resource (inr (inr (inr (inr (inr (inr (inr (inr x)))))))) action a = elim x [ ]

abbrev pub site_resources : List String
site_resources = "sites" ∷ "databases" ∷ "backups" ∷ "cron" ∷ "files" ∷ []

-- An entry that grants nothing, or reading of a resource of a site.
abbrev IsModest : String × Crud → Type 0
IsModest (r, c) = ((c ≡ read_crud) × OneOf r site_resources) ⊎ (c ≡ none_crud)

only_second :
    (a b c d : Bool)
    → (if a then false else if b then true else if c then false else if d then false else false)
      ≡ true
    → b ≡ true
only_second a true c d h = refl
only_second true false c d h = h
only_second false false true d h = h
only_second false false false true h = h
only_second false false false false h = h

never :
    (a b c d : Bool)
    → (if a then false else if b then false else if c then false else if d then false else false)
      ≡ false
never true b c d = refl
never false true c d = refl
never false false true d = refl
never false false false true = refl
never false false false false = refl

allows-read : (action : String) → allows read_crud action ≡ true → action ≡ "read"
allows-read action h =
    (eq_iff action "read").0
      (only_second (action == "create") _ (action == "update") (action == "delete") h)

allows-none : (action : String) → allows none_crud action ≡ false
allows-none action =
    never (action == "create") (action == "read") (action == "update") (action == "delete")

modest :
    (m : PermSet)
    → All IsModest m
    → (resource action : String) → permitted (find resource m) action ≡ true
    → (action ≡ "read") × OneOf resource site_resources
unfolding find
modest [] ms resource action h = ground arith
modest ((r, c) ∷ m) (p, ms) resource action h = elim (Bool-cases (r == resource)) [
  | inl e ↦ granted c ((eq_iff r resource).0 e) p (rw e at h)
  | inr e ↦ modest m ms resource action (rw e at h)
]
  where
    granted :
        (c : Crud)
        → r ≡ resource
        → IsModest (r, c)
        → allows c action ≡ true
        → (action ≡ "read") × OneOf resource site_resources
    granted c e (inl (f, o)) h =
        (allows-read action (rw f at h), subst (λ q. OneOf q site_resources) e o)
    granted c e (inr f) h = absurd (ground (arith, allows-none action, rw f at h))

compiled_user :
    (role : String) → role ≢ admin → role ≢ site_manager → compiled_default role ≡ user_set
unfolding compiled_default
compiled_user role na nm = elim (Bool-cases (role == admin)) [
  | inl e ↦ absurd (na ((eq_iff role admin).0 e))
  | inr e ↦ elim (Bool-cases (role == site_manager)) [
    | inl f ↦ absurd (nm ((eq_iff role site_manager).0 f))
    | inr f ↦ rw (e, f) refl
  ]
]

user_set-IsModest : All IsModest user_set
user_set-IsModest = (
  inl (refl, inl refl),
  (
    inl (refl, inr (inl refl)),
    (
      inl (refl, inr (inr (inl refl))),
      (
        inl (refl, inr (inr (inr (inl refl)))),
        (inl (refl, inr (inr (inr (inr (inl refl))))), (inr refl, (inr refl, (inr refl, tt)))),
      ),
    ),
  ),
)

-- A role that is neither administrator nor site manager may by default only read, and only the five resources
-- of a site.
pub user-can :
    (role resource action : String)
    → role ≢ admin
    → role ≢ site_manager
    → can (compiled_default role) resource action ≡ true
    → (action ≡ "read") × OneOf resource site_resources
unfolding can
user-can role resource action na nm h =
    modest user_set user_set-IsModest resource action (rw (compiled_user role na nm) at h)
