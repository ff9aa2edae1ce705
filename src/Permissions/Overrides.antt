-- ===== src/Permissions/Overrides.antt =====
-- What replacing and clearing a role's permissions does to the defaults.
use text.Mathlib.TextEquality.{eq_iff}
use aura_cp.Prelude.{
  Bool-cases, ◌≡◌, refl, sym, ap, ◌∙◌, inl, inr, true, false, List, [], ◌∷◌, none, some, String,
  arith, ◌==◌, string_eq, if◌then◌else◌,
}
use aura_cp.Permissions.{
  find, put, drop_key, admin, compiled_default, default_for_role, set_override, clear_override,
  Overrides, PermSet,
}

same : (j k q : String) → (j == q) ≡ true → (k == q) ≡ true → (j == k) ≡ true
same j k q f g = (eq_iff j k).1 ((eq_iff j q).0 f ∙ sym ((eq_iff k q).0 g))

clash : {A : Type 0} (j k q : String) → (j == k) ≡ false → (j == q) ≡ true → (k == q) ≡ true → A
clash j k q e f g = absurd (ground (arith, e, same j k q f g))

module _ {V : Type 0} where
  pub find-put :
      (q k : String) (v : V) (m : List (String × V))
      → find q (put k v m) ≡ (if k == q then some v else find q m)
  unfolding find put
  find-put q k v [] = refl
  find-put q k v ((j, w) ∷ m) = elim (Bool-cases (j == k)) [
    | inl e ↦ elim (Bool-cases (k == q)) [
      | inl f ↦ rw (e, f) refl
      | inr f ↦ rw (e, f, ap (λ x. x == q) ((eq_iff j k).0 e), f) refl
    ]
    | inr e ↦ elim (Bool-cases (j == q)) [
      | inl f ↦ elim (Bool-cases (k == q)) [ inl g ↦ clash j k q e f g | inr g ↦ rw (e, f, g) refl ]
      | inr f ↦ rw (e, f, find-put q k v m) refl
    ]
  ]

  pub find-drop_key :
      (q k : String) (m : List (String × V))
      → find q (drop_key k m) ≡ (if k == q then none else find q m)
  unfolding find drop_key
  find-drop_key q k [] = elim (Bool-cases (k == q)) [ inl e ↦ rw e refl | inr e ↦ rw e refl ]
  find-drop_key q k ((j, w) ∷ m) = elim (Bool-cases (j == k)) [
    | inl e ↦ elim (Bool-cases (k == q)) [
      | inl f ↦ rw (e, find-drop_key q k m, f) refl
      | inr f ↦ rw (e, find-drop_key q k m, f, ap (λ x. x == q) ((eq_iff j k).0 e), f) refl
    ]
    | inr e ↦ elim (Bool-cases (j == q)) [
      | inl f ↦ elim (Bool-cases (k == q)) [ inl g ↦ clash j k q e f g | inr g ↦ rw (e, f, g) refl ]
      | inr f ↦ rw (e, f, find-drop_key q k m) refl
    ]
  ]

-- Setting an override for a role changes the default of that role alone, to the given set, and
-- nothing when the role is the administrator's.
pub default_for_role-set_override :
    (role q : String) (s : PermSet) (overrides : Overrides)
    → default_for_role (set_override role s overrides) q ≡ (
        if role == admin
        then default_for_role overrides q
        else if role == q
        then s
        else default_for_role overrides q)
unfolding default_for_role set_override
default_for_role-set_override role q s overrides = elim (Bool-cases (role == admin)) [
  | inl e ↦ rw e refl
  | inr e ↦ elim (Bool-cases (q == admin)) [
    | inl f ↦ elim (Bool-cases (role == q)) [
      | inl g ↦
          absurd
            (ground (arith, e, (eq_iff role admin).1 ((eq_iff role q).0 g ∙ (eq_iff q admin).0 f)))
      | inr g ↦ rw (e, f, g) refl
    ]
    | inr f ↦ elim (Bool-cases (role == q)) [
      | inl g ↦ rw (e, f, find-put q role s overrides, g) refl
      | inr g ↦ rw (e, f, find-put q role s overrides, g) refl
    ]
  ]
]

-- Clearing an override gives the role its compiled-in set and leaves every other role.
pub default_for_role-clear_override :
    (role q : String) (overrides : Overrides)
    → default_for_role (clear_override role overrides) q
      ≡ (if role == q then compiled_default q else default_for_role overrides q)
unfolding default_for_role clear_override
default_for_role-clear_override role q overrides = elim (Bool-cases (q == admin)) [
  | inl f ↦ elim (Bool-cases (role == q)) [ inl g ↦ rw (f, g) refl | inr g ↦ rw (f, g) refl ]
  | inr f ↦ elim (Bool-cases (role == q)) [
    | inl g ↦ rw (f, find-drop_key q role overrides, g) refl
    | inr g ↦ rw (f, find-drop_key q role overrides, g) refl
  ]
]
