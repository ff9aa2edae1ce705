-- ===== src/Php/Laws.antt =====
-- The table of PHP versions: no version twice, and at most one of them the default.
use aura_cp.Prelude.{
  ◌≡◌, refl, Bool, true, false, List, [], ◌∷◌, ◌++◌, Bytes, bytes_eq, if◌then◌else◌, any,
}
use aura_cp.Rows.Defaults.{HasDefault, HasDefault-choose, HasDefault-append, HasDefault-keep}
use aura_cp.Os.{Kernel, State, Exec, ignored, each}
use aura_cp.Os.Steady.{
  Preserves, Preserves-pure, Preserves-lift, Preserves-if, Preserves-bind, Preserves-guard,
  Preserves-each, Preserves-ignored,
}
use aura_cp.Store.{
  Tables, PhpRuntime, has_version, add_php_runtime, set_default_php_runtime, delete_php_runtime,
}
use aura_cp.Host.{Host, commit}
use aura_cp.Acme.Laws.Tabled.{Tabled, Tabled-on_machine, Tabled-query, Tabled-commit}
use aura_cp.Php.{
  install, remove_version, set_default, reconcile, add_missing, newest_default, last_of,
}

-- No version is in the table twice, and at most one is the default.
abbrev pub IsValid : Tables → Type 0
IsValid t = HasDefault (λ r. r.version) (λ r. r.is_default) t.php_runtimes

set_default-IsValid :
    (version : Bytes) (t : Tables) → IsValid t → IsValid (set_default_php_runtime version t)
unfolding set_default_php_runtime
set_default-IsValid version t h =
    HasDefault-choose (λ r. r.version) (λ r. r.is_default) version _ _ t.php_runtimes (λ r. refl)
      (λ r. refl) (λ r. refl) h

added :
    (version : Bytes) (rs : List PhpRuntime) (b : Bool)
    → any (has_version version) rs ≡ b
    → HasDefault (λ r. r.version) (λ r. r.is_default) rs
    → HasDefault
        (λ r. r.version)
        (λ r. r.is_default)
        (if b then rs else rs ++ record { version = version; is_default = false } ∷ [])
added version rs true e h = h
added version rs false e h = HasDefault-append (λ r. r.version) (λ r. r.is_default) _ rs refl e h

add-IsValid : (version : Bytes) (t : Tables) → IsValid t → IsValid (add_php_runtime version t)
unfolding add_php_runtime
add-IsValid version t h =
    added version t.php_runtimes (any (has_version version) t.php_runtimes) refl h

delete-IsValid : (version : Bytes) (t : Tables) → IsValid t → IsValid (delete_php_runtime version t)
unfolding delete_php_runtime
delete-IsValid version t h = HasDefault-keep (λ r. r.version) (λ r. r.is_default) _ t.php_runtimes h

-- What the panel asks of the manager, in any order.
pub data Action : Type 0 where
  installs : (version : Bytes) (make_default : Bool) → Action
  removes : (version : Bytes) → Action
  defaults : (version : Bytes) → Action
  reconciles : Action

module _ {W : Type 0} (k : Kernel W) (look_path : Bytes → W → Bool) where
  unfoldable pub act : Action → Exec (Host W) (Unit {0})
  act (installs version make_default) = install k look_path version make_default
  act (removes version) = remove_version k look_path version
  act (defaults version) = set_default k look_path version
  act reconciles = reconcile k look_path

  abbrev pub actions : List Action → Exec (Host W) (Unit {0})
  actions = each (λ x. ignored (act x))

  sets :
      (version : Bytes)
      → Preserves (Tabled {W = W} IsValid) (commit (set_default_php_runtime version))
  sets version = Tabled-commit _ (set_default-IsValid version)

  newest-IsValid : (vs : List Bytes) → Preserves (Tabled IsValid) (newest_default k look_path vs)
  newest-IsValid [] = Preserves-pure tt
  newest-IsValid (v ∷ vs) = sets (last_of v vs)

  missing-IsValid : (version : Bytes) → Preserves (Tabled IsValid) (add_missing k look_path version)
  unfolding add_missing
  missing-IsValid version =
      Preserves-bind _ _ (Tabled-query _)
        λ known. Preserves-if _ _ _ (Preserves-pure tt) (Tabled-commit _ (add-IsValid version))

  act-IsValid : (x : Action) → Preserves (Tabled IsValid) (act x)
  unfolding act install remove_version set_default reconcile
  act-IsValid (installs version make_default) = Preserves-bind _ _ (Preserves-lift _) λ x.
      Preserves-bind _ _ (Tabled-on_machine _) λ y.
        Preserves-bind _ _ (Tabled-commit _ (add-IsValid version)) λ z.
          Preserves-bind _ _ (Tabled-query _)
            λ default. Preserves-if _ _ _ (sets version) (Preserves-pure tt)
  act-IsValid (removes version) = Preserves-bind _ _ (Tabled-query _) λ used.
      Preserves-bind _ _ (Preserves-guard used _)
        λ x. Preserves-bind _ _ (Tabled-on_machine _) λ y. Tabled-commit _ (delete-IsValid version)
  act-IsValid (defaults version) =
      Preserves-bind _ _ (Tabled-query _)
        λ known. Preserves-bind _ _ (Preserves-guard _ _) λ x. sets version
  act-IsValid reconciles = Preserves-bind _ _ (Tabled-on_machine _) λ vs.
      Preserves-bind _ _ (Preserves-each _ missing-IsValid vs) λ x.
        Preserves-bind _ _ (Tabled-query _) λ default.
          Preserves-if _ _ _ (Preserves-pure tt)
            (Preserves-bind _ _ (Tabled-on_machine _) newest-IsValid)

  -- Installing, removing, choosing a default and reconciling, in any order and however each of them ends, keep
  -- the table of PHP versions free of duplicates and with at most one default.
  pub actions-IsValid :
      (xs : List Action) (s : State (Host W))
      → IsValid s.world.tables
      → IsValid (actions xs s).1.world.tables
  actions-IsValid xs s h =
      ((Preserves-each (λ x. ignored (act x)) (λ x. Preserves-ignored _ (act-IsValid x)) xs).at s
        (record { holds = h })).holds
