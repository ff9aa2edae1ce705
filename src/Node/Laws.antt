-- ===== src/Node/Laws.antt =====
-- The table of Node.js versions: no version twice, at most one of them the default, each in its directory.
use aura_cp.Prelude.{
  ◌≡◌, refl, Bool, true, false, ◌&&◌, not, List, [], ◌∷◌, ◌++◌, Option, none, some, Bytes, codes,
  ◌==◌, bytes_eq, if◌then◌else◌, All, All-append, any, subst, arith,
}
use aura_cp.Rows.Laws.{All-update, All-keep}
use aura_cp.Rows.Defaults.{HasDefault, HasDefault-choose, HasDefault-append, HasDefault-keep}
use aura_cp.Os.{Info, Kernel, State, Exec, ignored, each}
use aura_cp.Os.Steady.{
  Preserves, Preserves-pure, Preserves-if, Preserves-bind, Preserves-guard, Preserves-guarded,
  Preserves-each, Preserves-ignored,
}
use aura_cp.Site.Users.{exists}
use aura_cp.Store.{Tables, NodeRuntime, all_rows}
use aura_cp.Store.Nodes.{
  has_node_version, add_node_runtime, set_default_node_runtime, delete_node_runtime,
}
use aura_cp.Host.{Host, commit}
use aura_cp.Acme.Laws.Tabled.{
  Tabled, Tabled-on_machine, Tabled-query, Tabled-commit, Tabled-try_commit,
}
use aura_cp.Node.{
  node_dir, is_version, on_disk, set_default, record_missing, install, remove_version, is_dir,
  adopt_if, adopt, listed, adopt_link, adopt_newest, choose_newest, choose_default, reconcile,
}

-- The version has the form of one, and its path is its directory below /opt/auracp/node.
abbrev pub IsPlaced : NodeRuntime → Type 0
IsPlaced n = (is_version n.version ≡ true) × (n.path ≡ node_dir n.version)

-- No version is in the table twice, at most one is the default, and each has its place.
abbrev pub IsValid : Tables → Type 0
IsValid t =
    HasDefault (λ n. n.version) (λ n. n.is_default) t.node_runtimes × All IsPlaced t.node_runtimes

set_default-IsValid :
    (version : Bytes) (t : Tables) → IsValid t → IsValid (set_default_node_runtime version t)
unfolding set_default_node_runtime
set_default-IsValid version t (h, placed) = (
  HasDefault-choose (λ n. n.version) (λ n. n.is_default) version _ _ t.node_runtimes (λ n. refl)
      (λ n. refl) (λ n. refl) h,
  All-update IsPlaced (has_node_version version) (λ n. record n { is_default = true }) _ (λ n p. p)
      (All-update IsPlaced all_rows (λ n. record n { is_default = false }) t.node_runtimes
        (λ n p. p) placed),
)

delete-IsValid :
    (version : Bytes) (t : Tables) → IsValid t → IsValid (delete_node_runtime version t)
unfolding delete_node_runtime
delete-IsValid version t (h, placed) = (
  HasDefault-keep (λ n. n.version) (λ n. n.is_default) _ t.node_runtimes h,
  All-keep IsPlaced _ t.node_runtimes placed,
)

same-some : {A : Type 0} (x y : A) → some x ≡ some y → x ≡ y
same-some x y h = ground (arith, h)

added :
    (n : NodeRuntime) (t u : Tables) (b : Bool)
    → n.is_default ≡ false
    → IsPlaced n
    → any (has_node_version n.version) t.node_runtimes ≡ b
    → IsValid t
    → (if b then none else some (record t { node_runtimes = t.node_runtimes ++ n ∷ [] })) ≡ some u
    → IsValid u
added n t u true unmarked place e h same = absurd (ground (arith, same))
added n t u false unmarked place e (h, placed) same = subst IsValid (same-some _ u same) (
  HasDefault-append (λ n. n.version) (λ n. n.is_default) n t.node_runtimes unmarked e h,
  All-append IsPlaced t.node_runtimes (n ∷ []) placed (place, tt),
)

add-IsValid :
    (n : NodeRuntime)
    → n.is_default ≡ false
    → IsPlaced n
    → (t u : Tables) → IsValid t
    → add_node_runtime n t ≡ some u
    → IsValid u
unfolding add_node_runtime
add-IsValid n unmarked place t u h same =
    added n t u (any (has_node_version n.version) t.node_runtimes) unmarked place refl h same

-- What the panel and its start ask of the manager, in any order.
pub data Action : Type 0 where
  installs : (version : Bytes) (make_default : Bool) → Action
  removes : (version : Bytes) → Action
  defaults : (version : Bytes) → Action
  reconciles : Action

module _ {W : Type 0} (k : Kernel W) (is_arm : Bool) where
  unfoldable pub act : Action → Exec (Host W) (Unit {0})
  act (installs version make_default) = install k is_arm version make_default
  act (removes version) = remove_version k is_arm version
  act (defaults version) = set_default k is_arm version
  act reconciles = reconcile k is_arm

  abbrev pub actions : List Action → Exec (Host W) (Unit {0})
  actions = each (λ x. ignored (act x))

  sets :
      (version : Bytes)
      → Preserves (Tabled {W = W} IsValid) (commit (set_default_node_runtime version))
  sets version = Tabled-commit _ (set_default-IsValid version)

  chosen-IsValid : (version : Bytes) → Preserves (Tabled IsValid) (set_default k is_arm version)
  unfolding set_default
  chosen-IsValid version = Preserves-bind _ _ (Tabled-query _) λ known.
      Preserves-bind _ _ (Preserves-guard _ _)
        λ x. Preserves-bind _ _ (sets version) λ y. Tabled-on_machine _

  missing-IsValid :
      (version : Bytes)
      → is_version version ≡ true
      → Preserves (Tabled IsValid) (record_missing k is_arm version)
  unfolding record_missing
  missing-IsValid version form = Preserves-bind _ _ (Tabled-query _) λ known.
      Preserves-if _ _ _ (Preserves-pure tt)
        (Tabled-try_commit _ (add-IsValid (on_disk k is_arm version) refl (form, refl)))

  adopt_if-IsValid :
      (b : Bool) (name : Bytes)
      → (b ≡ true → is_version name ≡ true)
      → Preserves (Tabled IsValid) (adopt_if k is_arm b name)
  adopt_if-IsValid true name form = Preserves-ignored _ (missing-IsValid name (form refl))
  adopt_if-IsValid false name form = Preserves-pure tt

  tested : (a b c d : Bool) → ((a && b && c) && d) ≡ true → c ≡ true
  tested a b c d h = ground (arith, h)

  adopt-IsValid : (x : Bytes × Option Info) → Preserves (Tabled IsValid) (adopt k is_arm x)
  unfolding adopt
  adopt-IsValid (name, info) = Preserves-bind _ _ (Tabled-on_machine _) λ there.
      adopt_if-IsValid _ name (λ h.
        tested (is_dir k is_arm info) (not (name == codes "default")) (is_version name)
          (exists there) h)

  adopt_link-IsValid :
      (target : Option Bytes) → Preserves (Tabled IsValid) (adopt_link k is_arm target)
  adopt_link-IsValid none = Preserves-pure tt
  adopt_link-IsValid (some target) =
      Preserves-bind _ _ (Tabled-query _) λ known. Preserves-if _ _ _ (sets _) (Preserves-pure tt)

  adopt_newest-IsValid :
      (ns : List NodeRuntime) → Preserves (Tabled IsValid) (adopt_newest k is_arm ns)
  adopt_newest-IsValid [] = Preserves-pure tt
  adopt_newest-IsValid (n ∷ ns) = sets n.version

  newest-IsValid : Preserves (Tabled IsValid) (choose_newest k is_arm)
  newest-IsValid = Preserves-bind _ _ (Tabled-query _) λ default.
      Preserves-if _ _ _ (Preserves-pure tt)
        (Preserves-bind _ _ (Tabled-query _) adopt_newest-IsValid)

  choose-IsValid : Preserves (Tabled IsValid) (choose_default k is_arm)
  choose-IsValid = Preserves-bind _ _ (Tabled-query _) λ default.
      Preserves-if _ _ _ (Preserves-pure tt) (
        Preserves-bind _ _ (Tabled-on_machine _)
          λ target. Preserves-bind _ _ (adopt_link-IsValid target) λ x. newest-IsValid)

  act-IsValid : (x : Action) → Preserves (Tabled IsValid) (act x)
  unfolding act install remove_version reconcile
  act-IsValid (installs version make_default) = Preserves-guarded _ _ _ λ form.
      Preserves-bind _ _ (Tabled-on_machine _) λ y.
        Preserves-bind _ _ (missing-IsValid version (ground (arith, form))) λ z.
          Preserves-bind _ _ (Tabled-query _)
            λ default. Preserves-if _ _ _ (chosen-IsValid version) (Preserves-pure tt)
  act-IsValid (removes version) = Preserves-bind _ _ (Tabled-query _) λ used.
      Preserves-bind _ _ (Preserves-guard used _)
        λ x. Preserves-bind _ _ (Tabled-on_machine _) λ y. Tabled-commit _ (delete-IsValid version)
  act-IsValid (defaults version) = chosen-IsValid version
  act-IsValid reconciles = Preserves-bind _ _ (Tabled-on_machine _) λ es.
      Preserves-bind _ _ (Preserves-each _ adopt-IsValid (listed k is_arm es)) λ x.
        Preserves-bind _ _ choose-IsValid
          λ y. Preserves-bind _ _ (Tabled-query _) λ default. Tabled-on_machine _

  -- Installing, removing, choosing a default and reconciling with the disk, in any order and however each of
  -- them ends, keep the table of Node.js versions free of duplicates and with at most one default, and
  -- every version in it has the form of one and its own directory as path.
  pub actions-IsKept :
      (xs : List Action) (s : State (Host W))
      → IsValid s.world.tables
      → IsValid (actions xs s).1.world.tables
  actions-IsKept xs s h =
      ((Preserves-each (λ x. ignored (act x)) (λ x. Preserves-ignored _ (act-IsValid x)) xs).at s
        (record { holds = h })).holds
