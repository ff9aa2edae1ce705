-- ===== src/Store/Nodes.antt =====
-- internal/store/noderuntimes.go: the table of Node.js versions.
use aura_cp.Prelude.{
  Bool, true, false, ◌&&◌, ◌||◌, not, List, [], ◌∷◌, ◌++◌, Option, none, some, Bytes, codes, ◌==◌,
  bytes_eq, nat_eq, ltb, if◌then◌else◌, any, keep,
}
use aura_cp.Rows.{first, update}
use aura_cp.Store.{NodeRuntime, Tables, of_domain, all_rows}

abbrev pub has_node_version : Bytes → NodeRuntime → Bool
has_node_version version n = n.version == version

-- BINARY, the order of texts in SQLite
abbrev pub bytes_ltb : Bytes → Bytes → Bool
bytes_ltb [] [] = false
bytes_ltb [] (y ∷ ys) = true
bytes_ltb (x ∷ xs) [] = false
bytes_ltb (x ∷ xs) (y ∷ ys) = ltb x y || (x == y && bytes_ltb xs ys)

-- ORDER BY version DESC
unfoldable pub by_version : NodeRuntime → List NodeRuntime → List NodeRuntime
by_version n [] = n ∷ []
by_version n (m ∷ ms) =
    let rest = by_version n ms in if bytes_ltb n.version m.version then m ∷ rest else n ∷ m ∷ ms

unfoldable pub newest_first : List NodeRuntime → List NodeRuntime
unfolding by_version
newest_first [] = []
newest_first (n ∷ ns) = by_version n (newest_first ns)

unfoldable pub node_runtimes : Tables → List NodeRuntime
unfolding newest_first
node_runtimes t = newest_first t.node_runtimes

unfoldable pub default_node_runtime : Tables → Option NodeRuntime
unfolding first
default_node_runtime t = first (λ n. n.is_default) t.node_runtimes

unfoldable pub node_runtime : Bytes → Tables → Option NodeRuntime
unfolding first
node_runtime version t = first (has_node_version version) t.node_runtimes

-- The version is the primary key.
unfoldable pub add_node_runtime : NodeRuntime → Tables → Option Tables
add_node_runtime n t =
    if any (has_node_version n.version) t.node_runtimes
    then none
    else some (record t { node_runtimes = t.node_runtimes ++ n ∷ [] })

unfoldable pub set_default_node_runtime : Bytes → Tables → Tables
unfolding update
set_default_node_runtime version t = record t {
  node_runtimes =
      update (has_node_version version) (λ n. record n { is_default = true })
        (update all_rows (λ n. record n { is_default = false }) t.node_runtimes);
}

unfoldable pub delete_node_runtime : Bytes → Tables → Tables
unfolding keep
delete_node_runtime version t = record t {
  node_runtimes = keep (λ n. not (has_node_version version n)) t.node_runtimes;
}

abbrev pub is_pinned : Bytes → Option Bytes → Bool
is_pinned version none = false
is_pinned version (some v) = v == version

unfoldable pub site_uses_node_version : Bytes → Tables → Bool
site_uses_node_version version t =
    any (λ s. s.site_type == codes "nodejs" && is_pinned version s.node_version) t.sites

unfoldable pub set_site_node_version : (domain version : Bytes) → Tables → Tables
unfolding update
set_site_node_version domain version t = record t {
  sites = update (of_domain domain) (λ s. record s { node_version = some version }) t.sites;
}
