-- ===== src/Query/Scope.antt =====
-- The subtree below a node, as `scope_ids` of src/query.rs collects it.
pub mod Reachable
use figmog.Prelude.{ℕ, zero, suc, ◌+◌, Bool, true, false, Option, none, some, List, [], ◌∷◌, ◌++◌}
use figmog.Prelude.Lists.{length}
use figmog.Prelude.Text.{Str, lit, str_eq}
use figmog.Prelude.Members.{member}
use figmog.Ident.{normalize_node_ref}
use figmog.Api.{Result, ok, err}
use figmog.Query.Readers.{Readers}

-- The inner loop: the visited ids and the queue, after the edges of one node.
unfoldable pub visit : List (ℕ × Str) → List Str → List Str → List Str × List Str
visit [] visited queue = (visited, queue)
visit ((_, child_id) ∷ edges) visited queue = elim (member child_id visited) [
  | true ↦ visit edges visited queue
  | false ↦ visit edges (child_id ∷ visited) (queue ++ (child_id ∷ []))
]

-- The outer loop. Each round takes an id from the queue, and an id is queued once.
unfoldable pub bfs : ℕ → (Str → List (ℕ × Str)) → List Str → List Str → List Str
unfolding visit
bfs zero children visited queue = visited
bfs (suc fuel) children visited [] = visited
bfs (suc fuel) children visited (current ∷ queue) =
    let (visited', queue') = visit (children current) visited queue in
    bfs fuel children visited' queue'

-- A `BTreeSet` is a list of distinct ids here.
unfoldable pub scope_ids : Readers → Str → List Str
unfolding bfs
scope_ids r scope_root = bfs (suc (length r.nodes)) r.children (scope_root ∷ []) (scope_root ∷ [])

abbrev pub no_node : Str → Str
no_node id = lit "no node " ++ (id ++ lit " in the mirror")

unfoldable pub resolve_under : Readers → Option Str → Result Str (Option (List Str))
unfolding scope_ids
resolve_under r none = ok none
resolve_under r (some raw) =
    let id = normalize_node_ref raw in
    elim (r.node id) [ none ↦ err (no_node id) | some _ ↦ ok (some (scope_ids r id)) ]
