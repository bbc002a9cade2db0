-- ===== src/Query/Tree.antt =====
-- The outline and the dump of a subtree, and one node, in src/query.rs: `tree`, `subtree` and `node`.
pub mod Laws
use figmog.Prelude.{
  ℕ, zero, suc, Bool, true, false, ◌&&◌, ◌||◌, Option, none, some, List, [], ◌∷◌, ◌++◌, map,
}
use figmog.Prelude.Tests.{ltb, ◌==◌, nat_eq, if◌then◌else◌}
use figmog.Prelude.Text.{Str, lit, str_eq}
use figmog.Prelude.Sorting.{sort, str_leb}
use figmog.Ident.{normalize_node_ref}
use figmog.Json.{Value, obj, str, Serde, array, object, insert, ◌>>=◌}
use figmog.Model.{NodeRec}
use figmog.Api.{Result, ok, err}
use figmog.Store.Stream.{filter_map}
use figmog.Query.Readers.{Readers}
use figmog.Query.Bindings.{resolved_variables, project_raw_fields}

mutual
  pub data TreeNode : Type 0 where
    tree_node : Str → Str → Str → TreeNodes → TreeNode

  pub data TreeNodes : Type 0 where
    leaf : TreeNodes
    branch : TreeNode → TreeNodes → TreeNodes

abbrev pub tree_nodes_of : List TreeNode → TreeNodes
tree_nodes_of [] = leaf
tree_nodes_of (t ∷ ts) = branch t (tree_nodes_of ts)

abbrev pub edge_leb : ℕ × Str → ℕ × Str → Bool
edge_leb (i, a) (j, b) = ltb i j || (i == j && str_leb a b)

-- The children that are in the mirror, in the order of the edges.
abbrev pub child_nodes : Readers → Str → List NodeRec
child_nodes r id = filter_map (λ (e : ℕ × Str). r.node e.1) (sort edge_leb (r.children id))

-- A loop whose step may run out of fuel
unfoldable pub traverse : {A B : Type 0} → (A → Option B) → List A → Option (List B)
traverse f [] = some []
traverse f (a ∷ rest) = f a >>= λ b. traverse f rest >>= λ bs. some (b ∷ bs)

abbrev pub tree_of : NodeRec → List TreeNode → TreeNode
tree_of n kids = tree_node n.id n.name n.node_type (tree_nodes_of kids)

-- The recursion of the source is not bounded where no depth is given; here it is on fuel.
unfoldable pub build_tree : Readers → ℕ → NodeRec → Option ℕ → Option TreeNode
unfolding traverse filter_map
build_tree r zero n depth = none
build_tree r (suc fuel) n (some zero) = some (tree_of n [])
build_tree r (suc fuel) n (some (suc d)) =
    traverse (λ c. build_tree r fuel c (some d)) (child_nodes r n.id) >>= λ kids.
    some (tree_of n kids)
build_tree r (suc fuel) n none =
    traverse (λ c. build_tree r fuel c none) (child_nodes r n.id) >>= λ kids. some (tree_of n kids)

abbrev mutual
  pub tree_to_json : TreeNode → Value
  tree_to_json (tree_node id name node_type kids) = object (
      (lit "id", str id)
      ∷ (lit "name", str name)
      ∷ (lit "type", str node_type)
      ∷ (lit "children", array (kids_to_json kids))
      ∷ [])

  pub kids_to_json : TreeNodes → List Value
  kids_to_json leaf = []
  kids_to_json (branch t ts) = tree_to_json t ∷ kids_to_json ts

abbrev pub node_or_error : Readers → Str → Result Str NodeRec
node_or_error r id = elim (r.node id) [
  | some n ↦ ok n
  | none ↦ err (lit "no node " ++ (id ++ lit " in the mirror"))
]

abbrev first_document : List Str → Result Str Str
first_document [] = err (lit "no DOCUMENT node in the mirror")
first_document (id ∷ _) = ok id

abbrev pub start_of : Readers → Option Str → Result Str Str
start_of r none = first_document (sort str_leb (r.by_type (lit "DOCUMENT")))
start_of r (some raw_id) = ok (normalize_node_ref raw_id)

abbrev pub root_of : Readers → Result Str Str → Result Str NodeRec
root_of r (err e) = err e
root_of r (ok start) = node_or_error r start

-- An answer for which the fuel was enough
abbrev pub built : {A : Type 0} → (NodeRec → Option A) → Result Str NodeRec → Option (Result Str A)
built f (err e) = some (err e)
built f (ok n) = f n >>= λ t. some (ok t)

unfoldable pub tree_nodes : Readers → ℕ → Option Str → Option ℕ → Option (Result Str TreeNode)
unfolding build_tree
tree_nodes r fuel id depth = built (λ n. build_tree r fuel n depth) (root_of r (start_of r id))

abbrev pub json_of : Result Str TreeNode → Result Str Value
json_of (err e) = err e
json_of (ok t) = ok (tree_to_json t)

unfoldable pub tree : Readers → ℕ → Option Str → Option ℕ → Option (Result Str Value)
unfolding tree_nodes
tree r fuel id depth = tree_nodes r fuel id depth >>= λ t. some (json_of t)

abbrev pub with_field : Str → Value → Value → Value
with_field k v (obj fs) = obj (insert k v fs)
with_field k v w = w

-- `parse_error` is the text of the error that serde_json gives for a text.
abbrev pub parsed_raw : Serde → (Str → Str) → NodeRec → Result Str Value
parsed_raw sd parse_error n = elim (sd.from_str n.raw) [
  | some v ↦ ok v
  | none ↦ err (parse_error n.raw)
]

abbrev pub child_row : NodeRec → Value
child_row n =
    object ((lit "id", str n.id) ∷ (lit "name", str n.name) ∷ (lit "type", str n.node_type) ∷ [])

abbrev pub with_variables : Serde → Readers → Bool → NodeRec → Value → Value
with_variables sd r false n v = v
with_variables sd r true n v =
    with_field (lit "resolved_variables") (resolved_variables sd r n.bound_variables) v

abbrev pub with_child_rows : Readers → Bool → Str → Value → Value
with_child_rows r false id v = v
with_child_rows r true id v =
    with_field (lit "children") (array (map child_row (child_nodes r id))) v

abbrev pub node_json :
    Serde → (Str → Str) → Readers → NodeRec → Str → Bool → Bool → Result Str Value
node_json sd parse_error r n id with_children resolve_vars = elim (parsed_raw sd parse_error n) [
  | err e ↦ err e
  | ok v ↦ ok (with_variables sd r resolve_vars n (with_child_rows r with_children id v))
]

unfoldable pub node : Serde → (Str → Str) → Readers → Str → Bool → Bool → Result Str Value
unfolding resolved_variables filter_map
node sd parse_error r raw_id with_children resolve_vars =
    let id = normalize_node_ref raw_id in
    elim (node_or_error r id) [
      | err e ↦ err e
      | ok n ↦ node_json sd parse_error r n id with_children resolve_vars
    ]

abbrev pub projected : Option (List Str) → Value → Value
projected none v = v
projected (some fields) v = project_raw_fields v fields

-- A loop that ends at the first error
unfoldable pub traverse_ok :
    {A B : Type 0} → (A → Option (Result Str B)) → List A → Option (Result Str (List B))
traverse_ok f [] = some (ok [])
traverse_ok f (a ∷ rest) = elim (f a) [
  | none ↦ none
  | some r ↦ elim r [
    | err e ↦ some (err e)
    | ok b ↦ elim (traverse_ok f rest) [
      | none ↦ none
      | some rs ↦ elim rs [ err e ↦ some (err e) | ok bs ↦ some (ok (b ∷ bs)) ]
    ]
  ]
]

abbrev pub dumped :
    Serde → Readers → Bool → NodeRec → Value → Result Str (List Value) → Result Str Value
dumped sd r resolve_vars n v (err e) = err e
dumped sd r resolve_vars n v (ok kids) =
    ok (with_variables sd r resolve_vars n (with_field (lit "children") (array kids) v))

abbrev pub dump :
    Serde
    → (Str → Str)
    → Readers
    → Option (List Str)
    → Bool
    → NodeRec
    → Option (Result Str (List Value))
    → Option (Result Str Value)
dump sd parse_error r fields resolve_vars n kids = elim (parsed_raw sd parse_error n) [
  | err e ↦ some (err e)
  | ok v ↦ kids >>= λ ks. some (dumped sd r resolve_vars n (projected fields v) ks)
]

unfoldable pub build_subtree :
    Serde
    → (Str → Str)
    → Readers
    → Option (List Str)
    → Bool
    → ℕ
    → NodeRec
    → Option ℕ
    → Option (Result Str Value)
unfolding traverse_ok project_raw_fields resolved_variables filter_map
build_subtree sd parse_error r fields resolve_vars zero n depth = none
build_subtree sd parse_error r fields resolve_vars (suc fuel) n (some zero) =
    dump sd parse_error r fields resolve_vars n (some (ok []))
build_subtree sd parse_error r fields resolve_vars (suc fuel) n (some (suc d)) =
    dump sd parse_error r fields resolve_vars n (
      traverse_ok (λ c. build_subtree sd parse_error r fields resolve_vars fuel c (some d))
        (child_nodes r n.id))
build_subtree sd parse_error r fields resolve_vars (suc fuel) n none =
    dump sd parse_error r fields resolve_vars n (
      traverse_ok (λ c. build_subtree sd parse_error r fields resolve_vars fuel c none)
        (child_nodes r n.id))

abbrev pub dumped_root :
    (NodeRec → Option (Result Str Value)) → Result Str NodeRec → Option (Result Str Value)
dumped_root f (err e) = some (err e)
dumped_root f (ok n) = f n

unfoldable pub subtree :
    Serde
    → (Str → Str)
    → Readers
    → ℕ
    → Str
    → Option ℕ
    → Option (List Str)
    → Bool
    → Option (Result Str Value)
unfolding build_subtree
subtree sd parse_error r fuel raw_id depth fields resolve_vars =
    dumped_root (λ n. build_subtree sd parse_error r fields resolve_vars fuel n depth)
      (node_or_error r (normalize_node_ref raw_id))
