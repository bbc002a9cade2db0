-- ===== src/Query/Select.antt =====
-- The answers of src/query.rs that select nodes: `pages`, `find`, `text`, `uses` and `instances`.
pub mod Laws
use figmog.Prelude.{ℕ, Bool, true, false, ◌&&◌, ◌||◌, Option, none, some, List, [], ◌∷◌, ◌++◌, map}
use figmog.Prelude.Tests.{ltb, ◌==◌, if◌then◌else◌, nat_eq}
use figmog.Prelude.Text.{Str, lit, str_eq}
use figmog.Prelude.Members.{member}
use figmog.Prelude.Filtering.{keep_if}
use figmog.Prelude.Sorting.{sort, dedup, str_leb, pair_leb}
use figmog.Prelude.Rows.{Row, row_leb}
use figmog.Json.{Value, null, str, array, object}
use figmog.Model.{NodeRec, ComponentRec, ComponentSetRec}
use figmog.Ident.{normalize_node_ref}
use figmog.Api.{Result, ok, err, ◌>>=◌}
use figmog.Flatten.Walk.{or_else}
use figmog.Store.Stream.{filter_map}
use figmog.Query.Readers.{Readers}
use figmog.Query.Scope.{resolve_under}

-- child index, id, name
abbrev pub page_leb : ℕ × Str × Str → ℕ × Str × Str → Bool
page_leb (i, a, _) (j, b, _) = ltb i j || (i == j && str_leb a b)

abbrev page_row : NodeRec → ℕ × Str × Str
page_row n = (n.child_index, n.id, n.name)

abbrev page_json : ℕ × Str × Str → Value
page_json (_, id, name) = object ((lit "id", str id) ∷ (lit "name", str name) ∷ [])

unfoldable pub pages : Readers → Result Str Value
unfolding filter_map
pages r = ok (
    array (
      map page_json (
        sort page_leb
          (map page_row (filter_map r.node (sort str_leb (r.by_type (lit "CANVAS"))))))))

-- `page.is_none_or(|p| n.page_id == p)`
abbrev pub in_page : Option Str → NodeRec → Bool
in_page none n = true
in_page (some p) n = n.page_id == p

-- `scope.is_none_or(|s| s.contains(&n.id))`
abbrev pub in_scope : Option (List Str) → NodeRec → Bool
in_scope none n = true
in_scope (some s) n = member n.id s

abbrev pub normal_page : Option Str → Option Str
normal_page none = none
normal_page (some p) = some (normalize_node_ref p)

abbrev pub selected :
    Readers → (NodeRec → Row) → List Str → Option Str → Option (List Str) → List Row
selected r row ids page scope = sort row_leb (
    map row
      (keep_if (in_scope scope) (keep_if (in_page page) (filter_map r.node (sort str_leb ids)))))

-- The part that `find` and `text` share, up to the printing of the rows.
unfoldable pub listing :
    Readers → (NodeRec → Row) → Str → Option Str → Option Str → Result Str (List Row)
unfolding filter_map resolve_under
listing r row node_type page under = do
  scope ← resolve_under r under
  ok (selected r row (r.by_type node_type) (normal_page page) scope)

abbrev print_rows : (Row → Value) → Result Str (List Row) → Result Str Value
print_rows print rows = do found ← rows; ok (array (map print found))

abbrev pub find_row : NodeRec → Row
find_row n = (n.id, (n.name, n.page_id))

abbrev find_json : Row → Value
find_json (id, (name, page_id)) =
    object ((lit "id", str id) ∷ (lit "name", str name) ∷ (lit "page_id", str page_id) ∷ [])

-- `to_uppercase` is the standard library's.
unfoldable pub find : (Str → Str) → Readers → Str → Option Str → Option Str → Result Str Value
unfolding listing
find to_uppercase r node_type page under =
    print_rows find_json (listing r find_row (to_uppercase node_type) page under)

abbrev pub text_row : NodeRec → Row
text_row n = (n.id, (or_else n.text [], n.page_id))

abbrev text_json : Row → Value
text_json (id, (characters, page_id)) =
    object
      ((lit "id", str id) ∷ (lit "characters", str characters) ∷ (lit "page_id", str page_id) ∷ [])

unfoldable pub text : Readers → Option Str → Option Str → Result Str Value
unfolding listing
text r page under = print_rows text_json (listing r text_row (lit "TEXT") page under)

abbrev node_row : NodeRec → Value
node_row n =
    object ((lit "id", str n.id) ∷ (lit "name", str n.name) ∷ (lit "page_id", str n.page_id) ∷ [])

-- An empty list of styled nodes makes way for the bound ones.
abbrev pub used_by : Readers → Str → List Str
used_by r id = elim (r.styled_by id) [ [] ↦ r.bound_to id | ◌∷◌ nid ids ↦ nid ∷ ids ]

unfoldable pub uses : Readers → Str → Result Str Value
unfolding filter_map
uses r id = ok (array (map node_row (filter_map r.node (sort str_leb (used_by r id)))))

abbrev pub keys_where : {A : Type 0} → (A → Bool) → List (Str × A) → List Str
keys_where p rows = map (λ row. row.0) (keep_if (λ row. p row.1) rows)

abbrev pub in_sets : List Str → ComponentRec → Bool
in_sets sets c = elim c.component_set_id [ none ↦ false | some s ↦ member s sets ]

abbrev pub or_if_empty : List Str → List Str → List Str
or_if_empty [] ids = ids
or_if_empty (id ∷ rest) ids = id ∷ rest

unfoldable pub resolve_component_ids : Readers → Str → List Str
resolve_component_ids r target =
    let by_key = keys_where (λ c. c.key == target) r.components in
    let set_ids = keys_where (λ s. s.name == target) r.component_sets in
    let by_set = keys_where (in_sets set_ids) r.components in
    let by_name = keys_where (λ c. c.name == target) r.components in
    elim (r.component target) [
      | some _ ↦ target ∷ []
      | none ↦ or_if_empty by_key (elim set_ids [ [] ↦ by_name | ◌∷◌ _ _ ↦ by_set ])
    ]

abbrev instance_row : NodeRec → Value
instance_row n = object (
    (lit "id", str n.id)
    ∷ (lit "name", str n.name)
    ∷ (lit "page_id", str n.page_id)
    ∷ (lit "component_id", elim n.component_id [ none ↦ null | some c ↦ str c ])
    ∷ [])

abbrev pub all_instances : Readers → List Str → List Str
all_instances r [] = []
all_instances r (cid ∷ cids) = r.instances_of cid ++ all_instances r cids

-- The `BTreeSet` of the instances is their sorted list without repetitions.
unfoldable pub instances : Readers → Str → Result Str Value
unfolding filter_map resolve_component_ids
instances r target =
    let component_ids = resolve_component_ids r (normalize_node_ref target) in
    ok (
      array (
        map instance_row
          (filter_map r.node (dedup (sort str_leb (all_instances r component_ids))))))
