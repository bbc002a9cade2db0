-- ===== src/Query/Where.antt =====
-- The nodes whose JSON has a value at a pointer: `where_` of src/query.rs.
pub mod Laws
use figmog.Prelude.{
  Bool, true, false, not, ◌||◌, ◌&&◌, Option, none, some, List, [], ◌∷◌, ◌++◌, map,
}
use figmog.Prelude.Text.{Str, lit, strip_prefix}
use figmog.Prelude.Sorting.{sort, str_leb}
use figmog.Json.{Value, str, array, object, Serde}
use figmog.Model.{NodeRec}
use figmog.Api.{Result, ok, err, ◌>>=◌}
use figmog.Query.Readers.{Readers}
use figmog.Query.Scope.{resolve_under}
use figmog.Query.Select.{in_page, in_scope, normal_page}

-- A row of the source is five fields of this pair.
abbrev pub Found : Type 0
Found = NodeRec × Value

abbrev pub found_leb : Found → Found → Bool
found_leb (m, _) (n, _) = str_leb m.id n.id

abbrev found_json : Found → Value
found_json (n, v) = object (
    (lit "id", str n.id)
    ∷ (lit "name", str n.name)
    ∷ (lit "type", str n.node_type)
    ∷ (lit "page_id", str n.page_id)
    ∷ (lit "value", v)
    ∷ [])

abbrev pub is_pointer : Str → Bool
is_pointer pointer = elim (strip_prefix (lit "/") pointer) [ none ↦ false | some _ ↦ true ]

abbrev pub bad_pointer : Str → Str
bad_pointer pointer = lit "pointer must be an RFC 6901 pointer starting with '/': " ++ pointer

abbrev pub passes_filters : Option Str → Option (List Str) → NodeRec → Bool
passes_filters page scope n = in_page (normal_page page) n && in_scope scope n

-- `same` is the `==` of values, and `parse_error` the message of serde_json about a text.
module _ (sd : Serde) (same : Value → Value → Bool) (parse_error : Str → Str) where
  abbrev pub is_wanted : Option Value → Value → Bool
  is_wanted none v = true
  is_wanted (some want) v = same v want

  -- What one node that passes the filters adds in front of the rows of the others.
  abbrev pub add_if_wanted :
      Option Value → NodeRec → Option Value → Result Str (List Found) → Result Str (List Found)
  add_if_wanted equals n none rest = rest
  add_if_wanted equals n (some v) rest = elim (is_wanted equals v) [
    | false ↦ rest
    | true ↦ rest >>= (λ found. ok ((n, v) ∷ found))
  ]

  abbrev pub add_node :
      Str
      → Option Value
      → NodeRec
      → Option Value
      → Result Str (List Found)
      → Result Str (List Found)
  add_node pointer equals n none rest = err (parse_error n.raw)
  add_node pointer equals n (some raw) rest = add_if_wanted equals n (sd.pointer raw pointer) rest

  -- The loop over the nodes. An error of an earlier node comes first.
  unfoldable pub where_rows :
      Str → Option Value → (NodeRec → Bool) → List (Str × NodeRec) → Result Str (List Found)
  where_rows pointer equals passes [] = ok []
  where_rows pointer equals passes ((_, n) ∷ rows) =
      let rest = where_rows pointer equals passes rows in
      elim (passes n) [ false ↦ rest | true ↦ add_node pointer equals n (sd.from_str n.raw) rest ]

  unfoldable pub where_found :
      Readers → Str → Option Value → Option Str → Option Str → Result Str (List Found)
  unfolding where_rows resolve_under
  where_found r pointer equals page under = elim (is_pointer pointer) [
    | false ↦ err (bad_pointer pointer)
    | true ↦ do
      scope ← resolve_under r under
      found ← where_rows pointer equals (passes_filters page scope) r.nodes
      ok (sort found_leb found)
  ]

  unfoldable pub where_ : Readers → Str → Option Value → Option Str → Option Str → Result Str Value
  unfolding where_found
  where_ r pointer equals page under = do
    found ← where_found r pointer equals page under
    ok (array (map found_json found))
