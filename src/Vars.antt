-- ===== src/Vars.antt =====
-- src/vars.rs: the variables export of a file.
pub mod Inferred
pub mod Tests
use figmog.Prelude.{none, some, List, [], ◌++◌, map}
use figmog.Prelude.Text.{Str, lit}
use figmog.Prelude.Sorting.{sort, pair_leb}
use figmog.Json.{Value, Serde, get, as_str, as_array, as_object, ◌>>=◌ as ◌>>=?◌}
use figmog.Model.{RecId, Rec}
use figmog.Api.{Result, ok, err, ◌>>=◌}
use figmog.Flatten.Walk.{or_else}
use figmog.Store.Stream.{filter_map}

pub data ImportError : Type 0 where
  shape : Str → ImportError

abbrev pub object_at : Value → Str → Str → Result ImportError (List (Str × Value))
object_at root k message = elim (get root k >>=? as_object) [
  | none ↦ err (shape message)
  | some rows ↦ ok rows
]

-- the closure `s`
abbrev text_at : Value → Str → Str
text_at v k = or_else (get v k >>=? as_str) []

abbrev array_at : Value → Str → List Value
array_at v k = or_else (get v k >>=? as_array) []

abbrev mode_pair : Value → Str × Str
mode_pair m = (text_at m (lit "modeId"), text_at m (lit "name"))

abbrev pub collection_row : Str × Value → RecId × Rec
collection_row (id, c) = (
  RecId.variable_collection id,
  Rec.variable_collection (record {
    id = id;
    name = text_at c (lit "name");
    modes = sort pair_leb (map mode_pair (array_at c (lit "modes")));
    default_mode_id = text_at c (lit "defaultModeId");
  }),
)

module _ (sd : Serde) where
  abbrev mode_value : Str × Value → Str × Str
  mode_value (mode, value) = (mode, sd.to_string value)

  unfoldable pub variable_row : Str × Value → RecId × Rec
  unfolding filter_map
  variable_row (id, v) = (
    RecId.variable id,
    Rec.variable (record {
      id = id;
      name = text_at v (lit "name");
      resolved_type = text_at v (lit "resolvedType");
      collection_id = text_at v (lit "variableCollectionId");
      values_by_mode =
          sort pair_leb (map mode_value (or_else (get v (lit "valuesByMode") >>=? as_object) []));
      description = text_at v (lit "description");
      scopes = filter_map as_str (array_at v (lit "scopes"));
    }),
  )

  unfoldable pub parse_variables_export : Value → Result ImportError (List (RecId × Rec))
  unfolding variable_row
  parse_variables_export v = do
    let root = or_else (get v (lit "meta")) v
    variables ← object_at root (lit "variables") (lit "missing `variables` object")
    collections ←
        object_at root (lit "variableCollections") (lit "missing `variableCollections` object")
    ok (map collection_row collections ++ map variable_row variables)
