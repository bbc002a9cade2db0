-- ===== src/Dispatch/Tests.antt =====
-- The arguments of src/dispatch.rs at a few calls.
use figmog.Prelude.{ℕ, Option, ◌+◌, ◌*◌, ◌≡◌, ◌↔◌, refl, true, none, some, [], ◌∷◌}
use figmog.Prelude.Tests.{◌==◌, if◌then◌else◌, leb, ltb}
use figmog.Prelude.Text.{Str, lit, str_beq, str_eq, decimal}
use figmog.Json.{Value, str, num, arr, cons, nil, object, obj, end, array, null}
use figmog.Api.{ok, err}
use figmog.Dispatch.{require_str, require_str_array}
use figmog.Store.Stream.{filter_map}
use figmog.Query.Readers.{Readers}
use figmog.Query.Sample.{readers}
use figmog.Model.{NodeRec}
use figmog.Query.Scope.{resolve_under}
use figmog.Query.Select.{listing, text}
use figmog.Dispatch.Reading.{Libraries, dispatch_read_tool}
use figmog.Dispatch.Laws.{HoldsStrings, require_str_array_iff}

abbrev args : Value
args = object (
    (lit "id", num (lit "1"))
    ∷ (lit "ids", arr (cons (str (lit "a")) (cons (num (lit "2")) nil)))
    ∷ [])

names_the_type : require_str args (lit "id") ≡ err (lit "expected string for `id`, got number")
unfolding require_str str_beq
names_the_type = refl

missing : require_str args (lit "file") ≡ err (lit "missing required field: file")
unfolding require_str str_beq
missing = refl

names_the_place :
    require_str_array args (lit "ids") ≡ err (lit "expected string for `ids[1]`, got number")
unfolding require_str_array str_beq decimal
names_the_place = refl

abbrev ids : Value
ids = object ((lit "ids", arr (cons (str (lit "a")) (cons (str (lit "b")) nil))) ∷ [])

require_str_array_iff_example :
    (require_str_array ids (lit "ids") ≡ ok (lit "a" ∷ lit "b" ∷ []))
    ↔ HoldsStrings ids (lit "ids") (lit "a" ∷ lit "b" ∷ [])
require_str_array_iff_example = require_str_array_iff ids (lit "ids") (lit "a" ∷ lit "b" ∷ [])

abbrev no_readers : Readers
no_readers = readers []

abbrev libraries : Libraries
libraries = record {
  serde = record {
    to_string = λ v. [];
    from_str = λ s. some (str s);
    as_f64 = λ v. none;
    pointer = λ v p. none;
  };
  ranked = λ q n. [];
  to_uppercase = λ s. s;
  same = λ a b. true;
  parse_error = λ s. s;
  doubles = record { leb = leb; ltb = ltb; add = ◌+◌; mul = ◌*◌; to_json = λ n. null };
}

reads_unknown : dispatch_read_tool libraries no_readers 1 [] (lit "figmog_sync") (obj end) ≡ none
unfolding dispatch_read_tool str_beq
reads_unknown = refl

reads_without_type :
    dispatch_read_tool libraries no_readers 1 [] (lit "figmog_find") (obj end)
    ≡ some (some (err (lit "missing required field: type")))
unfolding dispatch_read_tool str_beq require_str
reads_without_type = refl

reads_text :
    dispatch_read_tool libraries no_readers 1 [] (lit "figmog_text") (obj end)
    ≡ some (some (ok (array [])))
unfolding dispatch_read_tool str_beq text listing resolve_under filter_map
reads_text = refl

-- A page with one text: the text ranks below the page.
abbrev node_at : Str → Option Str → Str → NodeRec
node_at id parent_id node_type = record {
  id = id;
  parent_id = parent_id;
  child_index = 0;
  page_id = lit "0:1";
  node_type = node_type;
  name = lit "n";
  visible = true;
  text = none;
  component_id = none;
  component_properties = [];
  property_definitions = none;
  style_refs = [];
  bound_variables = [];
  abs_bounds = none;
  raw = lit "{}";
}

abbrev canvas : NodeRec
canvas = node_at (lit "0:1") none (lit "CANVAS")

abbrev page_text : NodeRec
page_text = node_at (lit "1:2") (some (lit "0:1")) (lit "TEXT")

abbrev page : Readers
page = readers (canvas ∷ page_text ∷ [])

abbrev rank : Str → ℕ
rank id = if id == lit "0:1" then 1 else 0

-- The whole subtree of the page: no depth is given.
abbrev subtree_args : Value
subtree_args = object ((lit "id", str (lit "0:1")) ∷ [])
