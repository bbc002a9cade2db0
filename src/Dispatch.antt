-- ===== src/Dispatch.antt =====
-- src/dispatch.rs: the arguments of a tool call.
pub mod Laws
pub mod Reading
mod Tests
use figmog.Prelude.{ℕ, suc, Bool, false, Option, none, some, List, [], ◌∷◌, ◌++◌}
use figmog.Prelude.Text.{Str, lit, decimal}
use figmog.Ident.{parse_node_ref}
use figmog.Json.{
  Value, null, bool, num, str, arr, obj, Serde, items, get, as_str, as_bool, ◌>>=◌ as ◌>>=?◌,
}
use figmog.Api.{Result, ok, err, ◌>>=◌}
use figmog.Flatten.Walk.{or_else}

abbrev pub arg_str : Value → Str → Option Str
arg_str args key = get args key >>=? as_str

abbrev pub json_type_name : Value → Str
json_type_name null = lit "null"
json_type_name (bool _) = lit "boolean"
json_type_name (num _) = lit "number"
json_type_name (str _) = lit "string"
json_type_name (arr _) = lit "array"
json_type_name (obj _) = lit "object"

abbrev pub expected : Str → Str → Value → Str
expected what place v =
    lit "expected " ++ (what ++ (lit " for `" ++ (place ++ (lit "`, got " ++ json_type_name v))))

abbrev pub string_in : Str → Value → Result Str Str
string_in place (str s) = ok s
string_in place v = err (expected (lit "string") place v)

unfoldable pub require_str : Value → Str → Result Str Str
require_str args key = elim (get args key) [
  | none ↦ err (lit "missing required field: " ++ key)
  | some v ↦ string_in key v
]

abbrev pub arg_bool : Value → Str → Bool
arg_bool args key = or_else (get args key >>=? as_bool) false

abbrev pub string_at : Str → ℕ → Value → Result Str Str
string_at key i v = string_in (key ++ (lit "[" ++ (decimal i ++ lit "]"))) v

-- `collect` of the strings: the first element that is none ends it.
unfoldable pub strings_from : Str → ℕ → List Value → Result Str (List Str)
strings_from key i [] = ok []
strings_from key i (v ∷ vs) =
    string_at key i v >>= λ s. strings_from key (suc i) vs >>= λ rest. ok (s ∷ rest)

abbrev pub strings_of : Str → List Value → Result Str (List Str)
strings_of key [] = err (lit "`" ++ (key ++ lit "` must not be empty"))
strings_of key (v ∷ vs) = strings_from key 0 (v ∷ vs)

abbrev pub strings_in : Str → Value → Result Str (List Str)
strings_in key (arr vs) = strings_of key (items vs)
strings_in key v = err (expected (lit "array") key v)

unfoldable pub require_str_array : Value → Str → Result Str (List Str)
unfolding strings_from
require_str_array args key = elim (get args key) [
  | none ↦ err (lit "missing required field: " ++ key)
  | some v ↦ strings_in key v
]

-- The two numeric arguments, as bit patterns of doubles.
abbrev pub arg_f64 : Serde → Value → Str → Option ℕ
arg_f64 sd args key = get args key >>=? sd.as_f64

unfoldable pub require_f64 : Serde → Value → Str → Result Str ℕ
require_f64 sd args key = elim (get args key) [
  | none ↦ err (lit "missing required field: " ++ key)
  | some v ↦ elim (sd.as_f64 v) [ some x ↦ ok x | none ↦ err (expected (lit "number") key v) ]
]

abbrev pub file_of : Option (Option Str × Str) → Option Str
file_of none = none
file_of (some (file, _)) = file

abbrev pub file_in : Value → Str → Option Str
file_in args key = arg_str args key >>=? λ raw. file_of (parse_node_ref raw)

abbrev first_file : Value → List Str → Option Str
first_file args [] = none
first_file args (key ∷ keys) = elim (file_in args key) [
  | some file ↦ some file
  | none ↦ first_file args keys
]

unfoldable pub infer_file_from_node_ref : Value → Option Str
infer_file_from_node_ref args = first_file args (lit "id" ∷ lit "under" ∷ lit "target" ∷ [])
