-- ===== src/Flatten/Scan.antt =====
-- src/flatten.rs: the variable bindings of a node.
pub mod Laws
use mathlib.Core.Option
use figmog.Prelude.{ℕ, zero, suc, ◌+◌, Bool, true, false, Option, none, some, List, [], ◌∷◌, ◌++◌}
use figmog.Prelude.Tests.{◌==◌, if◌then◌else◌}
use figmog.Prelude.Text.{Str, lit, str_eq, decimal}
use figmog.Prelude.Sorting.{sort, dedup, pair_leb, pair_eq}
use figmog.Json.{
  Value, null, bool, num, str, arr, obj, Items, nil, cons, Fields, end, field, get, find, entries,
  as_str, as_object, ◌>>=◌,
}

-- format!("{path}/{key}")
abbrev pub under : Str → Str → Str
under path key = path ++ (b'/' ∷ key)

abbrev is_alias : Option Str → Bool
is_alias none = false
is_alias (some t) = t == lit "VARIABLE_ALIAS"

-- The variable that an alias object names.
abbrev pub alias_of : Fields → Option Str
alias_of fs =
    if is_alias (find (lit "type") fs >>= as_str) then find (lit "id") fs >>= as_str else none

unfoldable mutual
  pub collect_aliases : Value → Str → List (Str × Str)
  collect_aliases (obj fs) path = elim (alias_of fs) [
    | some id ↦ (path, id) ∷ []
    | none ↦ collect_fields fs path
  ]
  collect_aliases (arr vs) path = collect_items vs 0 path
  collect_aliases _ path = []

  pub collect_fields : Fields → Str → List (Str × Str)
  collect_fields end path = []
  collect_fields (field k v fs) path = collect_aliases v (under path k) ++ collect_fields fs path

  pub collect_items : Items → ℕ → Str → List (Str × Str)
  collect_items nil i path = []
  collect_items (cons v vs) i path =
      collect_aliases v (under path (decimal i)) ++ collect_items vs (i + 1) path

unfoldable mutual
  pub scan_bv : Value → Str → List (Str × Str)
  scan_bv (obj fs) path = scan_fields fs path
  scan_bv (arr vs) path = scan_items vs 0 path
  scan_bv _ path = []

  pub scan_fields : Fields → Str → List (Str × Str)
  scan_fields end path = []
  scan_fields (field k v fs) path =
      let inside = scan_bv v (under path k) in
      (if k == lit "boundVariables" then collect_aliases v path else inside) ++ scan_fields fs path

  pub scan_items : Items → ℕ → Str → List (Str × Str)
  scan_items nil i path = []
  scan_items (cons v vs) i path = scan_bv v (under path (decimal i)) ++ scan_items vs (i + 1) path

unfoldable pub scan_bound_variables : Value → List (Str × Str)
unfolding scan_bv
scan_bound_variables raw = dedup (sort pair_leb (scan_bv raw []))

abbrev keep_some : (Value → Option Str) → List (Str × Value) → List (Str × Str)
keep_some f [] = []
keep_some f ((k, v) ∷ es) = elim (f v) [ some s ↦ (k, s) ∷ keep_some f es | none ↦ keep_some f es ]

unfoldable pub sorted_map : Option Value → (Value → Option Str) → List (Str × Str)
sorted_map v f = elim (v >>= as_object) [ none ↦ [] | some es ↦ sort pair_leb (keep_some f es) ]
