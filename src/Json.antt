-- ===== src/Json.antt =====
-- `serde_json::Value`, which every module of the program reads, and the parts of serde_json that the
-- program calls. `preserve_order` is off, so an object lists its keys in order, each once.
use figmog.Prelude.{ℕ, Bool, Option, none, some, List, [], ◌∷◌}
use figmog.Prelude.Tests.{◌==◌, if◌then◌else◌}
use figmog.Prelude.Text.{Str, str_eq}
use figmog.Prelude.Sorting.{str_leb}

mutual
  -- A number is kept as the text that it is printed as.
  pub data Value : Type 0 where
    null : Value
    bool : Bool → Value
    num : Str → Value
    str : Str → Value
    arr : Items → Value
    obj : Fields → Value

  pub data Items : Type 0 where
    nil : Items
    cons : Value → Items → Items

  pub data Fields : Type 0 where
    end : Fields
    field : Str → Value → Fields → Fields

abbrev pub items : Items → List Value
items nil = []
items (cons v vs) = v ∷ items vs

abbrev pub entries : Fields → List (Str × Value)
entries end = []
entries (field k v fs) = (k, v) ∷ entries fs

-- `map.get(k)`
abbrev pub find : Str → Fields → Option Value
find k end = none
find k (field j v fs) = if j == k then some v else find k fs

-- `v.get(k)`
abbrev pub get : Value → Str → Option Value
get (obj fs) k = find k fs
get _ k = none

-- `map.remove(k)`
abbrev pub remove : Str → Fields → Fields
remove k end = end
remove k (field j v fs) = let rest = remove k fs in if j == k then rest else field j v rest

abbrev pub as_str : Value → Option Str
as_str (str s) = some s
as_str _ = none

abbrev pub as_bool : Value → Option Bool
as_bool (bool b) = some b
as_bool _ = none

abbrev pub as_array : Value → Option (List Value)
as_array (arr vs) = some (items vs)
as_array _ = none

abbrev pub as_object : Value → Option (List (Str × Value))
as_object (obj fs) = some (entries fs)
as_object _ = none

abbrev pub array : List Value → Value
array vs = arr (of_list vs)
  where
    of_list : List Value → Items
    of_list [] = nil
    of_list (v ∷ vs) = cons v (of_list vs)

-- `map.insert(k, v)`
abbrev pub insert : Str → Value → Fields → Fields
insert k v end = field k v end
insert k v (field j w fs) =
    let rest = insert k v fs in
    if j == k
    then field k v fs
    else if str_leb k j
    then field k v (field j w fs)
    else field j w rest

-- `json!({ .. })`
abbrev pub object : List (Str × Value) → Value
object [] = obj end
object ((k, v) ∷ rows) = set k v (object rows)
  where
    set : Str → Value → Value → Value
    set k v (obj fs) = obj (insert k v fs)
    set k v w = w

infixl 5 ◌>>=◌
abbrev pub ◌>>=◌ {ℓ κ} : {A : Type ℓ} {B : Type κ} → Option A → (A → Option B) → Option B
none >>= f = none
some a >>= f = f a

-- What the program takes from serde_json: printing, parsing, `as_f64` (the double's bit pattern),
-- and the lookup by an RFC 6901 pointer.
pub record Serde : Type 0 where
  pub to_string : Value → Str
  pub from_str : Str → Option Value
  pub as_f64 : Value → Option ℕ
  pub pointer : Value → Str → Option Value
