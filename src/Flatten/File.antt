-- ===== src/Flatten/File.antt =====
-- src/flatten.rs: `flatten_file`, over the envelope of the response.
pub mod Laws
pub mod Entries
pub mod Tables
use figmog.Prelude.{ℕ, Bool, true, false, Option, none, some, List, [], ◌∷◌, ◌++◌, map}
use figmog.Prelude.Text.{Str, lit, str_eq}
use figmog.Json
use figmog.Json.{Value, get, as_str, as_bool, as_object, Serde}
use figmog.Model.{RecId, Rec, ComponentRec, ComponentSetRec, StyleRec}
use figmog.Api.{Result, ok, err, ◌>>=◌}
use figmog.Flatten.Walk.{walk, str_field, or_else}

pub record FileInfo : Type 0 where
  pub name : Str
  pub version : Str
  pub last_modified : Str

pub record Flattened : Type 0 where
  pub recs : List (RecId × Rec)
  pub file : FileInfo

pub data FlattenError : Type 0 where
  missing : Str → FlattenError

-- `ok_or(FlattenError::Missing(name))`
abbrev pub or_missing {ℓ} : {A : Type ℓ} → Str → Option A → Result FlattenError A
or_missing name none = err (missing name)
or_missing name (some a) = ok a

abbrev pub obj_map : Value → Str → List (Str × Value)
obj_map resp key = or_else (Json.◌>>=◌ (get resp key) as_object) []

abbrev pub text_of : Value → Str → Str
text_of v k = or_else (str_field v k) []

abbrev pub remote_of : Value → Bool
remote_of v = or_else (Json.◌>>=◌ (get v (lit "remote")) as_bool) false

abbrev pub component_row : Str × Value → RecId × Rec
component_row (node_id, v) = (
  RecId.component node_id,
  Rec.component (record {
    node_id = node_id;
    key = text_of v (lit "key");
    name = text_of v (lit "name");
    description = text_of v (lit "description");
    component_set_id = str_field v (lit "componentSetId");
    remote = remote_of v;
  }),
)

abbrev pub component_set_row : Str × Value → RecId × Rec
component_set_row (node_id, v) = (
  RecId.component_set node_id,
  Rec.component_set (record {
    node_id = node_id;
    key = text_of v (lit "key");
    name = text_of v (lit "name");
    description = text_of v (lit "description");
    remote = remote_of v;
  }),
)

abbrev pub style_row : Str × Value → RecId × Rec
style_row (style_id, v) = (
  RecId.style style_id,
  Rec.style (record {
    style_id = style_id;
    key = text_of v (lit "key");
    name = text_of v (lit "name");
    style_type = text_of v (lit "styleType");
    description = text_of v (lit "description");
    remote = remote_of v;
  }),
)

module _ (sd : Serde) where
  unfoldable pub flatten_file : Value → Result FlattenError Flattened
  unfolding walk str_field
  flatten_file resp = do
    name ← or_missing (lit "name") (str_field resp (lit "name"))
    version ← or_missing (lit "version") (str_field resp (lit "version"))
    last_modified ← or_missing (lit "lastModified") (str_field resp (lit "lastModified"))
    document ← or_missing (lit "document") (get resp (lit "document"))
    ok (record {
      recs =
          walk sd document none 0 none
          ++ (map component_row (obj_map resp (lit "components"))
              ++ (map component_set_row (obj_map resp (lit "componentSets"))
                  ++ map style_row (obj_map resp (lit "styles"))));
      file = record { name = name; version = version; last_modified = last_modified };
    })
