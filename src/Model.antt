-- ===== src/Model.antt =====
-- src/model.rs: the records of the mirror and their keys. `u32` and `u64` fields are numbers, and a
-- double is its bit pattern.
pub mod Keys
use figmog.Prelude.{ℕ, Bool, true, false, ◌&&◌, Option, List, []}
use figmog.Prelude.Tests.{◌==◌, nat_eq}
use figmog.Prelude.Text.{Str, str_eq}

pub data RecId : Type 0 where
  node component component_set style variable variable_collection : Str → RecId
  meta : RecId
  proxy_cache : Str → RecId
  mirror_config : RecId
  image_blob : Str → RecId

pub record NodeRec : Type 0 where
  pub id : Str
  pub parent_id : Option Str
  pub child_index : ℕ
  pub page_id : Str
  pub node_type : Str
  pub name : Str
  pub visible : Bool
  pub text : Option Str
  pub component_id : Option Str
  pub component_properties : List (Str × Str)
  pub property_definitions : Option Str
  pub style_refs : List (Str × Str)
  pub bound_variables : List (Str × Str)
  pub abs_bounds : Option (ℕ × ℕ × ℕ × ℕ)
  pub raw : Str

pub record ComponentRec : Type 0 where
  pub node_id : Str
  pub key : Str
  pub name : Str
  pub description : Str
  pub component_set_id : Option Str
  pub remote : Bool

pub record ComponentSetRec : Type 0 where
  pub node_id : Str
  pub key : Str
  pub name : Str
  pub description : Str
  pub remote : Bool

pub record StyleRec : Type 0 where
  pub style_id : Str
  pub key : Str
  pub name : Str
  pub style_type : Str
  pub description : Str
  pub remote : Bool

pub record VariableRec : Type 0 where
  pub id : Str
  pub name : Str
  pub resolved_type : Str
  pub collection_id : Str
  pub values_by_mode : List (Str × Str)
  pub description : Str
  pub scopes : List Str

pub record VariableCollectionRec : Type 0 where
  pub id : Str
  pub name : Str
  pub modes : List (Str × Str)
  pub default_mode_id : Str

pub record FileMeta : Type 0 where
  pub name : Str
  pub version : Str
  pub last_modified : Str
  pub synced_at_unix_ms : ℕ

pub record ProxyCacheRec : Type 0 where
  pub key_hash : Str
  pub tool : Str
  pub args_canonical : Str
  pub file_version : Str
  pub content : Str

pub record MirrorConfigRec : Type 0 where
  pub geometry : Bool

pub record ImageBlobRec : Type 0 where
  pub key_hash : Str
  pub kind : Str
  pub subject : Str
  pub format : Str
  pub scale_milli : ℕ
  pub file_version : Str
  pub bytes : Str

pub data Rec : Type 0 where
  node : NodeRec → Rec
  component : ComponentRec → Rec
  component_set : ComponentSetRec → Rec
  style : StyleRec → Rec
  variable : VariableRec → Rec
  variable_collection : VariableCollectionRec → Rec
  meta : FileMeta → Rec
  proxy_cache : ProxyCacheRec → Rec
  mirror_config : MirrorConfigRec → Rec
  image_blob : ImageBlobRec → Rec

-- The index of the variant, which postcard writes first.
abbrev pub variant : RecId → ℕ
variant (RecId.node _) = 0
variant (RecId.component _) = 1
variant (RecId.component_set _) = 2
variant (RecId.style _) = 3
variant (RecId.variable _) = 4
variant (RecId.variable_collection _) = 5
variant RecId.meta = 6
variant (RecId.proxy_cache _) = 7
variant RecId.mirror_config = 8
variant (RecId.image_blob _) = 9

abbrev pub rec_variant : Rec → ℕ
rec_variant (Rec.node _) = 0
rec_variant (Rec.component _) = 1
rec_variant (Rec.component_set _) = 2
rec_variant (Rec.style _) = 3
rec_variant (Rec.variable _) = 4
rec_variant (Rec.variable_collection _) = 5
rec_variant (Rec.meta _) = 6
rec_variant (Rec.proxy_cache _) = 7
rec_variant (Rec.mirror_config _) = 8
rec_variant (Rec.image_blob _) = 9

abbrev pub payload : RecId → Str
payload (RecId.node k) = k
payload (RecId.component k) = k
payload (RecId.component_set k) = k
payload (RecId.style k) = k
payload (RecId.variable k) = k
payload (RecId.variable_collection k) = k
payload RecId.meta = []
payload (RecId.proxy_cache k) = k
payload RecId.mirror_config = []
payload (RecId.image_blob k) = k

-- The derived `PartialEq` of `RecId`.
unfoldable pub id_beq : RecId → RecId → Bool
id_beq a b = variant a == variant b && payload a == payload b
