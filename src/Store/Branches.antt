-- ===== src/Store/Branches.antt =====
-- src/store.rs: the pure functions that feed the tables and the indices.
use mathlib.Core.Option
use figmog.Prelude.{ℕ, Option, none, some, List, [], ◌∷◌, ◌++◌, map}
use figmog.Prelude.Text.{Str, lit, trim}
use figmog.Model.{
  RecId, Rec, NodeRec, ComponentRec, ComponentSetRec, StyleRec, VariableRec, VariableCollectionRec,
  FileMeta, ProxyCacheRec, MirrorConfigRec, ImageBlobRec,
}

abbrev pub node_only : RecId × Rec → Option (Str × NodeRec)
node_only (_, Rec.node n) = some (n.id, n)
node_only (_, _) = none

abbrev searched : Str → Option Str → Str
searched name none = name
searched name (some text) = name ++ (lit " " ++ text)

abbrev some_text : Str → Str → Option (Str × Str)
some_text id [] = none
some_text id (c ∷ s) = some (id, c ∷ s)

unfoldable pub text_doc : Str × NodeRec → Option (Str × Str)
unfolding trim
text_doc (_, n) = some_text n.id (trim (searched n.name n.text))

-- parent id, child index, child id
abbrev pub child_edge : Str × NodeRec → Option (Str × (ℕ × Str))
child_edge (_, n) = Option.map (λ parent. (parent, (n.child_index, n.id))) n.parent_id

abbrev pub instance_edge : Str × NodeRec → Option (Str × Str)
instance_edge (_, n) = Option.map (λ c. (n.id, c)) n.component_id

abbrev pub style_edges : Str × NodeRec → List (Str × Str)
style_edges (_, n) = map (λ (r : Str × Str). (n.id, r.1)) n.style_refs

abbrev pub variable_edges : Str × NodeRec → List (Str × Str)
variable_edges (_, n) = map (λ (b : Str × Str). (n.id, b.1)) n.bound_variables

abbrev pub type_edge : Str × NodeRec → Str × Str
type_edge (_, n) = (n.id, n.node_type)

abbrev pub component_only : RecId × Rec → Option (Str × ComponentRec)
component_only (RecId.component k, Rec.component r) = some (k, r)
component_only (_, _) = none

abbrev pub component_set_only : RecId × Rec → Option (Str × ComponentSetRec)
component_set_only (RecId.component_set k, Rec.component_set r) = some (k, r)
component_set_only (_, _) = none

abbrev pub style_only : RecId × Rec → Option (Str × StyleRec)
style_only (RecId.style k, Rec.style r) = some (k, r)
style_only (_, _) = none

abbrev pub variable_only : RecId × Rec → Option (Str × VariableRec)
variable_only (RecId.variable k, Rec.variable r) = some (k, r)
variable_only (_, _) = none

abbrev pub collection_only : RecId × Rec → Option (Str × VariableCollectionRec)
collection_only (RecId.variable_collection k, Rec.variable_collection r) = some (k, r)
collection_only (_, _) = none

abbrev pub proxy_cache_only : RecId × Rec → Option (Str × ProxyCacheRec)
proxy_cache_only (RecId.proxy_cache k, Rec.proxy_cache r) = some (k, r)
proxy_cache_only (_, _) = none

abbrev pub meta_only : RecId × Rec → Option (ℕ × FileMeta)
meta_only (_, Rec.meta m) = some (0, m)
meta_only (_, _) = none

abbrev pub mirror_config_only : RecId × Rec → Option (ℕ × MirrorConfigRec)
mirror_config_only (_, Rec.mirror_config m) = some (0, m)
mirror_config_only (_, _) = none

abbrev pub image_only : RecId × Rec → Option (Str × ImageBlobRec)
image_only (RecId.image_blob k, Rec.image_blob r) = some (k, r)
image_only (_, _) = none
