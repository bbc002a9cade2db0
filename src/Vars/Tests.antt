-- ===== src/Vars/Tests.antt =====
-- The variables of src/vars.rs at two nodes that are bound to one variable.
use figmog.Prelude.{true, ◌≡◌, ◌↔◌, refl, none, some, List, [], ◌∷◌}
use figmog.Prelude.Text.{Str, lit, str_beq}
use figmog.Prelude.Members.{In}
use figmog.Json.{Serde, str}
use figmog.Model.{NodeRec}
use figmog.Vars.Inferred.{VarUsage, infer_from_nodes, style_value_from_consumer}
use figmog.Vars.Inferred.Laws.{Bound, infer_from_nodes-sites}

abbrev serde : Serde
serde = record {
  to_string = λ v. lit "red";
  from_str = λ s. some (str s);
  as_f64 = λ v. none;
  pointer = λ v p. some v;
}

abbrev bound_node : Str → NodeRec
bound_node id = record {
  id = id;
  parent_id = none;
  child_index = 0;
  page_id = lit "0:1";
  node_type = lit "TEXT";
  name = lit "n";
  visible = true;
  text = none;
  component_id = none;
  component_properties = [];
  property_definitions = none;
  style_refs = [];
  bound_variables = (lit "/fills/0/color", lit "V:1") ∷ [];
  abs_bounds = none;
  raw = lit "{}";
}

abbrev nodes : List NodeRec
nodes = bound_node (lit "1:3") ∷ bound_node (lit "1:2") ∷ []

infers :
    infer_from_nodes serde nodes
    ≡ record {
      variable_id = lit "V:1";
      sites = (lit "1:2", lit "/fills/0/color") ∷ (lit "1:3", lit "/fills/0/color") ∷ [];
      observed = lit "red" ∷ [];
    }
      ∷ []
unfolding infer_from_nodes str_beq
infers = refl

style_of_effect : style_value_from_consumer serde (lit "EFFECT") (lit "{}") ≡ some (str (lit "{}"))
unfolding style_value_from_consumer str_beq
style_of_effect = refl

infer_from_nodes-sites_example :
    ((u : VarUsage) × In u (infer_from_nodes serde nodes)
      × (u.variable_id ≡ lit "V:1")
      × In (lit "1:2", lit "/fills/0/color") u.sites)
    ↔ ((n : NodeRec) × In n nodes × Bound serde (lit "V:1") (lit "1:2", lit "/fills/0/color") n)
infer_from_nodes-sites_example =
    infer_from_nodes-sites serde (lit "V:1") (lit "1:2", lit "/fills/0/color") nodes
