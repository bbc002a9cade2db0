-- ===== src/Query/Tests.antt =====
-- The properties of the queries at a page with one text.
use figmog.Prelude.{
  ◌+◌, ◌*◌, ℕ, Bool, true, ◌≡◌, ◌↔◌, inl, refl, arith, Option, none, some, List, [], ◌∷◌, map,
}
use figmog.Prelude.Text.{Str, lit, decimal, str_beq, str_eq}
use figmog.Prelude.Members.{In, Distinct, Distinct-of}
use figmog.Json.{Value, arr, items, get, num, Serde, null, str, Fields, field, end, array, object}
use figmog.Model.{NodeRec}
use figmog.Ident.{normalize_node_ref}
use figmog.Api.{Result, ok, err}
use figmog.Store.Stream.{filter_map}
use figmog.Query.Readers.{Readers, AreReaders}
use figmog.Query.Sample.{readers, readers-AreReaders}
use figmog.Query.Scope.{scope_ids}
use figmog.Query.Scope.Reachable.{Reach, scope_ids_lem}
use figmog.Query.Ancestors.{path, climb, depth_of, node_summary}
use figmog.Query.Ancestors.Walks.{Ancestry, rev_onto}
use figmog.Query.Ancestors.Laws.{path_lem}
use figmog.Query.Select.Laws.{InPage, InScope}
use figmog.Prelude.Lists.{take}
use figmog.Query.Search.{Ranked}
use figmog.Query.Inventory.{components}
use figmog.Query.Points.{Doubles, at}
use figmog.Prelude.Tests.{leb, ltb}
use figmog.Query.Stats.{Counts, count_nodes, stats, stats_json, all_nodes}
use figmog.Query.Stats.Laws.{Counted, keys, stats_lem}
use figmog.Query.Tree.{build_tree, build_subtree, tree_of}
use figmog.Query.Tree.Laws.{Answers, build_subtree-Answers}
use figmog.Query.Where.{Found, where_found}
use figmog.Query.Where.Laws.{Holds, where_found_lem}

abbrev node_at : Str → Option Str → Str → NodeRec
node_at id parent_id node_type = record {
  id = id;
  parent_id = parent_id;
  child_index = 0;
  page_id = lit "0:1";
  node_type = node_type;
  name = lit "n";
  visible = true;
  text = none;
  component_id = none;
  component_properties = [];
  property_definitions = none;
  style_refs = [];
  bound_variables = [];
  abs_bounds = none;
  raw = lit "{}";
}

abbrev nodes : List NodeRec
nodes =
    node_at (lit "0:1") none (lit "CANVAS")
    ∷ node_at (lit "1:2") (some (lit "0:1")) (lit "TEXT")
    ∷ []

abbrev sample : Readers
sample = readers nodes

sample-AreReaders : AreReaders sample
unfolding str_beq
sample-AreReaders = readers-AreReaders nodes (Distinct-of (map (λ n. n.id) nodes) refl)

scope_finds : scope_ids sample (lit "0:1") ≡ lit "1:2" ∷ lit "0:1" ∷ []
unfolding scope_ids str_beq filter_map
scope_finds = refl

-- A node that is its own parent.
abbrev looped : Readers
looped = readers (node_at (lit "a") (some (lit "a")) (lit "FRAME") ∷ [])

path_cycle : climb 2 looped.node [] (lit "a") [] ≡ some (err (lit "parent cycle detected at a"))
unfolding climb str_beq
path_cycle = refl

depth_cycle : depth_of looped (lit "a") ≡ some 1
unfolding depth_of str_beq
depth_cycle = refl

scope_ids_lem_example :
    Distinct (scope_ids sample (lit "0:1"))
    × ((x : Str) → In x (scope_ids sample (lit "0:1")) ↔ Reach sample.children (lit "0:1") x)
scope_ids_lem_example = scope_ids_lem sample (lit "0:1") sample-AreReaders

path_lem_example :
    (result : Result Str Value) × (path sample (lit "1:2") ≡ some result)
    × ((up : List NodeRec)
        → Ancestry sample.node (normalize_node_ref (lit "1:2")) up
        → result ≡ ok (array (map node_summary (rev_onto up []))))
    × ((v : Value)
        → result ≡ ok v
        → (up : List NodeRec) × Ancestry sample.node (normalize_node_ref (lit "1:2")) up
          × (v ≡ array (map node_summary (rev_onto up []))))
path_lem_example = path_lem sample sample-AreReaders (lit "1:2")

-- A reader that finds the whole text at every pointer is enough here.
abbrev serde : Serde
serde = record {
  to_string = λ v. lit "{}";
  from_str = λ s. some (str s);
  as_f64 = λ v. some 0;
  pointer = λ v p. some v;
}

abbrev same : Value → Value → Bool
same a b = true

abbrev parse_error : Str → Str
parse_error raw = lit "invalid"

abbrev text_node : NodeRec
text_node = node_at (lit "1:2") (some (lit "0:1")) (lit "TEXT")

abbrev canvas_node : NodeRec
canvas_node = node_at (lit "0:1") none (lit "CANVAS")

abbrev found : List Found
found = (canvas_node, str (lit "{}")) ∷ (text_node, str (lit "{}")) ∷ []

finds : where_found serde same parse_error sample (lit "/fills") none none none ≡ ok found
unfolding where_found str_beq
finds = refl

where_found_lem_example : In (text_node, str (lit "{}")) found ↔ (
    (k : Str) × In (k, text_node) sample.nodes
    × InPage none text_node
    × InScope sample none text_node
    × Holds serde same parse_error (lit "/fills") none text_node (str (lit "{}")))
where_found_lem_example =
    where_found_lem serde same parse_error (lit "/fills") none sample none none found
      (text_node, str (lit "{}")) sample-AreReaders finds

abbrev fields_of_node : Fields
fields_of_node = field (lit "fills") null (field (lit "id") (str (lit "1:2")) end)

build_subtree-Answers_example :
    Answers (build_subtree serde parse_error sample none true 3 canvas_node (some 2))
build_subtree-Answers_example =
    build_subtree-Answers sample (λ id. 0) sample-AreReaders serde parse_error none true 3
      canvas_node (some 2) (inl (omega arith))

outline :
    build_tree sample 3 canvas_node (some 1)
    ≡ some (tree_of canvas_node (tree_of text_node [] ∷ []))
unfolding build_tree str_beq filter_map
outline = refl

stats_lem_example :
    (found : Counts × Counts × ℕ) × (stats sample ≡ some (ok (stats_json sample found)))
    × Counted sample (all_nodes sample) [] [] 0 found
    × Distinct (keys found.0)
    × Distinct (keys found.1)
stats_lem_example = stats_lem sample sample-AreReaders

stats_finds :
    count_nodes sample (all_nodes sample) [] [] 0
    ≡ some ((lit "CANVAS", 1) ∷ (lit "TEXT", 1) ∷ [], (lit "0:1", 1) ∷ [], 1)
unfolding count_nodes depth_of str_beq
stats_finds = refl

abbrev hits : List Ranked
hits = (num (lit "2.5"), lit "0:1") ∷ (num (lit "1.5"), lit "1:2") ∷ []

abbrev ranked_hits : Str → ℕ → List Ranked
ranked_hits query limit = take limit hits

no_components :
    components serde sample
    ≡ ok (object ((lit "sets", array []) ∷ (lit "components", array []) ∷ []))
unfolding components
no_components = refl

-- Whole numbers in place of the doubles
abbrev doubles : Doubles
doubles = record { leb = leb; ltb = ltb; add = ◌+◌; mul = ◌*◌; to_json = λ n. num (decimal n) }

abbrev nested : Readers
nested = readers (
    record canvas_node { abs_bounds = some (0, 0, 10, 10) }
    ∷ record text_node { abs_bounds = some (2, 2, 3, 3) }
    ∷ [])

abbrev ids_in : Result Str Value → List (Option Value)
ids_in (ok (arr vs)) = map (λ v. get v (lit "id")) (items vs)
ids_in _ = []

at_smallest_first :
    ids_in (at doubles nested 3 3) ≡ some (str (lit "1:2")) ∷ some (str (lit "0:1")) ∷ []
unfolding at str_beq decimal filter_map
at_smallest_first = refl

at_edge : ids_in (at doubles nested 5 3) ≡ some (str (lit "0:1")) ∷ []
unfolding at str_beq decimal filter_map
at_edge = refl
