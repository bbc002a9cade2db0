-- ===== src/Query/Ancestors/Laws.antt =====
-- What `path` and `depth_of` answer.
use mathlib.Core.Option
use mathlib.Core.Option.{some-injective}
use figmog.Prelude.{ℕ, suc, ◌≡◌, refl, ap, some, List, [], ◌∷◌, map, arith}
use figmog.Prelude.Lists.{length}
use figmog.Prelude.Text.{Str}
use figmog.Prelude.Members.{In}
use figmog.Json.{Value, array}
use figmog.Model.{NodeRec}
use figmog.Ident.{normalize_node_ref}
use figmog.Api.{Result, ok, err}
use figmog.Store.Stream.{In-map}
use figmog.Query.Readers.{Readers, AreReaders}
use figmog.Query.Ancestors.{climb, path, chain_answer, depth_of, node_summary}
use figmog.Query.Ancestors.Walks.{Ancestry, rev_onto, climb-Ancestry, climb_sound, rise-Ancestry}
use figmog.Query.Ancestors.Endings.{climb-total, rise-total, Climbing}

module _ (r : Readers) (laws : AreReaders r) where
  keys : List Str
  keys = map (λ row. row.0) r.nodes

  keys-length : (rows : List (Str × NodeRec)) → length (map (λ row. row.0) rows) ≡ length rows
  keys-length [] = refl
  keys-length (row ∷ rows) = ap suc (keys-length rows)

  held : (k : Str) (n : NodeRec) → r.node k ≡ some n → In k keys
  unfolding keys
  held k n e = In-map (λ (row : Str × NodeRec). row.0) (k, n) r.nodes ((laws.node-rows k n).1 e)

  start : Climbing r.node keys held (suc (length r.nodes)) []
  unfolding keys
  start = record {
    distinct = tt;
    inside = λ k h. absurd h;
    enough = let l = keys-length r.nodes in omega arith;
  }

  -- Over readers as the pipeline feeds them, `path` answers with the chain of nodes from a root
  -- down to the node, if there is one, and otherwise with an error: its loop ends, whatever cycles
  -- the parents have.
  pub path_lem :
      (id : Str)
      → (result : Result Str Value) × (path r id ≡ some result)
        × ((up : List NodeRec)
            → Ancestry r.node (normalize_node_ref id) up
            → result ≡ ok (array (map node_summary (rev_onto up []))))
        × ((v : Value)
            → result ≡ ok v
            → (up : List NodeRec) × Ancestry r.node (normalize_node_ref id) up
              × (v ≡ array (map node_summary (rev_onto up []))))
  unfolding path
  path_lem id =
      let fuel = suc (length r.nodes) in
      let current = normalize_node_ref id in
      let (result, h) = climb-total r.node keys held fuel [] current [] start in
      (
        chain_answer result,
        ap (Option.map chain_answer) h,
        (λ up a. ap chain_answer (climb-Ancestry r.node up fuel [] current [] result a tt h)),
        answered fuel current result h,
      )
    where
      answered :
          (fuel : ℕ) (current : Str) (result : Result Str (List NodeRec))
          → climb fuel r.node [] current [] ≡ some result
          → (v : Value) → chain_answer result ≡ ok v
          → (up : List NodeRec) × Ancestry r.node current up
            × (v ≡ array (map node_summary (rev_onto up [])))
      answered fuel current (err e) h v k = cc
      answered fuel current (ok out) h v k =
          let (up, a, o) = climb_sound r.node fuel [] current [] out h in (up, a, cc)

  -- Over readers as the pipeline feeds them, `depth_of` ends, whatever cycles the parents have,
  -- and counts the nodes above a node that has a chain of ancestors up to a root.
  pub depth_of_lem :
      (id : Str)
      → (d : ℕ) × (depth_of r id ≡ some d)
        × ((up : List NodeRec) → Ancestry r.node id up → suc d ≡ length up)
  unfolding depth_of
  depth_of_lem id =
      let (d, h) = rise-total r.node keys held (suc (length r.nodes)) [] id 0 start in
      (
        d,
        h,
        λ up a.
            let e = rise-Ancestry r.node up (suc (length r.nodes)) [] id 0 d a tt h in omega arith,
      )
