-- ===== src/Query/Scope/Reachable.antt =====
-- The loop of `scope_ids` in src/query.rs.
use mathlib.Core.Path.{subst}
use mathlib.Core.Option.{some-injective}
use figmog.Prelude.{
  ℕ, zero, suc, ◌+◌, ◌≤◌, ◌≡◌, ◌↔◌, ◌⊎◌, inl, inr, refl, sym, ap, none, some, List, [], ◌∷◌, ◌++◌,
  map, arith,
}
use figmog.Prelude.Tests.{Bool-cases, Option-cases}
use figmog.Prelude.Lists.{length, length-append}
use figmog.Prelude.Text.{Str, str_eq}
use figmog.Prelude.Members.{
  In, Distinct, member, member_sound, member_complete, In-append, In-append_left, In-append_right,
}
use figmog.Prelude.Counting.{Distinct-length}
use figmog.Model.{NodeRec}
use figmog.Store.Stream.{In-map}
use figmog.Store.Branches.{child_edge}
use figmog.Query.Readers.{Readers, AreReaders}
use figmog.Query.Scope.{visit, bfs, scope_ids}

-- The nodes that are reached from one by the edges.
pub data Reach (children : Str → List (ℕ × Str)) (root : Str) : Str → Type 0 where
  here : Reach children root root
  below :
      {parent : Str} (i : ℕ) (child : Str)
      → Reach children root parent
      → In (i, child) (children parent)
      → Reach children root child

-- What the inner loop does to the visited ids and the queue.
record Visits (edges : List (ℕ × Str)) (v q v' q' : List Str) : Type 0 where
  kept : (x : Str) → In x v → In x v'
  queued : (x : Str) → In x q → In x q'
  seen : (i : ℕ) (x : Str) → In (i, x) edges → In x v'
  new : (x : Str) → In x v' → In x v ⊎ ((i : ℕ) × In x q' × In (i, x) edges)
  from : (x : Str) → In x q' → In x q ⊎ In x v'
  distinct : Distinct v → Distinct v'
  size : length v' + length q ≡ length v + length q'

visit-Visits :
    (edges : List (ℕ × Str)) (v q : List Str)
    → Visits edges v q (visit edges v q).0 (visit edges v q).1
unfolding visit
visit-Visits [] v q = record {
  kept = λ x h. h;
  queued = λ x h. h;
  seen = λ i x h. absurd h;
  new = λ x h. inl h;
  from = λ x h. inl h;
  distinct = λ d. d;
  size = refl;
}
visit-Visits ((i, c) ∷ edges) v q = elim (Bool-cases (member c v)) [
  | inl e ↦
      let s = visit-Visits edges v q in
      rw (e, visit)
        (record {
          kept = s.kept;
          queued = s.queued;
          seen = λ j x h. elim h [
            | inl p ↦ s.kept x (subst (λ z. In z v) (sym (ap (λ z. z.1) p)) (member_sound c v e))
            | inr k ↦ s.seen j x k
          ];
          new = λ x h. elim (s.new x h) [ inl k ↦ inl k | inr (j, k, l) ↦ inr (j, k, inr l) ];
          from = s.from;
          distinct = s.distinct;
          size = s.size;
        })
  | inr e ↦
      let s = visit-Visits edges (c ∷ v) (q ++ (c ∷ [])) in
      rw (e, visit)
        (record {
          kept = λ x h. s.kept x (inr h);
          queued = λ x h. s.queued x (In-append_left x q (c ∷ []) h);
          seen =
              λ j x h. elim h [ inl p ↦ s.kept x (inl (ap (λ z. z.1) p)) | inr k ↦ s.seen j x k ];
          new = λ x h. elim (s.new x h) [
            | inl (inl p) ↦
                inr (i, s.queued x (In-append_right x q (c ∷ []) (inl p)), inl (ap (λ z. (i, z)) p))
            | inl (inr k) ↦ inl k
            | inr (j, k, l) ↦ inr (j, k, inr l)
          ];
          from = λ x h. elim (s.from x h) [
            | inl k ↦ elim (In-append x q (c ∷ []) k) [
              | inl k' ↦ inl k'
              | inr (inl p) ↦ inr (s.kept x (inl p))
              | inr (inr k') ↦ absurd k'
            ]
            | inr k ↦ inr k
          ];
          distinct = λ d. s.distinct ((λ m. let t = member_complete c v m in cc), d);
          size = omega (arith, s.size, length-append q (c ∷ []));
        })
]

module _ (children : Str → List (ℕ × Str)) (root : Str) (universe : List Str) where
  -- What holds between two rounds of the outer loop.
  record Scanning (fuel : ℕ) (v q : List Str) : Type 0 where
    rooted : In root v
    reached : (x : Str) → In x v → Reach children root x
    waiting : (x : Str) → In x q → In x v
    closed : (x : Str) → In x v → In x q ⊎ ((i : ℕ) (c : Str) → In (i, c) (children x) → In c v)
    distinct : Distinct v
    inside : (x : Str) → In x v → In x universe
    enough : length universe + length q ≤ fuel + length v

  closed-Reach :
      (v : List Str)
      → In root v
      → ((x : Str) → In x v → (i : ℕ) (c : Str) → In (i, c) (children x) → In c v)
      → (x : Str) → Reach children root x
      → In x v
  closed-Reach v h k x here = h
  closed-Reach v h k x (below {parent} i child r m) =
      k parent (closed-Reach v h k parent r) i child m

  module _ (bounded : (p c : Str) (i : ℕ) → In (i, c) (children p) → In c universe) where
    step :
        (fuel : ℕ) (x : Str) (v q : List Str)
        → Scanning (suc fuel) v (x ∷ q)
        → Scanning fuel (visit (children x) v q).0 (visit (children x) v q).1
    step fuel x v q s =
        let t = visit-Visits (children x) v q in
        record {
          rooted = t.kept root s.rooted;
          reached = λ y h. elim (t.new y h) [
            | inl k ↦ s.reached y k
            | inr (i, k, m) ↦ below i y (s.reached x (s.waiting x (inl refl))) m
          ];
          waiting = λ y h. elim (t.from y h) [ inl k ↦ t.kept y (s.waiting y (inr k)) | inr k ↦ k ];
          closed = λ y h. elim (t.new y h) [
            | inl k ↦ elim (s.closed y k) [
              | inl (inl p) ↦ inr (λ i c m. t.seen i c (subst (λ z. In (i, c) (children z)) p m))
              | inl (inr l) ↦ inl (t.queued y l)
              | inr l ↦ inr (λ i c m. t.kept c (l i c m))
            ]
            | inr (i, k, m) ↦ inl k
          ];
          distinct = t.distinct s.distinct;
          inside =
              λ y h. elim (t.new y h) [ inl k ↦ s.inside y k | inr (i, k, m) ↦ bounded x y i m ];
          enough = let a = s.enough in let b = t.size in omega arith;
        }

    finished :
        (v : List Str) (fuel : ℕ) → Scanning fuel v [] → (x : Str) → In x v ↔ Reach children root x
    finished v fuel s x = (
      s.reached x,
      closed-Reach v s.rooted (λ y h. elim (s.closed y h) [ inl k ↦ absurd k | inr k ↦ k ]) x,
    )

    bfs_lem :
        (fuel : ℕ) (v q : List Str)
        → Scanning fuel v q
        → Distinct (bfs fuel children v q)
          × ((x : Str) → In x (bfs fuel children v q) ↔ Reach children root x)
    unfolding bfs
    bfs_lem zero v [] s = (s.distinct, finished v zero s)
    bfs_lem zero v (x ∷ q) s =
        let a = s.enough in
        let b = Distinct-length v universe s.distinct s.inside in absurd (omega arith)
    bfs_lem (suc fuel) v [] s = (s.distinct, finished v (suc fuel) s)
    bfs_lem (suc fuel) v (x ∷ q) s =
        bfs_lem fuel (visit (children x) v q).0 (visit (children x) v q).1 (step fuel x v q s)

-- Over readers as the pipeline feeds them, the ids that are collected are the root and all that
-- the edges reach from it, each once. The rounds of the loop suffice, also where the edges have a
-- cycle.
pub scope_ids_lem :
    (r : Readers) (root : Str)
    → AreReaders r
    → Distinct (scope_ids r root) × ((x : Str) → In x (scope_ids r root) ↔ Reach r.children root x)
unfolding scope_ids
scope_ids_lem r root laws =
    bfs_lem r.children root universe bounded (suc (length r.nodes)) (root ∷ []) (root ∷ [])
      (record {
        rooted = inl refl;
        reached = λ x h. subst (λ z. Reach r.children root z) (sym (only x h)) here;
        waiting = λ x h. h;
        closed = λ x h. inl h;
        distinct = ((λ h. h), tt);
        inside = λ x h. inl (only x h);
        enough = let l = map_length r.nodes in omega arith;
      })
  where
    only : (x : Str) → In x (root ∷ []) → x ≡ root
    only x (inl p) = p
    only x (inr k) = absurd k

    node_id : Str × NodeRec → Str
    node_id row = row.1.id

    universe : List Str
    universe = root ∷ map node_id r.nodes

    map_length : (rows : List (Str × NodeRec)) → length (map node_id rows) ≡ length rows
    map_length [] = refl
    map_length (row ∷ rows) = ap suc (map_length rows)

    edge_id : (k p c : Str) (n : NodeRec) (i : ℕ) → child_edge (k, n) ≡ some (p, (i, c)) → c ≡ n.id
    edge_id k p c n i e = elim (Option-cases n.parent_id) [
      | inl m ↦ let bad : none ≡ some (p, (i, c)) = rw m at e in cc
      | inr (parent, m) ↦
          let same : some (parent, (n.child_index, n.id)) ≡ some (p, (i, c)) = rw m at e in
          sym (ap (λ z. z.1.1) (some-injective (parent, (n.child_index, n.id)) (p, (i, c)) same))
    ]

    bounded : (p c : Str) (i : ℕ) → In (i, c) (r.children p) → In c universe
    bounded p c i h =
        let (k, n, m, e) = laws.children-rows p c i h in
        inr (
          subst (λ z. In z (map node_id r.nodes)) (sym (edge_id k p c n i e))
            (In-map node_id (k, n) r.nodes m))
