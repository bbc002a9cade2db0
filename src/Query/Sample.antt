-- ===== src/Query/Sample.antt =====
-- Readers over a list of nodes, for the examples: they show that the laws asked of them can be met.
use mathlib.Core.Option
use mathlib.Core.Option.{some-injective}
use mathlib.Core.Path.{subst}
use figmog.Prelude.{ℕ, ◌≡◌, inl, inr, sym, ap, ◌∙◌, Option, none, some, List, [], ◌∷◌, map}
use figmog.Prelude.Tests.{◌==◌, if◌then◌else◌, Bool-cases}
use figmog.Prelude.Text.{Str, str_eq, str_beq_iff}
use figmog.Prelude.Members.{In, Distinct}
use figmog.Model.{NodeRec}
use figmog.Store.Stream.{filter_map, In-filter_map, filter_map-In, In-map, map-In}
use figmog.Store.Branches.{type_edge}
use figmog.Query.Readers.{Readers, AreReaders}

abbrev by_id : Str → List NodeRec → Option NodeRec
by_id k [] = none
by_id k (n ∷ ns) = if n.id == k then some n else by_id k ns

abbrev edge_of : Str → Option Str → ℕ × Str → Option (ℕ × Str)
edge_of p none edge = none
edge_of p (some q) edge = if q == p then some edge else none

abbrev edge_under : Str → NodeRec → Option (ℕ × Str)
edge_under p n = edge_of p n.parent_id (n.child_index, n.id)

abbrev id_if_type : Str → NodeRec → Option Str
id_if_type t n = if n.node_type == t then some n.id else none

abbrev keyed_row : NodeRec → Str × NodeRec
keyed_row n = (n.id, n)

abbrev pub readers : List NodeRec → Readers
readers ns = record {
  nodes = map keyed_row ns;
  node = λ k. by_id k ns;
  children = λ p. filter_map (edge_under p) ns;
  by_type = λ t. filter_map (id_if_type t) ns;
  instances_of = λ c. [];
  styled_by = λ s. [];
  bound_to = λ v. [];
  components = [];
  component = λ k. none;
  component_sets = [];
  styles = [];
  variables = [];
  variable = λ k. none;
  collection = λ k. none;
  meta = none;
}

by_id-In : (k : Str) (n : NodeRec) (ns : List NodeRec) → by_id k ns ≡ some n → In n ns × (k ≡ n.id)
by_id-In k n [] h = cc
by_id-In k n (m ∷ ns) h = elim (Bool-cases (m.id == k)) [
  | inl e ↦
      let p : some m ≡ some n = rw e at h in
      let q = some-injective m n p in
      (inl (sym q), sym ((str_beq_iff m.id k).0 e) ∙ ap (λ z. z.id) q)
  | inr e ↦ let (i, p) = by_id-In k n ns (rw e at h) in (inr i, p)
]

In-by_id :
    (n : NodeRec) (ns : List NodeRec)
    → Distinct (map (λ m. m.id) ns)
    → In n ns
    → by_id n.id ns ≡ some n
In-by_id n [] d h = absurd h
In-by_id n (m ∷ ns) (f, d) (inl p) =
    rw ((str_beq_iff m.id n.id).1 (sym (ap (λ z. z.id) p))) (ap some (sym p))
In-by_id n (m ∷ ns) (f, d) (inr h) = elim (Bool-cases (m.id == n.id)) [
  | inl e ↦ absurd (
      f (
        subst (λ z. In z (map (λ m. m.id) ns)) (sym ((str_beq_iff m.id n.id).0 e))
          (In-map (λ (m : NodeRec). m.id) n ns h)))
  | inr e ↦ rw e (In-by_id n ns d h)
]

edge_of-inv :
    (p : Str) (o : Option Str) (edge edge' : ℕ × Str)
    → edge_of p o edge ≡ some edge'
    → Option.map {B = Str × (ℕ × Str)} (λ parent. (parent, edge)) o ≡ some (p, edge')
edge_of-inv p none edge edge' h = cc
edge_of-inv p (some q) edge edge' h = elim (Bool-cases (q == p)) [
  | inr e ↦ let bad : none ≡ some edge' = rw e at h in cc
  | inl e ↦
      let same : some edge ≡ some edge' = rw e at h in
      ap (λ z. some (z, edge)) ((str_beq_iff q p).0 e)
      ∙ ap (λ z. some (p, z)) (some-injective edge edge' same)
]

id_if_type_iff : (t k : Str) (n : NodeRec) → id_if_type t n ≡ some k → type_edge (n.id, n) ≡ (k, t)
id_if_type_iff t k n h = elim (Bool-cases (n.node_type == t)) [
  | inl e ↦
      let p : some n.id ≡ some k = simp e at h in
      ap (λ z. (z, n.node_type)) (some-injective n.id k p)
      ∙ ap (λ z. (k, z)) ((str_beq_iff n.node_type t).0 e)
  | inr e ↦ let bad : none ≡ some k = simp e at h in cc
]

module _ (ns : List NodeRec) (distinct : Distinct (map (λ m. m.id) ns)) where
  stored : (k : Str) (n : NodeRec) → In (k, n) (map keyed_row ns) → In n ns × (k ≡ n.id)
  stored k n h =
      let (m, i, e) = map-In keyed_row (k, n) ns h in
      let q = ap (λ z. z.1) e in
      (subst (λ z. In z ns) (sym q) i, ap (λ z. z.0) e ∙ ap (λ z. z.id) (sym q))

  row_of : (n : NodeRec) → In n ns → In (n.id, n) (map keyed_row ns)
  row_of n h = In-map keyed_row n ns h

  pub readers-AreReaders : AreReaders (readers ns)
  readers-AreReaders = record {
    node-rows = λ k n. (
      (λ h.
          let (i, e) = stored k n h in
          subst (λ z. by_id z ns ≡ some n) (sym e) (In-by_id n ns distinct i)),
      (λ h.
          let (i, e) = by_id-In k n ns h in
          subst (λ z. In (z, n) (map keyed_row ns)) (sym e) (row_of n i)),
    );
    keyed = λ k n h. (stored k n h).1;
    children-rows = λ p c i h.
        let (n, j, e) = filter_map-In (edge_under p) (i, c) ns h in
        (n.id, n, row_of n j, edge_of-inv p n.parent_id (n.child_index, n.id) (i, c) e);
    by_type-rows = λ t k. (
      (λ h.
          let (n, j, e) = filter_map-In (id_if_type t) k ns h in
          (n.id, n, row_of n j, id_if_type_iff t k n e)),
      (λ (j, n, i, e).
          let (i', o) = stored j n i in
          In-filter_map (id_if_type t) n k ns
            (rw ((str_beq_iff n.node_type t).1 (ap (λ z. z.1) e)) (ap (λ z. some z.0) e)) i'),
    );
  }
