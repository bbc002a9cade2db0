-- ===== src/Query/Stats/Laws.antt =====
-- What `stats` in src/query.rs counts.
use mathlib.Core.Option.{some-injective}
use figmog.Prelude.{
  map, ℕ, ◌+◌, ◌≤◌, ◌≡◌, ◌≢◌, ◌⊎◌, inl, inr, refl, sym, ap, ◌∙◌, Bool, true, false, some, List, [],
  ◌∷◌, arith,
}
use figmog.Prelude.Tests.{◌==◌, if◌then◌else◌, ltb, Bool-cases}
use figmog.Prelude.Text.{Str, str_eq, str_beq_iff}
use figmog.Prelude.Members.{In, Distinct, All-In}
use figmog.Prelude.Lists.{All}
use mathlib.Core.Path.{subst}
use figmog.Prelude.Sorting.{str_leb, str_total, str_trans, str_antisym}
use figmog.Model.{NodeRec}
use figmog.Api.{ok}
use figmog.Query.Readers.{Readers, AreReaders}
use figmog.Query.Ancestors.{depth_of}
use figmog.Query.Ancestors.Laws.{depth_of_lem}
use figmog.Query.Stats.{
  Counts, counted, counted_by_type, counted_by_page, is_content, larger, count_nodes, stats_json,
  all_nodes, stats,
}

-- What a map of counts has under a key
abbrev pub count_of : Str → Counts → ℕ
count_of t [] = 0
count_of t ((k, c) ∷ rest) = let later = count_of t rest in if k == t then c + later else later

-- The keys of a map of counts
abbrev pub keys : Counts → List Str
keys cs = map (λ (row : Str × ℕ). row.0) cs

-- Further up in the order, and another
abbrev Above : Str → Str → Type 0
Above k x = (str_leb k x ≡ true) × (x ≢ k)

-- How many nodes pass a test
abbrev pub number_of : (NodeRec → Bool) → List NodeRec → ℕ
number_of p [] = 0
number_of p (n ∷ ns) = let rest = number_of p ns in if p n then 1 + rest else rest

abbrev pub has_type : Str → NodeRec → Bool
has_type t n = n.node_type == t

abbrev pub has_page : Str → NodeRec → Bool
has_page t n = if is_content n then n.page_id == t else false

abbrev one_if : Bool → ℕ
one_if b = if b then 1 else 0

count_of-counted :
    (t k : Str) (cs : Counts) → count_of t (counted k cs) ≡ one_if (k == t) + count_of t cs
count_of-counted t k [] = ground arith
count_of-counted t k ((j, c) ∷ rest) = elim (Bool-cases (j == k)) [
  | inl e ↦
      let same : (k == t) ≡ (j == t) = ap (λ x. x == t) (sym ((str_beq_iff j k).0 e)) in
      rw (e, same) (by_test (j == t) (count_of t rest))
  | inr e ↦ rw e (by_order (str_leb k j) (count_of-counted t k rest))
]
  where
    by_test :
        (b : Bool) (m : ℕ) → (if b then (c + 1) + m else m) ≡ one_if b + (if b then c + m else m)
    by_test true m = omega arith
    by_test false m = omega arith

    by_order :
        (o : Bool)
        → count_of t (counted k rest) ≡ one_if (k == t) + count_of t rest
        → count_of t (if o then (k, 1) ∷ (j, c) ∷ rest else (j, c) ∷ counted k rest)
          ≡ one_if (k == t) + count_of t ((j, c) ∷ rest)
    by_order o h = ground arith

-- The keys stand in order, and so each once.
abbrev pub Ordered : Counts → Type 0
Ordered [] = Unit
Ordered ((k, c) ∷ rest) = All (Above k) (keys rest) × Ordered rest

counted-All :
    (P : Str → Type 0) (k : Str) (cs : Counts) → P k → All P (keys cs) → All P (keys (counted k cs))
counted-All P k [] p h = (p, tt)
counted-All P k ((j, c) ∷ rest) p (q, h) = elim (Bool-cases (j == k)) [
  | inl e ↦ rw e (q, h)
  | inr e ↦ elim (Bool-cases (str_leb k j)) [
    | inl o ↦ rw (e, o) (p, (q, h))
    | inr o ↦ rw (e, o) (q, counted-All P k rest p h)
  ]
]

Above-trans : (k j : Str) (ks : List Str) → Above k j → All (Above j) ks → All (Above k) ks
Above-trans k j [] a h = tt
Above-trans k j (x ∷ ks) (a, d) ((b, e), h) = (
  (str_trans k j x a b, λ same. d (str_antisym j k (subst (λ z. str_leb j z ≡ true) same b) a)),
  Above-trans k j ks (a, d) h,
)

counted-Ordered : (k : Str) (cs : Counts) → Ordered cs → Ordered (counted k cs)
counted-Ordered k [] o = (tt, tt)
counted-Ordered k ((j, c) ∷ rest) (above, o) = elim (Bool-cases (j == k)) [
  | inl e ↦ rw e (above, o)
  | inr e ↦
      let apart : j ≢ k = λ p. let bad : true ≡ false = sym ((str_beq_iff j k).1 p) ∙ e in cc in
      elim (Bool-cases (str_leb k j)) [
        | inl l ↦
            let here : Above k j = (l, λ p. apart p) in
            rw (e, l) ((here, Above-trans k j (keys rest) here above), (above, o))
        | inr l ↦
            rw (e, l)
              (
                counted-All (Above j) k rest (str_total k j l, λ p. apart (sym p)) above,
                counted-Ordered k rest o,
              )
      ]
]

counted_by_page-Ordered : (n : NodeRec) (cs : Counts) → Ordered cs → Ordered (counted_by_page n cs)
counted_by_page-Ordered n cs o = elim (Bool-cases (is_content n)) [
  | inl e ↦ rw e (counted-Ordered n.page_id cs o)
  | inr e ↦ rw e o
]

Ordered-Distinct : (cs : Counts) → Ordered cs → Distinct (keys cs)
Ordered-Distinct [] o = tt
Ordered-Distinct ((k, c) ∷ rest) (above, o) =
    ((λ i. (All-In (Above k) k (keys rest) above i).1 refl), Ordered-Distinct rest o)

tallied_types :
    (t : Str) (n : NodeRec) (ns : List NodeRec) (cs : Counts)
    → count_of t (counted_by_type n cs) + number_of (has_type t) ns
      ≡ count_of t cs + number_of (has_type t) (n ∷ ns)
tallied_types t n ns cs = rw (count_of-counted t n.node_type cs) (ground arith)

tallied_pages :
    (t : Str) (n : NodeRec) (ns : List NodeRec) (cs : Counts)
    → count_of t (counted_by_page n cs) + number_of (has_page t) ns
      ≡ count_of t cs + number_of (has_page t) (n ∷ ns)
tallied_pages t n ns cs = elim (Bool-cases (is_content n)) [
  | inl e ↦ rw (e, count_of-counted t n.page_id cs) (ground arith)
  | inr e ↦ rw e refl
]

larger-left : (a b : ℕ) → a ≤ larger a b
larger-left a b = ground arith

larger-right : (a b : ℕ) → b ≤ larger a b
larger-right a b = ground arith

larger-cases : (a b : ℕ) → (larger a b ≡ a) ⊎ (larger a b ≡ b)
larger-cases a b = elim (Bool-cases (ltb a b)) [ inl e ↦ inr (rw e refl) | inr e ↦ inl (rw e refl) ]

-- What the loop has found when it ends
abbrev pub Counted : Readers → List NodeRec → Counts → Counts → ℕ → Counts × Counts × ℕ → Type 0
Counted r ns by_type by_page depth (types, pages, max_depth) =
    ((t : Str) → count_of t types ≡ count_of t by_type + number_of (has_type t) ns)
    × ((t : Str) → count_of t pages ≡ count_of t by_page + number_of (has_page t) ns)
    × (depth ≤ max_depth)
    × ((n : NodeRec) → In n ns → (d : ℕ) → depth_of r n.id ≡ some d → d ≤ max_depth)
    × ((max_depth ≡ depth) ⊎ ((n : NodeRec) × In n ns × (depth_of r n.id ≡ some max_depth)))

module _ (r : Readers) (laws : AreReaders r) where
  count_nodes-Counted :
      (ns : List NodeRec) (by_type by_page : Counts) (depth : ℕ)
      → Ordered by_type
      → Ordered by_page
      → (found : Counts × Counts × ℕ) × (count_nodes r ns by_type by_page depth ≡ some found)
        × Counted r ns by_type by_page depth found
        × Ordered found.0
        × Ordered found.1
  unfolding count_nodes
  count_nodes-Counted [] by_type by_page depth o p = (
    (by_type, by_page, depth),
    refl,
    ((λ t. omega arith), (λ t. omega arith), omega arith, (λ n bad. absurd bad), inl refl),
    o,
    p,
  )
  count_nodes-Counted (n ∷ ns) by_type by_page depth o p =
      let (d, h, _) = depth_of_lem r laws n.id in
      let (found, k, counts, types_ordered, pages_ordered) =
        count_nodes-Counted ns (counted_by_type n by_type) (counted_by_page n by_page)
          (larger depth d) (counted-Ordered n.node_type by_type o)
          (counted_by_page-Ordered n by_page p) in
      let (types, pages, above, each, reached) = counts in
      let below_max : (m : NodeRec)
          → In m (n ∷ ns)
          → (e : ℕ) → depth_of r m.id ≡ some e
          → e ≤ found.2 =
        λ m i e q. elim i [
          | inl same ↦
              let g : depth_of r n.id ≡ some e = ap (λ z. depth_of r z.id) (sym same) ∙ q in
              let w : d ≡ e = some-injective d e (sym h ∙ g) in
              omega (arith, w, above, larger-right depth d)
          | inr later ↦ each m later e q
        ] in
      let max_reached : (found.2 ≡ depth)
          ⊎ ((m : NodeRec) × In m (n ∷ ns) × (depth_of r m.id ≡ some found.2)) =
        elim reached [
          | inl e ↦ elim (larger-cases depth d) [
            | inl f ↦ inl (e ∙ f)
            | inr f ↦ inr (n, inl refl, h ∙ ap some (sym (e ∙ f)))
          ]
          | inr later ↦ let (m, i, q) = later in inr (m, inr i, q)
        ] in
      (
        found,
        rw h k,
        (
          (λ t. types t ∙ tallied_types t n ns by_type),
          (λ t. pages t ∙ tallied_pages t n ns by_page),
          omega (arith, above, larger-left depth d),
          below_max,
          max_reached,
        ),
        types_ordered,
        pages_ordered,
      )

  -- Over readers as the pipeline feeds them, `stats` always answers. It prints two maps of counts and a
  -- depth such that each type has the number of the nodes of this type, each page the number of the
  -- nodes of this page that are neither pages nor the document. No node is deeper than the depth, which
  -- is 0 or the depth of a node. Neither map has a key twice.
  pub stats_lem :
      (found : Counts × Counts × ℕ) × (stats r ≡ some (ok (stats_json r found)))
      × Counted r (all_nodes r) [] [] 0 found
      × Distinct (keys found.0)
      × Distinct (keys found.1)
  unfolding stats
  stats_lem =
      let (found, h, counts, types, pages) = count_nodes-Counted (all_nodes r) [] [] 0 tt tt in
      (found, rw h refl, counts, Ordered-Distinct found.0 types, Ordered-Distinct found.1 pages)
