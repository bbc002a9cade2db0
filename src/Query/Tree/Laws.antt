-- ===== src/Query/Tree/Laws.antt =====
-- How deep the recursion of `build_tree` and `build_subtree` in src/query.rs goes.
use figmog.Prelude.{
  ℕ, zero, suc, ◌<◌, ◌≡◌, ◌⊎◌, inl, inr, refl, Bool, Option, none, some, List, [], ◌∷◌, arith,
}
use figmog.Prelude.Text.{Str}
use figmog.Prelude.Members.{In}
use figmog.Prelude.Sorting.{sort, In-sort}
use figmog.Json.{Value, Serde}
use figmog.Model.{NodeRec}
use figmog.Api.{Result, ok, err}
use figmog.Store.Stream.{filter_map-In}
use figmog.Query.Readers.{Readers, AreReaders}
use figmog.Query.Tree.{
  edge_leb, child_nodes, traverse, traverse_ok, build_tree, build_subtree, tree_of, dump, dumped,
  projected, parsed_raw,
}

-- There is an answer: the fuel was enough.
abbrev pub Answers {ℓ} : {A : Type ℓ} → Option A → Type ℓ
Answers {A = A} o = (a : A) × (o ≡ some a)

-- Every edge of the children index goes down in the rank: the index has no cycle.
abbrev pub Falls : Readers → (Str → ℕ) → Type 0
Falls r rank = (p c : Str) (i : ℕ) → In (i, c) (r.children p) → rank c < rank p

child_nodes-In :
    (r : Readers) (id : Str) (c : NodeRec)
    → AreReaders r
    → In c (child_nodes r id)
    → (i : ℕ) × In (i, c.id) (r.children id)
child_nodes-In r id c a h =
    let ((i, k), m, e) =
      filter_map-In (λ (e : ℕ × Str). r.node e.1) c (sort edge_leb (r.children id)) h in
    let named : k ≡ c.id = a.keyed k c ((a.node-rows k c).1 e) in
    (i, rw (← named) (In-sort edge_leb (i, k) (r.children id) m))

traverse-Answers :
    {A B : Type 0} (f : A → Option B) (xs : List A)
    → ((x : A) → In x xs → Answers (f x))
    → Answers (traverse f xs)
unfolding traverse
traverse-Answers f [] h = ([], refl)
traverse-Answers f (x ∷ xs) h =
    let (b, e) = h x (inl refl) in
    let (bs, k) = traverse-Answers f xs (λ y i. h y (inr i)) in (b ∷ bs, rw (e, k) refl)

-- Ok or an error, each step answers within its fuel.
traverse_ok-Answers :
    {A B : Type 0} (f : A → Option (Result Str B)) (xs : List A)
    → ((x : A) → In x xs → Answers (f x))
    → Answers (traverse_ok f xs)
unfolding traverse_ok
traverse_ok-Answers f [] h = (ok [], refl)
traverse_ok-Answers f (x ∷ xs) h =
    by_step (h x (inl refl)) (traverse_ok-Answers f xs (λ y i. h y (inr i)))
  where
    by_step : Answers (f x) → Answers (traverse_ok f xs) → Answers (traverse_ok f (x ∷ xs))
    by_step (err e, p) q = (err e, rw (p, traverse_ok) refl)
    by_step (ok b, p) (err e, q) = (err e, rw (p, q, traverse_ok) refl)
    by_step (ok b, p) (ok bs, q) = (ok (b ∷ bs), rw (p, q, traverse_ok) refl)

-- The fuel is more than the depth that is asked for, or the index has no cycle and the fuel is more
-- than the rank of the node.
abbrev pub Enough : Readers → (Str → ℕ) → ℕ → NodeRec → Option ℕ → Type 0
Enough r rank fuel n none = Falls r rank × (rank n.id < fuel)
Enough r rank fuel n (some d) = (d < fuel) ⊎ (Falls r rank × (rank n.id < fuel))

module _ (r : Readers) (rank : Str → ℕ) (a : AreReaders r) where
  lower :
      (fuel : ℕ) (n c : NodeRec)
      → Falls r rank
      → rank n.id < suc fuel
      → In c (child_nodes r n.id)
      → rank c.id < fuel
  lower fuel n c f h m =
      let (i, e) = child_nodes-In r n.id c a m in omega (arith, h, f n.id c.id i e)

  child-Enough :
      (fuel d : ℕ) (n c : NodeRec)
      → Enough r rank (suc fuel) n (some (suc d))
      → In c (child_nodes r n.id)
      → Enough r rank fuel c (some d)
  child-Enough fuel d n c (inl h) m = inl (omega (arith, h))
  child-Enough fuel d n c (inr (f, h)) m = inr (f, lower fuel n c f h m)

  none-Enough : (n : NodeRec) (depth : Option ℕ) → Enough r rank 0 n depth → ⊥
  none-Enough n none (f, h) = omega (arith, h)
  none-Enough n (some d) (inl h) = omega (arith, h)
  none-Enough n (some d) (inr (f, h)) = omega (arith, h)

  -- The outline ends, and has an answer: where the depth is bounded, and where the children index has
  -- no cycle, the fuel being more than the depth or than the rank of the node.
  pub build_tree-Answers :
      (fuel : ℕ) (n : NodeRec) (depth : Option ℕ)
      → Enough r rank fuel n depth
      → Answers (build_tree r fuel n depth)
  unfolding build_tree
  build_tree-Answers zero n depth h = absurd (none-Enough n depth h)
  build_tree-Answers (suc fuel) n (some zero) h = (tree_of n [], refl)
  build_tree-Answers (suc fuel) n (some (suc d)) h =
      let (kids, e) =
        traverse-Answers (λ c. build_tree r fuel c (some d)) (child_nodes r n.id)
          (λ c m. build_tree-Answers fuel c (some d) (child-Enough fuel d n c h m)) in
      (tree_of n kids, rw e refl)
  build_tree-Answers (suc fuel) n none (f, h) =
      let (kids, e) =
        traverse-Answers (λ c. build_tree r fuel c none) (child_nodes r n.id)
          (λ c m. build_tree-Answers fuel c none (f, lower fuel n c f h m)) in
      (tree_of n kids, rw e refl)

  module _ (sd : Serde) (parse_error : Str → Str) (fields : Option (List Str))
      (resolve_vars : Bool) where
    dump-Answers :
        (n : NodeRec) (kids : Option (Result Str (List Value)))
        → Answers kids
        → Answers (dump sd parse_error r fields resolve_vars n kids)
    dump-Answers n kids (ks, e) = by_raw (parsed_raw sd parse_error n) refl
      where
        by_raw :
            (v : Result Str Value)
            → parsed_raw sd parse_error n ≡ v
            → Answers (dump sd parse_error r fields resolve_vars n kids)
        by_raw (err x) p = (err x, rw (p, dump) refl)
        by_raw (ok v) p = (dumped sd r resolve_vars n (projected fields v) ks, rw (p, dump, e) refl)

    -- The dump of a subtree ends under the same conditions as its outline, with a value or an error.
    pub build_subtree-Answers :
        (fuel : ℕ) (n : NodeRec) (depth : Option ℕ)
        → Enough r rank fuel n depth
        → Answers (build_subtree sd parse_error r fields resolve_vars fuel n depth)
    unfolding build_subtree
    build_subtree-Answers zero n depth h = absurd (none-Enough n depth h)
    build_subtree-Answers (suc fuel) n (some zero) h = dump-Answers n (some (ok [])) (ok [], refl)
    build_subtree-Answers (suc fuel) n (some (suc d)) h =
        dump-Answers n
          (traverse_ok (λ c. build_subtree sd parse_error r fields resolve_vars fuel c (some d))
            (child_nodes r n.id))
          (traverse_ok-Answers
            (λ c. build_subtree sd parse_error r fields resolve_vars fuel c (some d))
            (child_nodes r n.id)
            (λ c m. build_subtree-Answers fuel c (some d) (child-Enough fuel d n c h m)))
    build_subtree-Answers (suc fuel) n none (f, h) =
        dump-Answers n
          (traverse_ok (λ c. build_subtree sd parse_error r fields resolve_vars fuel c none)
            (child_nodes r n.id))
          (traverse_ok-Answers (λ c. build_subtree sd parse_error r fields resolve_vars fuel c none)
            (child_nodes r n.id)
            (λ c m. build_subtree-Answers fuel c none (f, lower fuel n c f h m)))
