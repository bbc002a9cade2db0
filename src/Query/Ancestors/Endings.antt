-- ===== src/Query/Ancestors/Endings.antt =====
-- The ends of the walks up the tree in `path` and `depth_of` of src/query.rs.
use mathlib.Core.Path.{subst}
use figmog.Prelude.{
  ℕ, zero, suc, ◌+◌, ◌<◌, ◌≡◌, inl, inr, refl, sym, ◌∙◌, false, Option, some, List, ◌∷◌, ◌++◌,
  arith,
}
use figmog.Prelude.Tests.{Option-cases}
use figmog.Prelude.Lists.{length}
use figmog.Prelude.Text.{Str, lit, str_eq}
use figmog.Prelude.Members.{In, Distinct, member, member_complete}
use figmog.Prelude.Counting.{Distinct-length}
use figmog.Model.{NodeRec}
use figmog.Api.{Result, ok, err}
use figmog.Query.Scope.{no_node}
use figmog.Query.Ancestors.{climb, rise}
use figmog.Query.Ancestors.Walks.{climb-root, climb-up, rise-up, place}

module _ (node : Str → Option NodeRec) (keys : List Str)
    (held : (k : Str) (n : NodeRec) → node k ≡ some n → In k keys) where
  pub record Climbing (fuel : ℕ) (visited : List Str) : Type 0 where
    pub distinct : Distinct visited
    pub inside : (k : Str) → In k visited → In k keys
    pub enough : length keys < fuel + length visited

  out_of_fuel : (visited : List Str) → Climbing zero visited → ⊥
  out_of_fuel visited s =
      let a = s.enough in let b = Distinct-length visited keys s.distinct s.inside in omega arith

  next :
      (fuel : ℕ) (visited : List Str) (current : Str) (n : NodeRec)
      → Climbing (suc fuel) visited
      → member current visited ≡ false
      → node current ≡ some n
      → Climbing fuel (current ∷ visited)
  next fuel visited current n s e m = record {
    distinct = ((λ h. let t = member_complete current visited h in cc), s.distinct);
    inside = λ k h. elim h [
      | inl p ↦ subst (λ z. In z keys) (sym p) (held current n m)
      | inr h' ↦ s.inside k h'
    ];
    enough = let a = s.enough in omega arith;
  }

  pub climb-total :
      (fuel : ℕ) (visited : List Str) (current : Str) (chain : List NodeRec)
      → Climbing fuel visited
      → (result : Result Str (List NodeRec)) × (climb fuel node visited current chain ≡ some result)
  unfolding climb
  climb-total zero visited current chain s = absurd (out_of_fuel visited s)
  climb-total (suc fuel) visited current chain s = elim (place node visited current) [
    | inl e ↦ (err (lit "parent cycle detected at " ++ current), rw (e, climb) refl)
    | inr (e, inl m) ↦ (err (no_node current), rw (e, climb) (rw m refl))
    | inr (e, inr (n, m, inl q)) ↦
        (ok (n ∷ chain), climb-root node fuel visited current chain n e m q)
    | inr (e, inr (n, m, inr (p, q))) ↦
        let (result, h) =
          climb-total fuel (current ∷ visited) p (n ∷ chain) (next fuel visited current n s e m) in
        (result, climb-up node fuel visited current chain n p e m q ∙ h)
  ]

  pub rise-total :
      (fuel : ℕ) (visited : List Str) (current : Str) (depth : ℕ)
      → Climbing fuel visited
      → (d : ℕ) × (rise fuel node visited current depth ≡ some d)
  unfolding rise
  rise-total zero visited current depth s = absurd (out_of_fuel visited s)
  rise-total (suc fuel) visited current depth s = elim (place node visited current) [
    | inl e ↦ elim (Option-cases (node current)) [
      | inl m ↦ (depth, rw (m, rise) refl)
      | inr (n, m) ↦ (depth, rw (m, rise) (rw e refl))
    ]
    | inr (e, inl m) ↦ (depth, rw (m, rise) refl)
    | inr (e, inr (n, m, inl q)) ↦ (depth, rw (m, rise) (rw e (simp q)))
    | inr (e, inr (n, m, inr (p, q))) ↦
        let (d, h) =
          rise-total fuel (current ∷ visited) p (depth + 1) (next fuel visited current n s e m) in
        (d, rise-up node fuel visited current depth n p e m q ∙ h)
  ]
