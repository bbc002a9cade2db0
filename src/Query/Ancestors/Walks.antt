-- ===== src/Query/Ancestors/Walks.antt =====
-- The rounds of the walks up the tree in `path` and `depth_of` of src/query.rs.
use mathlib.Core.Path.{subst}
use mathlib.Core.Option.{some-injective}
use figmog.Prelude.{
  ℕ, zero, suc, ◌+◌, ◌<◌, ◌≡◌, ◌⊎◌, inl, inr, refl, sym, ap, ◌∙◌, true, false, Option, none, some,
  List, [], ◌∷◌, arith,
}
use figmog.Prelude.Tests.{Bool-cases, Option-cases}
use figmog.Prelude.Lists.{length, All}
use figmog.Prelude.Text.{Str, str_eq}
use figmog.Prelude.Members.{member, member_sound, All-In}
use figmog.Model.{NodeRec}
use figmog.Api.{Result, ok}
use figmog.Query.Ancestors.{climb, rise}

-- The nodes from one up to a root.
abbrev pub Ancestry : (Str → Option NodeRec) → Str → List NodeRec → Type 0
Ancestry node id [] = ⊥
Ancestry node id (n ∷ []) = (node id ≡ some n) × (n.parent_id ≡ none)
Ancestry node id (n ∷ m ∷ up) =
    (p : Str) × (node id ≡ some n) × (n.parent_id ≡ some p) × Ancestry node p (m ∷ up)

-- `chain.reverse()`, in front of what is there
abbrev pub rev_onto : List NodeRec → List NodeRec → List NodeRec
rev_onto [] chain = chain
rev_onto (n ∷ up) chain = rev_onto up (n ∷ chain)

module _ (node : Str → Option NodeRec) where
  Ancestry-unique :
      (id : Str) (a b : List NodeRec)
      → Ancestry node id a
      → Ancestry node id b
      → length a ≡ length b
  Ancestry-unique id [] b h k = absurd h
  Ancestry-unique id (n ∷ a) [] h k = absurd k
  Ancestry-unique id (n ∷ []) (m ∷ []) h k = refl
  Ancestry-unique id (n ∷ []) (m ∷ m' ∷ b) (e, h) (p, f, g, k) = cc
  Ancestry-unique id (n ∷ n' ∷ a) (m ∷ []) (p, e, g, h) (f, k) = cc
  Ancestry-unique id (n ∷ n' ∷ a) (m ∷ m' ∷ b) (p, e, g, h) (q, f, g', k) =
      let same : p ≡ q = cc in
      ap suc
        (Ancestry-unique p (n' ∷ a) (m' ∷ b) h (subst (λ z. Ancestry node z (m' ∷ b)) (sym same) k))

  -- What has been visited lies below.
  abbrev Lower : ℕ → Str → Type 0
  Lower k v = (c : List NodeRec) × Ancestry node v c × (k < length c)

  not_visited :
      (current : Str) (visited : List Str) (up : List NodeRec)
      → Ancestry node current up
      → All (Lower (length up)) visited
      → member current visited ≡ false
  not_visited current visited up a l = elim (Bool-cases (member current visited)) [
    | inr e ↦ e
    | inl e ↦
        let (c, b, k) =
          All-In (Lower (length up)) current visited l (member_sound current visited e) in
        let same = Ancestry-unique current up c a b in absurd (omega arith)
  ]

  Lower-suc : (k : ℕ) (visited : List Str) → All (Lower (suc k)) visited → All (Lower k) visited
  Lower-suc k [] h = tt
  Lower-suc k (v ∷ visited) ((c, a, l), h) = ((c, a, omega arith), Lower-suc k visited h)

  -- One round of each loop, where it goes on or stops at a root.
  pub climb-root :
      (fuel : ℕ) (visited : List Str) (current : Str) (chain : List NodeRec) (n : NodeRec)
      → member current visited ≡ false
      → node current ≡ some n
      → n.parent_id ≡ none
      → climb (suc fuel) node visited current chain ≡ some (ok (n ∷ chain))
  unfolding climb
  climb-root fuel visited current chain n v e p = rw (v, climb) (rw e (simp p))

  pub climb-up :
      (fuel : ℕ) (visited : List Str) (current : Str) (chain : List NodeRec) (n : NodeRec) (p : Str)
      → member current visited ≡ false
      → node current ≡ some n
      → n.parent_id ≡ some p
      → climb (suc fuel) node visited current chain
        ≡ climb fuel node (current ∷ visited) p (n ∷ chain)
  unfolding climb
  climb-up fuel visited current chain n p v e g = rw (v, climb) (rw e (simp g))

  pub rise-up :
      (fuel : ℕ) (visited : List Str) (current : Str) (depth : ℕ) (n : NodeRec) (p : Str)
      → member current visited ≡ false
      → node current ≡ some n
      → n.parent_id ≡ some p
      → rise (suc fuel) node visited current depth
        ≡ rise fuel node (current ∷ visited) p (depth + 1)
  unfolding rise
  rise-up fuel visited current depth n p v e g = rw (e, rise) (rw v (simp g))

  -- Where the walks stand: at an id seen before, at one that is missing, at a root, or below a node.
  pub place :
      (visited : List Str) (current : Str)
      → (member current visited ≡ true)
        ⊎ ((member current visited ≡ false)
            × ((node current ≡ none)
                ⊎ ((n : NodeRec) × (node current ≡ some n)
                    × ((n.parent_id ≡ none) ⊎ ((p : Str) × (n.parent_id ≡ some p))))))
  place visited current = elim (Bool-cases (member current visited)) [
    | inl e ↦ inl e
    | inr e ↦ inr (
      e,
      elim (Option-cases (node current)) [
        | inl m ↦ inl m
        | inr (n, m) ↦ inr (n, m, Option-cases n.parent_id)
      ],
    )
  ]

  pub climb-Ancestry :
      (up : List NodeRec) (fuel : ℕ) (visited : List Str) (current : Str) (chain : List NodeRec)
      (result : Result Str (List NodeRec))
      → Ancestry node current up
      → All (Lower (length up)) visited
      → climb fuel node visited current chain ≡ some result
      → result ≡ ok (rev_onto up chain)
  unfolding climb
  climb-Ancestry [] fuel visited current chain result a l h = absurd a
  climb-Ancestry (n ∷ up) zero visited current chain result a l h = cc
  climb-Ancestry (n ∷ []) (suc fuel) visited current chain result (e, p) l h =
      let same =
        sym (
          climb-root fuel visited current chain n (not_visited current visited (n ∷ []) (e, p) l) e
            p)
        ∙ h in
      sym (some-injective (ok (n ∷ chain)) result same)
  climb-Ancestry (n ∷ m ∷ up) (suc fuel) visited current chain result (p, e, g, a) l h =
      climb-Ancestry (m ∷ up) fuel (current ∷ visited) p (n ∷ chain) result a
        ((n ∷ m ∷ up, (p, e, g, a), omega arith), Lower-suc (length (m ∷ up)) visited l)
        (sym (
            climb-up fuel visited current chain n p
              (not_visited current visited (n ∷ m ∷ up) (p, e, g, a) l) e g)
          ∙ h)

  pub rise-Ancestry :
      (up : List NodeRec) (fuel : ℕ) (visited : List Str) (current : Str) (depth d : ℕ)
      → Ancestry node current up
      → All (Lower (length up)) visited
      → rise fuel node visited current depth ≡ some d
      → suc d ≡ depth + length up
  unfolding rise
  rise-Ancestry [] fuel visited current depth d a l h = absurd a
  rise-Ancestry (n ∷ up) zero visited current depth d a l h = cc
  rise-Ancestry (n ∷ []) (suc fuel) visited current depth d (e, p) l h =
      let here : some depth ≡ some d =
        simp p at (rw (not_visited current visited (n ∷ []) (e, p) l) at (rw (e, rise) at h)) in
      let same = some-injective depth d here in omega arith
  rise-Ancestry (n ∷ m ∷ up) (suc fuel) visited current depth d (p, e, g, a) l h =
      let higher =
        rise-Ancestry (m ∷ up) fuel (current ∷ visited) p (depth + 1) d a
          ((n ∷ m ∷ up, (p, e, g, a), omega arith), Lower-suc (length (m ∷ up)) visited l)
          (sym (
              rise-up fuel visited current depth n p
                (not_visited current visited (n ∷ m ∷ up) (p, e, g, a) l) e g)
            ∙ h) in
      omega arith

  pub climb_sound :
      (fuel : ℕ) (visited : List Str) (current : Str) (chain out : List NodeRec)
      → climb fuel node visited current chain ≡ some (ok out)
      → (up : List NodeRec) × Ancestry node current up × (out ≡ rev_onto up chain)
  unfolding climb
  climb_sound zero visited current chain out h = cc
  climb_sound (suc fuel) visited current chain out h = elim (place visited current) [
    | inl e ↦ let bad = rw (e, climb) at h in cc
    | inr (e, inl m) ↦ let bad = rw m at (rw (e, climb) at h) in cc
    | inr (e, inr (n, m, inl q)) ↦
        let same = sym (climb-root fuel visited current chain n e m q) ∙ h in (n ∷ [], (m, q), cc)
    | inr (e, inr (n, m, inr (p, q))) ↦ longer n m p q (
        climb_sound fuel (current ∷ visited) p (n ∷ chain) out
          (sym (climb-up fuel visited current chain n p e m q) ∙ h))
  ]
    where
      longer :
          (n : NodeRec)
          → node current ≡ some n
          → (p : Str) → n.parent_id ≡ some p
          → ((up : List NodeRec) × Ancestry node p up × (out ≡ rev_onto up (n ∷ chain)))
          → (up : List NodeRec) × Ancestry node current up × (out ≡ rev_onto up chain)
      longer n m p q ([], a, o) = absurd a
      longer n m p q (k ∷ up, a, o) = (n ∷ k ∷ up, (p, m, q, a), o)
