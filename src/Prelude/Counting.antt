-- ===== src/Prelude/Counting.antt =====
-- A list without repetitions is no longer than one that holds all its members.
use Prim.Native.Nat.{suc, ◌≤◌}
use mathlib.Core.Path.{◌≡◌, refl, sym, ◌∙◌, subst}
use mathlib.Core.Logic.{◌⊎◌, inl, inr}
use mathlib.Core.List.{List, [], ◌∷◌}
use native.Mathlib.Omega.{arith}
use figmog.Prelude.Lists.{length}
use figmog.Prelude.Members.{In, Distinct}

module _ {A : Type 0} where
  -- The list without one occurrence of a member.
  without_one :
      (a : A) (u : List A)
      → In a u
      → (rest : List A) × (length u ≡ suc (length rest)) × ((b : A) → In b u → (b ≡ a) ⊎ In b rest)
  without_one a [] h = absurd h
  without_one a (x ∷ u) (inl e) =
      (u, refl, λ b m. elim m [ inl p ↦ inl (p ∙ sym e) | inr k ↦ inr k ])
  without_one a (x ∷ u) (inr h) =
      let (rest, l, m) = without_one a u h in
      (
        x ∷ rest,
        omega (arith, l),
        λ b k. elim k [
          | inl p ↦ inr (inl p)
          | inr k' ↦ elim (m b k') [ inl p ↦ inl p | inr q ↦ inr (inr q) ]
        ],
      )

  pub Distinct-length :
      (xs u : List A) → Distinct xs → ((a : A) → In a xs → In a u) → length xs ≤ length u
  Distinct-length [] u d h = omega arith
  Distinct-length (x ∷ xs) u (n, d) h =
      let (rest, l, m) = without_one x u (h x (inl refl)) in
      omega (
        arith,
        l,
        Distinct-length xs rest d (λ a k. elim (m a (h a (inr k))) [
          | inl p ↦ absurd (n (subst (λ z. In z xs) p k))
          | inr q ↦ q
        ]),
      )
