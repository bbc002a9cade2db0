-- ===== src/Prelude/Members.antt =====
-- Membership in a list, with the place kept.
use mathlib.Core.Path.{◌≡◌, refl}
use mathlib.Core.Logic.{◌⊎◌, inl, inr}
use mathlib.Core.Bool.{Bool, true, false, not, ◌&&◌, ◌||◌}
use mathlib.Core.List.{List, [], ◌∷◌, ◌++◌}
use native.Mathlib.Omega.{arith}
use figmog.Prelude.Tests.{HasEquality, ◌==◌, Bool-cases}
use figmog.Prelude.Lists.{All}

module _ {A : Type 0} where
  abbrev pub In : A → List A → Type 0
  In a [] = ⊥
  In a (x ∷ xs) = (a ≡ x) ⊎ In a xs

  pub In-append_left : (a : A) (xs ys : List A) → In a xs → In a (xs ++ ys)
  In-append_left a [] ys h = absurd h
  In-append_left a (x ∷ xs) ys (inl e) = inl e
  In-append_left a (x ∷ xs) ys (inr h) = inr (In-append_left a xs ys h)

  pub In-append_right : (a : A) (xs ys : List A) → In a ys → In a (xs ++ ys)
  In-append_right a [] ys h = h
  In-append_right a (x ∷ xs) ys h = inr (In-append_right a xs ys h)

  pub In-append : (a : A) (xs ys : List A) → In a (xs ++ ys) → In a xs ⊎ In a ys
  In-append a [] ys h = inr h
  In-append a (x ∷ xs) ys (inl e) = inl (inl e)
  In-append a (x ∷ xs) ys (inr h) = elim (In-append a xs ys h) [
    | inl k ↦ inl (inr k)
    | inr k ↦ inr k
  ]

  pub All-In {κ} : (P : A → Type κ) (a : A) (xs : List A) → All P xs → In a xs → P a
  All-In P a [] h k = absurd k
  All-In P a (x ∷ xs) (p, h) (inl e) = rw e p
  All-In P a (x ∷ xs) (p, h) (inr k) = All-In P a xs h k

  pub All-of_In {κ} : (P : A → Type κ) (xs : List A) → ((a : A) → In a xs → P a) → All P xs
  All-of_In P [] h = tt
  All-of_In P (x ∷ xs) h = (h x (inl refl), All-of_In P xs (λ a m. h a (inr m)))

  -- No value stands in the list twice.
  abbrev pub Distinct : List A → Type 0
  Distinct [] = Unit
  Distinct (x ∷ xs) = ¬ In x xs × Distinct xs

module _ {A : Type 0} ⦃e : HasEquality A⦄ where
  abbrev pub member : A → List A → Bool
  member a [] = false
  member a (x ∷ xs) = a == x || member a xs

  pub member_sound : (a : A) (xs : List A) → member a xs ≡ true → In a xs
  member_sound a [] h = cc
  member_sound a (x ∷ xs) h = elim (Bool-cases (a == x)) [
    | inl p ↦ inl ((e.equal_iff a x).0 p)
    | inr p ↦ inr (member_sound a xs (rw p at h))
  ]

  pub member_complete : (a : A) (xs : List A) → In a xs → member a xs ≡ true
  member_complete a [] h = absurd h
  member_complete a (x ∷ xs) (inl p) = rw ((e.equal_iff a x).1 p)
  member_complete a (x ∷ xs) (inr h) = ground (arith, member_complete a xs h)

  -- For a given list the test can be computed.
  abbrev pub is_distinct : List A → Bool
  is_distinct [] = true
  is_distinct (x ∷ xs) = not (member x xs) && is_distinct xs

  pub Distinct-of : (xs : List A) → is_distinct xs ≡ true → Distinct xs
  Distinct-of [] h = tt
  Distinct-of (x ∷ xs) h =
      ((λ m. let e = member_complete x xs m in ground arith), Distinct-of xs (ground arith))
