-- ===== src/Prelude/Filtering.antt =====
-- The members of a list that pass a test.
use mathlib.Core.Path.{◌≡◌, ap, ◌∙◌}
use mathlib.Core.Logic.{inl, inr}
use mathlib.Core.Bool.{Bool, true}
use mathlib.Core.List.{List, [], ◌∷◌}
use mathlib.Core.Path.{refl}
use figmog.Prelude.Tests.{if◌then◌else◌, Bool-cases}
use figmog.Prelude.Members.{In}

abbrev pub keep_if : {A : Type 0} → (A → Bool) → List A → List A
keep_if p [] = []
keep_if p (a ∷ xs) = let rest = keep_if p xs in if p a then a ∷ rest else rest

pub In-keep_if :
    {A : Type 0} (p : A → Bool) (a : A) (xs : List A) → p a ≡ true → In a xs → In a (keep_if p xs)
In-keep_if p a [] e h = absurd h
In-keep_if p a (x ∷ xs) e (inl q) = rw (← q, e) (inl refl)
In-keep_if p a (x ∷ xs) e (inr h) = elim (Bool-cases (p x)) [
  | inl m ↦ rw m (inr (In-keep_if p a xs e h))
  | inr m ↦ rw m (In-keep_if p a xs e h)
]

pub keep_if-In :
    {A : Type 0} (p : A → Bool) (a : A) (xs : List A) → In a (keep_if p xs) → In a xs × (p a ≡ true)
keep_if-In p a [] h = absurd h
keep_if-In p a (x ∷ xs) h = elim (Bool-cases (p x)) [
  | inl m ↦
      let h' : In a (x ∷ keep_if p xs) = rw m at h in
      elim h' [
        | inl q ↦ (inl q, ap p q ∙ m)
        | inr k ↦ let (i, e) = keep_if-In p a xs k in (inr i, e)
      ]
  | inr m ↦
      let h' : In a (keep_if p xs) = rw m at h in let (i, e) = keep_if-In p a xs h' in (inr i, e)
]
