-- ===== src/Prelude/Sorting.antt =====
-- `sort` and `dedup` of `Vec`. The sort is stable, so insertion gives the list that Rust's does.
use mathlib.Core.Path.{◌≡◌, refl, ap₂, ◌∙◌}
use mathlib.Core.Logic.{◌⊎◌, ◌↔◌, inl, inr}
use mathlib.Core.Bool.{Bool, true, false, ◌&&◌, ◌||◌}
use mathlib.Core.List.{List, [], ◌∷◌}
use native.Mathlib.Omega.{arith}
use figmog.Prelude.Tests.{ltb, HasEquality, ◌==◌, nat_eq, if◌then◌else◌, Bool-cases}
use figmog.Prelude.Lists.{All}
use figmog.Prelude.Text.{Str, str_eq, str_beq_iff}
use figmog.Prelude.Members.{In, Distinct, All-In}

module _ {A : Type 0} (le : A → A → Bool) where
  abbrev pub insert : A → List A → List A
  insert x [] = x ∷ []
  insert x (y ∷ ys) = if le x y then x ∷ y ∷ ys else y ∷ insert x ys

  abbrev pub sort : List A → List A
  sort [] = []
  sort (x ∷ xs) = insert x (sort xs)

  -- Each value is at most every one behind it.
  abbrev pub Sorted : List A → Type 0
  Sorted [] = Unit
  Sorted (x ∷ xs) = All (λ y. le x y ≡ true) xs × Sorted xs

  In-insert : (a x : A) (ys : List A) → In a (insert x ys) → (a ≡ x) ⊎ In a ys
  In-insert a x [] h = h
  In-insert a x (y ∷ ys) h = elim (Bool-cases (le x y)) [
    | inl e ↦ let h' : In a (x ∷ y ∷ ys) = rw e at h in h'
    | inr e ↦
        let h' : In a (y ∷ insert x ys) = rw e at h in
        elim h' [
          | inl p ↦ inr (inl p)
          | inr k ↦ elim (In-insert a x ys k) [ inl p ↦ inl p | inr q ↦ inr (inr q) ]
        ]
  ]

  insert-In : (a x : A) (ys : List A) → (a ≡ x) ⊎ In a ys → In a (insert x ys)
  insert-In a x [] h = h
  insert-In a x (y ∷ ys) h = elim (Bool-cases (le x y)) [
    | inl e ↦ rw e h
    | inr e ↦ rw e (elim h [
      | inl p ↦ inr (insert-In a x ys (inl p))
      | inr (inl p) ↦ inl p
      | inr (inr k) ↦ inr (insert-In a x ys (inr k))
    ])
  ]

  pub In-sort : (a : A) (xs : List A) → In a (sort xs) → In a xs
  In-sort a [] h = h
  In-sort a (x ∷ xs) h = elim (In-insert a x (sort xs) h) [
    | inl p ↦ inl p
    | inr k ↦ inr (In-sort a xs k)
  ]

  pub sort-In : (a : A) (xs : List A) → In a xs → In a (sort xs)
  sort-In a [] h = h
  sort-In a (x ∷ xs) (inl p) = insert-In a x (sort xs) (inl p)
  sort-In a (x ∷ xs) (inr h) = insert-In a x (sort xs) (inr (sort-In a xs h))

-- What the sorts of the program rely on.
pub record IsOrder {A : Type 0} (le : A → A → Bool) : Type 0 where
  pub total : (a b : A) → le a b ≡ false → le b a ≡ true
  pub trans : (a b c : A) → le a b ≡ true → le b c ≡ true → le a c ≡ true
  pub antisym : (a b : A) → le a b ≡ true → le b a ≡ true → a ≡ b

module _ {A : Type 0} {le : A → A → Bool} (o : IsOrder le) where
  All-trans :
      (x y : A) (ys : List A)
      → le x y ≡ true
      → All (λ z. le y z ≡ true) ys
      → All (λ z. le x z ≡ true) ys
  All-trans x y [] e h = tt
  All-trans x y (z ∷ ys) e (p, h) = (o.trans x y z e p, All-trans x y ys e h)

  All-insert :
      (y x : A) (ys : List A)
      → le y x ≡ true
      → All (λ z. le y z ≡ true) ys
      → All (λ z. le y z ≡ true) (insert le x ys)
  All-insert y x [] e h = (e, tt)
  All-insert y x (z ∷ ys) e (p, h) = elim (Bool-cases (le x z)) [
    | inl q ↦ rw q (e, (p, h))
    | inr q ↦ rw q (p, All-insert y x ys e h)
  ]

  insert-Sorted : (x : A) (ys : List A) → Sorted le ys → Sorted le (insert le x ys)
  insert-Sorted x [] h = (tt, tt)
  insert-Sorted x (y ∷ ys) (p, h) = elim (Bool-cases (le x y)) [
    | inl e ↦ rw e ((e, All-trans x y ys e p), (p, h))
    | inr e ↦ rw e (All-insert y x ys (o.total x y e) p, insert-Sorted x ys h)
  ]

  pub sort-Sorted : (xs : List A) → Sorted le (sort le xs)
  sort-Sorted [] = tt
  sort-Sorted (x ∷ xs) = insert-Sorted x (sort le xs) (sort-Sorted xs)

-- `dedup` removes a value that stands directly behind an equal one.
module _ {A : Type 0} ⦃e : HasEquality A⦄ where
  abbrev drop_repeat : A → List A → List A
  drop_repeat x [] = x ∷ []
  drop_repeat x (y ∷ ys) = if x == y then y ∷ ys else x ∷ y ∷ ys

  abbrev pub dedup : List A → List A
  dedup [] = []
  dedup (x ∷ xs) = drop_repeat x (dedup xs)

  In-drop_repeat : (a x : A) (ys : List A) → In a (drop_repeat x ys) → (a ≡ x) ⊎ In a ys
  In-drop_repeat a x [] h = h
  In-drop_repeat a x (y ∷ ys) h = elim (Bool-cases (x == y)) [
    | inl q ↦ let h' : In a (y ∷ ys) = rw q at h in inr h'
    | inr q ↦ let h' : In a (x ∷ y ∷ ys) = rw q at h in h'
  ]

  drop_repeat-In : (a x : A) (ys : List A) → (a ≡ x) ⊎ In a ys → In a (drop_repeat x ys)
  drop_repeat-In a x [] h = h
  drop_repeat-In a x (y ∷ ys) h = elim (Bool-cases (x == y)) [
    | inl q ↦ rw q (elim h [ inl p ↦ inl (p ∙ (e.equal_iff x y).0 q) | inr k ↦ k ])
    | inr q ↦ rw q h
  ]

  pub In-dedup : (a : A) (xs : List A) → In a (dedup xs) → In a xs
  In-dedup a [] h = h
  In-dedup a (x ∷ xs) h = elim (In-drop_repeat a x (dedup xs) h) [
    | inl p ↦ inl p
    | inr k ↦ inr (In-dedup a xs k)
  ]

  pub dedup-In : (a : A) (xs : List A) → In a xs → In a (dedup xs)
  dedup-In a [] h = h
  dedup-In a (x ∷ xs) (inl p) = drop_repeat-In a x (dedup xs) (inl p)
  dedup-In a (x ∷ xs) (inr h) = drop_repeat-In a x (dedup xs) (inr (dedup-In a xs h))

  module _ {le : A → A → Bool} (o : IsOrder le) where
    All-dedup : (P : A → Type 0) (xs : List A) → All P xs → All P (dedup xs)
    All-dedup P [] h = tt
    All-dedup P (x ∷ xs) (p, h) = All-drop_repeat (dedup xs) p (All-dedup P xs h)
      where
        All-drop_repeat : (ys : List A) → P x → All P ys → All P (drop_repeat x ys)
        All-drop_repeat [] q k = (q, tt)
        All-drop_repeat (y ∷ ys) q k = elim (Bool-cases (x == y)) [
          | inl m ↦ rw m k
          | inr m ↦ rw m (q, k)
        ]

    -- `x` is below all of a sorted list, and is not its first value: it is not in it.
    below-not_In :
        (x y : A) (ys : List A)
        → (x == y) ≡ false
        → All (λ z. le x z ≡ true) (y ∷ ys)
        → Sorted le (y ∷ ys)
        → ¬ In x (y ∷ ys)
    below-not_In x y ys n (p, h) (k, s) (inl q) = cc ((e.equal_iff x y).1 q)
    below-not_In x y ys n (p, h) (k, s) (inr q) =
        cc ((e.equal_iff x y).1 (o.antisym x y p (All-In (λ z. le y z ≡ true) x ys k q)))

    drop_repeat-Distinct :
        (x : A) (ys : List A)
        → All (λ z. le x z ≡ true) ys
        → Sorted le ys
        → Distinct ys
        → Sorted le (drop_repeat x ys) × Distinct (drop_repeat x ys)
    drop_repeat-Distinct x [] h s d = ((tt, tt), ((λ k. k), tt))
    drop_repeat-Distinct x (y ∷ ys) h s d = elim (Bool-cases (x == y)) [
      | inl m ↦ rw m (s, d)
      | inr m ↦ rw m ((h, s), (below-not_In x y ys m h s, d))
    ]

    -- A sorted list without its repeats is sorted, and holds no value twice.
    pub dedup-Sorted : (xs : List A) → Sorted le xs → Sorted le (dedup xs) × Distinct (dedup xs)
    dedup-Sorted [] s = (tt, tt)
    dedup-Sorted (x ∷ xs) (h, s) =
        let (s', d') = dedup-Sorted xs s in
        drop_repeat-Distinct x (dedup xs) (All-dedup (λ z. le x z ≡ true) xs h) s' d'

-- The order of texts: byte by byte, a text before what it begins.
abbrev pub str_leb : Str → Str → Bool
str_leb [] t = true
str_leb (c ∷ s) [] = false
str_leb (c ∷ s) (d ∷ t) = ltb c d || (c == d && str_leb s t)

pub str_total : (a b : Str) → str_leb a b ≡ false → str_leb b a ≡ true
str_total [] b h = cc
str_total (c ∷ s) [] h = refl
str_total (c ∷ s) (d ∷ t) h = ground (arith, str_total s t)

pub str_trans : (a b c : Str) → str_leb a b ≡ true → str_leb b c ≡ true → str_leb a c ≡ true
str_trans [] b c h k = refl
str_trans (x ∷ a) [] c h k = cc
str_trans (x ∷ a) (y ∷ b) [] h k = cc
str_trans (x ∷ a) (y ∷ b) (z ∷ c) h k = ground (arith, str_trans a b c)

pub str_antisym : (a b : Str) → str_leb a b ≡ true → str_leb b a ≡ true → a ≡ b
str_antisym [] [] h k = refl
str_antisym [] (d ∷ t) h k = cc
str_antisym (c ∷ s) [] h k = cc
str_antisym (c ∷ s) (d ∷ t) h k =
    ap₂ ◌∷◌ (ground arith) (str_antisym s t (ground arith) (ground arith))

pub str_leb-IsOrder : IsOrder str_leb
str_leb-IsOrder = record { total = str_total; trans = str_trans; antisym = str_antisym }

-- The order of pairs of texts.
abbrev pub pair_leb : Str × Str → Str × Str → Bool
pair_leb (a, b) (c, d) = if a == c then str_leb b d else str_leb a c

abbrev pub pair_beq : Str × Str → Str × Str → Bool
pair_beq (a, b) (c, d) = a == c && b == d

pub pair_beq_iff : (p q : Str × Str) → (pair_beq p q ≡ true) ↔ (p ≡ q)
pair_beq_iff (a, b) (c, d) = ground (arith, str_beq_iff a c, str_beq_iff b d)

instance abbrev pub pair_eq : HasEquality (Str × Str)
pair_eq = record { equal = pair_beq; equal_iff = pair_beq_iff }

pub pair_leb-IsOrder : IsOrder pair_leb
pair_leb-IsOrder = record {
  total = λ (a, b) (c, d) h.
      ground (arith, str_beq_iff a c, str_beq_iff c a, str_total b d, str_total a c);
  trans = λ (a, b) (c, d) (e, f) h k. ground (
    arith,
    str_beq_iff a c,
    str_beq_iff c e,
    str_beq_iff a e,
    str_trans b d f,
    str_trans a c e,
    str_antisym a c,
    str_antisym c e,
  );
  antisym = λ (a, b) (c, d) h k.
      ground (arith, str_beq_iff a c, str_beq_iff c a, str_antisym b d, str_antisym a c);
}
