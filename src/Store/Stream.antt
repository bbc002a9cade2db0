-- ===== src/Store/Stream.antt =====
-- What the program uses of `fold::stream::KeyedStream`: a map from keys to records, written in
-- transactions, and tables that hold the image of its records under a branch function.
use figmog.Prelude.{◌≡◌, ◌↔◌, inl, inr, refl, sym, ap, ◌∙◌, map, Option, none, some, List, [], ◌∷◌}
use figmog.Prelude.Tests.{◌==◌, if◌then◌else◌, Option-cases}
use figmog.Prelude.Lists.{All}
use figmog.Prelude.Members.{In}
use figmog.Model.{RecId, Rec}
use figmog.Model.Keys.{id_eq}

-- `upsert` and `remove` give the old record beside the new state. `rows` is what a table over the
-- stream iterates: each stored record, under its key.
pub record KeyedStream : Type 1 where
  pub State : Type 0
  pub get : State → RecId → Option Rec
  pub upsert : State → RecId → Rec → Option Rec × State
  pub remove : State → RecId → Option Rec × State
  pub rows : State → List (RecId × Rec)
  pub old-upsert : (s : State) (k : RecId) (r : Rec) → (upsert s k r).0 ≡ get s k
  pub get-upsert :
      (s : State) (k : RecId) (r : Rec) (j : RecId)
      → get (upsert s k r).1 j ≡ (if k == j then some r else get s j)
  pub old-remove : (s : State) (k : RecId) → (remove s k).0 ≡ get s k
  pub get-remove :
      (s : State) (k j : RecId) → get (remove s k).1 j ≡ (if k == j then none else get s j)
  pub rows-get : (s : State) (k : RecId) (r : Rec) → In (k, r) (rows s) ↔ (get s k ≡ some r)

-- The rows of a table behind `FilterMap::new(f, Table::new(..))`.
unfoldable pub filter_map : {A B : Type 0} → (A → Option B) → List A → List B
filter_map f [] = []
filter_map f (a ∷ as') = elim (f a) [ some b ↦ b ∷ filter_map f as' | none ↦ filter_map f as' ]

pub In-filter_map :
    {A B : Type 0} (f : A → Option B) (a : A) (b : B) (xs : List A)
    → f a ≡ some b
    → In a xs
    → In b (filter_map f xs)
unfolding filter_map
In-filter_map f a b [] e h = absurd h
In-filter_map f a b (x ∷ xs) e (inl p) = rw (← p, e, filter_map) (inl refl)
In-filter_map f a b (x ∷ xs) e (inr h) = elim (Option-cases (f x)) [
  | inl m ↦ rw (m, filter_map) (In-filter_map f a b xs e h)
  | inr (b', m) ↦ rw (m, filter_map) (inr (In-filter_map f a b xs e h))
]

pub In-map : {A B : Type 0} (f : A → B) (a : A) (xs : List A) → In a xs → In (f a) (map f xs)
In-map f a [] h = absurd h
In-map f a (x ∷ xs) (inl p) = inl (ap f p)
In-map f a (x ∷ xs) (inr h) = inr (In-map f a xs h)

pub All-map :
    {A B : Type 0} (P : B → Type 0) (f : A → B)
    → ((a : A) → P (f a))
    → (xs : List A) → All P (map f xs)
All-map P f h [] = tt
All-map P f h (x ∷ xs) = (h x, All-map P f h xs)

-- Each row of a table comes from a stored record.
pub filter_map-In :
    {A B : Type 0} (f : A → Option B) (b : B) (xs : List A)
    → In b (filter_map f xs)
    → (a : A) × In a xs × (f a ≡ some b)
unfolding filter_map
filter_map-In f b [] h = absurd h
filter_map-In f b (x ∷ xs) h = elim (Option-cases (f x)) [
  | inl m ↦ let (a, i, e) = filter_map-In f b xs (rw (m, filter_map) at h) in (a, inr i, e)
  | inr (b', m) ↦
      let h' : In b (b' ∷ filter_map f xs) = rw (m, filter_map) at h in
      elim h' [
        | inl p ↦ (x, inl refl, m ∙ ap some (sym p))
        | inr k ↦ let (a, i, e) = filter_map-In f b xs k in (a, inr i, e)
      ]
]

pub map-In :
    {A B : Type 0} (f : A → B) (b : B) (xs : List A)
    → In b (map f xs)
    → (a : A) × In a xs × (b ≡ f a)
map-In f b [] h = absurd h
map-In f b (x ∷ xs) (inl p) = (x, inl refl, p)
map-In f b (x ∷ xs) (inr h) = let (a, i, e) = map-In f b xs h in (a, inr i, e)
