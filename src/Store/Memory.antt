-- ===== src/Store/Memory.antt =====
-- A keyed stream in memory: a log of writes, read from its end. It shows that the laws that are asked
-- of `fold` can be met, and runs the examples.
use figmog.Prelude.{
  ◌≡◌, inl, inr, refl, sym, ap, ◌∙◌, false, Option, none, some, List, [], ◌∷◌, arith,
}
use figmog.Prelude.Tests.{◌==◌, if◌then◌else◌, Bool-cases}
use figmog.Prelude.Members.{In}
use figmog.Model.{RecId, Rec}
use figmog.Model.Keys.{id_eq, id_beq_iff}
use figmog.Store.Stream.{KeyedStream}

abbrev pub Log : Type 0
Log = List (RecId × Rec)

abbrev pub lookup : Log → RecId → Option Rec
lookup [] k = none
lookup ((j, r) ∷ s) k = if j == k then some r else lookup s k

abbrev without : RecId → Log → Log
without k [] = []
without k ((j, r) ∷ s) = let rest = without k s in if k == j then rest else (j, r) ∷ rest

abbrev distinct_rows : Log → Log
distinct_rows [] = []
distinct_rows ((k, r) ∷ s) = (k, r) ∷ without k (distinct_rows s)

pub lookup-without :
    (s : Log) (k j : RecId) → lookup (without k s) j ≡ (if k == j then none else lookup s j)
lookup-without [] k j = ground arith
lookup-without ((i, r) ∷ s) k j =
    ground (arith, lookup-without s k j, id_beq_iff k i, id_beq_iff i j, id_beq_iff k j)

In-without :
    (k j : RecId) (r : Rec) (s : Log) → In (j, r) (without k s) → ((k == j) ≡ false) × In (j, r) s
In-without k j r [] h = absurd h
In-without k j r ((i, q) ∷ s) h = elim (Bool-cases (k == i)) [
  | inl e ↦
      let h' : In (j, r) (without k s) = rw e at h in
      let (n, m) = In-without k j r s h' in (n, inr m)
  | inr e ↦
      let h' : In (j, r) ((i, q) ∷ without k s) = rw e at h in
      elim h' [
        | inl p ↦ (ap (λ row. k == row.0) p ∙ e, inl p)
        | inr m ↦ let (n, m') = In-without k j r s m in (n, inr m')
      ]
]

without-In :
    (k j : RecId) (r : Rec) (s : Log) → (k == j) ≡ false → In (j, r) s → In (j, r) (without k s)
without-In k j r [] n h = absurd h
without-In k j r ((i, q) ∷ s) n (inl p) = rw (sym (ap (λ row. k == row.0) p) ∙ n) (inl p)
without-In k j r ((i, q) ∷ s) n (inr h) = elim (Bool-cases (k == i)) [
  | inl e ↦ rw e (without-In k j r s n h)
  | inr e ↦ rw e (inr (without-In k j r s n h))
]

pub rows_sound : (s : Log) (k : RecId) (r : Rec) → In (k, r) (distinct_rows s) → lookup s k ≡ some r
rows_sound [] k r h = absurd h
rows_sound ((j, q) ∷ s) k r (inl p) =
    rw ((id_beq_iff j k).1 (sym (ap (λ row. row.0) p))) (ap (λ row. some row.1) (sym p))
rows_sound ((j, q) ∷ s) k r (inr h) =
    let (n, m) = In-without j k r (distinct_rows s) h in rw n (rows_sound s k r m)

pub rows_complete :
    (s : Log) (k : RecId) (r : Rec) → lookup s k ≡ some r → In (k, r) (distinct_rows s)
rows_complete [] k r h = cc
rows_complete ((j, q) ∷ s) k r h = elim (Bool-cases (j == k)) [
  | inl e ↦
      let p : some q ≡ some r = rw e at h in
      let p' : q ≡ r = cc in inl (rw ((id_beq_iff j k).0 e) (ap (λ x. (k, x)) (sym p')))
  | inr e ↦ inr (without-In j k r (distinct_rows s) e (rows_complete s k r (rw e at h)))
]

abbrev pub memory : KeyedStream
memory = record {
  State = Log;
  get = lookup;
  upsert = λ s k r. (lookup s k, (k, r) ∷ s);
  remove = λ s k. (lookup s k, without k s);
  rows = distinct_rows;
  old-upsert = λ s k r. refl;
  get-upsert = λ s k r j. refl;
  old-remove = λ s k. refl;
  get-remove = λ s k j. lookup-without s k j;
  rows-get = λ s k r. (rows_sound s k r, rows_complete s k r);
}
