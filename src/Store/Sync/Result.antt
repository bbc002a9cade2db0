-- ===== src/Store/Sync/Result.antt =====
-- The state and the churn that `sync` of src/store.rs gives.
use figmog.Prelude.{
  ℕ, ◌+◌, ◌≤◌, ◌≡◌, ◌↔◌, inl, inr, refl, ◌∙◌, Bool, false, not, ◌&&◌, Option, none, some, List, [],
  ◌∷◌, arith,
}
use figmog.Prelude.Tests.{◌==◌, if◌then◌else◌, Bool-cases}
use figmog.Prelude.Lists.{length}
use figmog.Prelude.Members.{member}
use figmog.Model.{RecId, Rec}
use figmog.Model.Keys.{id_eq, id_beq_iff}
use figmog.Flatten.File.{Flattened}
use figmog.Store.Stream.{KeyedStream}
use figmog.Store.Sync.{
  Churn, no_churn, count_upsert, count_removal, ids, meta_rec, upsert_all, sweep, sync,
}

-- The last record that a list has under a key.
abbrev pub last_of : RecId → List (RecId × Rec) → Option Rec
last_of j [] = none
last_of j ((id, rec) ∷ recs) = elim (last_of j recs) [
  | some r ↦ some r
  | none ↦ if id == j then some rec else none
]

abbrev pub or_kept : Option Rec → Option Rec → Option Rec
or_kept none old = old
or_kept (some r) old = some r

pub last_of-member :
    (j : RecId) (recs : List (RecId × Rec))
    → (last_of j recs ≡ none) ↔ (member j (ids recs) ≡ false)
last_of-member j [] = (λ _. refl, λ _. refl)
last_of-member j ((id, rec) ∷ recs) =
    ground (arith, last_of-member j recs, id_beq_iff id j, id_beq_iff j id)

abbrev pub total : Churn → ℕ
total c = c.added + c.changed + c.unchanged

module _ (fold : KeyedStream) (same : Rec → Rec → Bool) where
  open fold use {State, get, upsert, remove, get-upsert, get-remove}

  pub upsert_all-get :
      (st : State) (recs : List (RecId × Rec)) (c : Churn) (j : RecId)
      → get (upsert_all fold same st recs c).0 j ≡ or_kept (last_of j recs) (get st j)
  unfolding upsert_all
  upsert_all-get st [] c j = refl
  upsert_all-get st ((id, rec) ∷ recs) c j = ground (
    arith,
    upsert_all-get (upsert st id rec).1 recs (count_upsert same (upsert st id rec).0 rec c) j,
    get-upsert st id rec j,
  )

  sweep-get :
      (st : State) (prior live : List RecId) (c : Churn) (j : RecId)
      → get (sweep fold same st prior live c).0 j
        ≡ (if member j prior && not (member j live) then none else get st j)
  unfolding sweep
  sweep-get st [] live c j = refl
  sweep-get st (id ∷ prior) live c j = ground (
    arith,
    sweep-get st prior live c j,
    sweep-get (remove st id).1 prior live (count_removal (remove st id).0 c) j,
    get-remove st id j,
    id_beq_iff id j,
    id_beq_iff j id,
  )

  -- After a sync the meta row is that of the response; under any other key stands the last record
  -- that the response has for it, or nothing if the key was to be swept, or else what stood there.
  pub sync-get :
      (st : State) (prior : List RecId) (flattened : Flattened) (now : ℕ) (j : RecId)
      → member RecId.meta prior ≡ false
      → get (sync fold same st prior flattened now).0 j ≡ (
          if RecId.meta == j
          then some (meta_rec flattened now)
          else or_kept (last_of j flattened.recs) (if member j prior then none else get st j))
  unfolding sync
  sync-get st prior flattened now j h =
      let (st', c) = upsert_all fold same st flattened.recs no_churn in
      ground (
        arith,
        upsert_all-get st flattened.recs no_churn j,
        sweep-get (upsert st' RecId.meta (meta_rec flattened now)).1 prior (ids flattened.recs) c j,
        get-upsert st' RecId.meta (meta_rec flattened now) j,
        last_of-member j flattened.recs,
        id_beq_iff RecId.meta j,
      )

  upsert_all-total :
      (st : State) (recs : List (RecId × Rec)) (c : Churn)
      → (total (upsert_all fold same st recs c).1 ≡ total c + length recs)
        × ((upsert_all fold same st recs c).1.removed ≡ c.removed)
  unfolding upsert_all
  upsert_all-total st [] c = (omega arith, refl)
  upsert_all-total st ((id, rec) ∷ recs) c =
      let (old, st') = upsert st id rec in
      let (t, r) = upsert_all-total st' recs (count_upsert same old rec c) in
      (t ∙ counted old, r ∙ kept old)
    where
      counted :
          (old : Option Rec)
          → total (count_upsert same old rec c) + length recs ≡ total c + length ((id, rec) ∷ recs)
      counted none = omega arith
      counted (some o) = elim (Bool-cases (same o rec)) [
        | inl e ↦ rw e (omega arith)
        | inr e ↦ rw e (omega arith)
      ]

      kept : (old : Option Rec) → (count_upsert same old rec c).removed ≡ c.removed
      kept none = refl
      kept (some o) = elim (Bool-cases (same o rec)) [ inl e ↦ rw e | inr e ↦ rw e ]

  sweep-total :
      (st : State) (prior live : List RecId) (c : Churn)
      → (total (sweep fold same st prior live c).1 ≡ total c)
        × ((sweep fold same st prior live c).1.removed ≤ c.removed + length prior)
  unfolding sweep
  sweep-total st [] live c = (refl, omega arith)
  sweep-total st (id ∷ prior) live c = ground (
    arith,
    sweep-total st prior live c,
    sweep-total (remove st id).1 prior live (count_removal (remove st id).0 c),
  )

  -- Each record of the response is counted once, as added, changed or unchanged, and no more
  -- removals are counted than keys that were to be swept.
  pub sync-total :
      (st : State) (prior : List RecId) (flattened : Flattened) (now : ℕ)
      → (total (sync fold same st prior flattened now).1 ≡ length flattened.recs)
        × ((sync fold same st prior flattened now).1.removed ≤ length prior)
  unfolding sync
  sync-total st prior flattened now =
      let (st', c) = upsert_all fold same st flattened.recs no_churn in
      let st'' = (upsert st' RecId.meta (meta_rec flattened now)).1 in
      omega (
        arith,
        upsert_all-total st flattened.recs no_churn,
        sweep-total st'' prior (ids flattened.recs) c,
      )
