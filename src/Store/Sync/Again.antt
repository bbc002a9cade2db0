-- ===== src/Store/Sync/Again.antt =====
-- `sync` of src/store.rs, twice with the same file.
use figmog.Prelude.{
  ℕ, ◌+◌, ◌≡◌, ◌⊎◌, inl, inr, refl, ap, ◌∙◌, Bool, true, false, none, some, List, [], ◌∷◌, arith,
}
use figmog.Prelude.Tests.{◌==◌, Bool-cases}
use figmog.Prelude.Lists.{length, All}
use figmog.Prelude.Members.{In, member, member_sound, All-In, All-of_In, Distinct}
use figmog.Model.{RecId, Rec}
use figmog.Model.Keys.{id_eq, id_beq_iff}
use figmog.Flatten.File.{Flattened}
use figmog.Flatten.File.Laws.{FileRow}
use figmog.Store.Stream.{KeyedStream}
use figmog.Store.Sync.{
  Churn, no_churn, count_upsert, count_removal, ids, meta_rec, upsert_all, sweep, sync,
  collect_sweepable,
}
use figmog.Store.Sync.Result.{last_of, last_of-member, upsert_all-get}
use figmog.Store.Sync.Mirror.{
  StoreMatches, synced, sync-mirror, FileRow-IsFileKey, IsFileKey, collect_sweepable-IsFileKey,
}

abbrev bump_unchanged : Churn → ℕ → Churn
bump_unchanged c n = record c { unchanged = c.unchanged + n }

not_member_of : (k : RecId) (ks : List RecId) → ¬ In k ks → member k ks ≡ false
not_member_of k ks n = elim (Bool-cases (member k ks)) [
  | inl m ↦ absurd (n (member_sound k ks m))
  | inr m ↦ m
]

last_of-Distinct :
    (id : RecId) (rec : Rec) (recs : List (RecId × Rec))
    → Distinct (ids recs)
    → In (id, rec) recs
    → last_of id recs ≡ some rec
last_of-Distinct id rec [] d h = absurd h
last_of-Distinct id rec ((k, r) ∷ recs) (n, d) (inl e) =
    let id_k : id ≡ k = ap (λ row. row.0) e in
    let rec_r : rec ≡ r = ap (λ row. row.1) e in
    let absent : member k (ids recs) ≡ false = not_member_of k (ids recs) n in
    ground (arith, last_of-member k recs, id_beq_iff k id)
last_of-Distinct id rec ((k, r) ∷ recs) (n, d) (inr h) = rw (last_of-Distinct id rec recs d h)

module _ (fold : KeyedStream) (same : Rec → Rec → Bool)
    (same_refl : (r : Rec) → same r r ≡ true) where
  open fold use {State, get, upsert, remove, old-upsert, get-upsert, old-remove, get-remove}

  -- The records are stored as they are.
  abbrev Held : State → List (RecId × Rec) → Type 0
  Held st recs = All (λ row. get st row.0 ≡ some row.1) recs

  Held-upsert :
      (st : State) (id : RecId) (rec : Rec) (recs : List (RecId × Rec))
      → ¬ In id (ids recs)
      → Held st recs
      → Held (upsert st id rec).1 recs
  Held-upsert st id rec [] n h = tt
  Held-upsert st id rec ((k, r) ∷ recs) n (p, h) = (
    elim (Bool-cases (id == k)) [
      | inl e ↦ absurd (n (inl ((id_beq_iff id k).0 e)))
      | inr e ↦ get-upsert st id rec k ∙ rw e p
    ],
    Held-upsert st id rec recs (λ m. n (inr m)) h,
  )

  upsert_all-Held :
      (st : State) (recs : List (RecId × Rec)) (c : Churn)
      → Distinct (ids recs)
      → Held st recs
      → (upsert_all fold same st recs c).1 ≡ bump_unchanged c (length recs)
  unfolding upsert_all
  upsert_all-Held st [] c d h = ground arith
  upsert_all-Held st ((id, rec) ∷ recs) c (n, d) (p, h) =
      upsert_all-Held (upsert st id rec).1 recs (count_upsert same (upsert st id rec).0 rec c) d
        (Held-upsert st id rec recs n h)
      ∙ rw (old-upsert st id rec, p) (rw (same_refl rec) (ground arith))

  -- A key to be swept is live, or holds nothing.
  abbrev Idle : State → List RecId → RecId → Type 0
  Idle st live id = (member id live ≡ true) ⊎ (get st id ≡ none)

  All-Idle :
      (st : State) (id : RecId) (prior live : List RecId)
      → All (Idle st live) prior
      → All (Idle (remove st id).1 live) prior
  All-Idle st id [] live h = tt
  All-Idle st id (j ∷ prior) live (p, h) = (
    elim p [ inl m ↦ inl m | inr e ↦ inr (get-remove st id j ∙ ground arith) ],
    All-Idle st id prior live h,
  )

  sweep-Idle :
      (st : State) (prior live : List RecId) (c : Churn)
      → All (Idle st live) prior
      → (sweep fold same st prior live c).1 ≡ c
  unfolding sweep
  sweep-Idle st [] live c h = refl
  sweep-Idle st (id ∷ prior) live c (p, h) = elim (Bool-cases (member id live)) [
    | inl m ↦ rw (m, sweep) (sweep-Idle st prior live c h)
    | inr m ↦
        let gone : (remove st id).0 ≡ none = old-remove st id ∙ elim p [ inl q ↦ cc | inr q ↦ q ] in
        rw (m, sweep)
          (sweep-Idle (remove st id).1 prior live (count_removal (remove st id).0 c)
              (All-Idle st id prior live h)
            ∙ rw gone)
  ]

  -- The store holds the records of the file, and no others of its kinds.
  abbrev Mirrors : State → List (RecId × Rec) → Type 0
  Mirrors st recs = (j : RecId) → IsFileKey j → get st j ≡ last_of j recs

  Idle-of_Mirrors :
      (st : State) (recs : List (RecId × Rec)) (c : Churn) (row : Rec) (j : RecId)
      → Mirrors st recs
      → IsFileKey j
      → Idle (upsert (upsert_all fold same st recs c).0 RecId.meta row).1 (ids recs) j
  Idle-of_Mirrors st recs c row j mirrors f = elim (Bool-cases (member j (ids recs))) [
    | inl m ↦ inl m
    | inr m ↦ inr (
        ground (
          arith,
          get-upsert (upsert_all fold same st recs c).0 RecId.meta row j,
          upsert_all-get fold same st recs c j,
          last_of-member j recs,
          mirrors j f,
          id_beq_iff RecId.meta j,
        ))
  ]

  sync-Mirrors :
      (st : State) (prior : List RecId) (flattened : Flattened) (now : ℕ)
      → Distinct (ids flattened.recs)
      → Held st flattened.recs
      → Mirrors st flattened.recs
      → All IsFileKey prior
      → (sync fold same st prior flattened now).1
        ≡ record { added = 0; changed = 0; removed = 0; unchanged = length flattened.recs }
  unfolding sync
  sync-Mirrors st prior flattened now d held mirrors keys =
      let (st', c) = upsert_all fold same st flattened.recs no_churn in
      let st'' = (upsert st' RecId.meta (meta_rec flattened now)).1 in
      sweep-Idle st'' prior (ids flattened.recs) c (
        All-of_In (Idle st'' (ids flattened.recs)) prior (λ j m.
          Idle-of_Mirrors st flattened.recs no_churn (meta_rec flattened now) j mirrors
            (All-In IsFileKey j prior keys m)))
      ∙ upsert_all-Held st flattened.recs no_churn d held
      ∙ ground arith

  module _ (st : State) (flattened : Flattened) (now now' : ℕ) (matches : StoreMatches fold st)
      (from_file : All FileRow flattened.recs) (distinct : Distinct (ids flattened.recs)) where
    abbrev after : State
    after = synced fold same st flattened now matches from_file

    -- If the equality of records is reflexive, the store's records stand under their own keys, and
    -- the records of a file have keys of their own, then after a sync of the file a second one
    -- counts every record as unchanged, and nothing as added, changed or removed.
    pub sync_again :
        (sync fold same after (collect_sweepable fold after) flattened now').1
        ≡ record { added = 0; changed = 0; removed = 0; unchanged = length flattened.recs }
    sync_again =
        let mirrors = (sync-mirror fold same st flattened now matches from_file).0 in
        sync-Mirrors after (collect_sweepable fold after) flattened now' distinct
          (All-of_In (λ row. get after row.0 ≡ some row.1) flattened.recs
            (λ row m.
              mirrors row.0
                (FileRow-IsFileKey row.0 row.1 (All-In FileRow row flattened.recs from_file m))
              ∙ last_of-Distinct row.0 row.1 flattened.recs distinct m))
          mirrors (collect_sweepable-IsFileKey fold after)
