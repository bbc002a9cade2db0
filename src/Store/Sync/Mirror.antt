-- ===== src/Store/Sync/Mirror.antt =====
-- `sync` of src/store.rs with the ids of `collect_sweepable`.
use mathlib.Core.Path.{subst}
use figmog.Prelude.{
  ℕ, ◌≡◌, ◌≢◌, inl, inr, refl, sym, ◌∙◌, Bool, true, false, none, some, List, [], ◌∷◌, ◌++◌, arith,
}
use figmog.Prelude.Tests.{◌==◌, if◌then◌else◌, Bool-cases, Option-cases}
use figmog.Prelude.Lists.{All, All-append}
use figmog.Prelude.Members.{
  In, member, member_sound, member_complete, All-In, In-append_left, In-append_right,
}
use figmog.Model.{RecId, Rec}
use figmog.Model.Keys.{id_eq, id_beq_iff}
use figmog.Flatten.File.{Flattened}
use figmog.Flatten.File.Laws.{KeyMatches, FileRow}
use figmog.Store.Stream.{KeyedStream, filter_map, In-filter_map, In-map, All-map}
use figmog.Store.Branches.{node_only, component_only, component_set_only, style_only}
use figmog.Store.Sync.{
  ids, meta_rec, sync, node_ids, component_ids, component_set_ids, style_ids, collect_sweepable,
}
use figmog.Store.Sync.Result.{last_of, last_of-member, or_kept, sync-get}

-- The keys of what a file response holds.
abbrev pub is_file_key : RecId → Bool
is_file_key (RecId.node _) = true
is_file_key (RecId.component _) = true
is_file_key (RecId.component_set _) = true
is_file_key (RecId.style _) = true
is_file_key _ = false

abbrev pub IsFileKey : RecId → Type 0
IsFileKey j = is_file_key j ≡ true

-- What is stored stands under the key that it holds.
abbrev pub StoreMatches : (fold : KeyedStream) → fold.State → Type 0
StoreMatches fold st = (k : RecId) (r : Rec) → fold.get st k ≡ some r → KeyMatches (k, r)

pub FileRow-IsFileKey : (k : RecId) (r : Rec) → FileRow (k, r) → IsFileKey k
FileRow-IsFileKey (RecId.node k) r h = refl
FileRow-IsFileKey (RecId.component k) r h = refl
FileRow-IsFileKey (RecId.component_set k) r h = refl
FileRow-IsFileKey (RecId.style k) r h = refl
FileRow-IsFileKey (RecId.variable k) r h = absurd h
FileRow-IsFileKey (RecId.variable_collection k) r h = absurd h
FileRow-IsFileKey RecId.meta r h = absurd h
FileRow-IsFileKey (RecId.proxy_cache k) r h = absurd h
FileRow-IsFileKey RecId.mirror_config r h = absurd h
FileRow-IsFileKey (RecId.image_blob k) r h = absurd h

pub FileRows-ids : (recs : List (RecId × Rec)) → All FileRow recs → All IsFileKey (ids recs)
FileRows-ids [] h = tt
FileRows-ids ((k, r) ∷ recs) (p, h) = (FileRow-IsFileKey k r p, FileRows-ids recs h)

not_member :
    (j : RecId) (ks : List RecId) → All IsFileKey ks → is_file_key j ≡ false → member j ks ≡ false
not_member j ks h n = elim (Bool-cases (member j ks)) [
  | inl m ↦ let bad = All-In IsFileKey j ks h (member_sound j ks m) in cc
  | inr m ↦ m
]

module _ (fold : KeyedStream) where
  open fold use {State, get, rows, rows-get}

  pub collect_sweepable-IsFileKey : (st : State) → All IsFileKey (collect_sweepable fold st)
  unfolding collect_sweepable
  collect_sweepable-IsFileKey st =
      let n = node_ids fold st in
      let c = component_ids fold st in
      let s = component_set_ids fold st in
      All-append IsFileKey n (c ++ (s ++ style_ids fold st))
        (All-map IsFileKey (λ r. RecId.node r.0) (λ r. refl) (filter_map node_only (rows st)))
        (All-append IsFileKey c (s ++ style_ids fold st)
          (All-map IsFileKey (λ r. RecId.component r.0) (λ r. refl)
            (filter_map component_only (rows st)))
          (All-append IsFileKey s (style_ids fold st)
            (All-map IsFileKey (λ r. RecId.component_set r.0) (λ r. refl)
              (filter_map component_set_only (rows st)))
            (All-map IsFileKey (λ r. RecId.style r.0) (λ r. refl)
              (filter_map style_only (rows st)))))

  -- Every stored record of the file's kinds is listed.
  stored-In :
      (st : State) (k : RecId) (r : Rec)
      → FileRow (k, r)
      → In (k, r) (rows st)
      → In k (collect_sweepable fold st)
  unfolding collect_sweepable
  stored-In st (RecId.node k) (Rec.node n) e h =
      In-append_left (RecId.node k) (node_ids fold st)
        (component_ids fold st ++ (component_set_ids fold st ++ style_ids fold st))
        (subst (λ i. In (RecId.node i) (node_ids fold st)) (sym e)
          (In-map (λ r. RecId.node r.0) (n.id, n) (filter_map node_only (rows st))
            (In-filter_map node_only (RecId.node k, Rec.node n) (n.id, n) (rows st) refl h)))
  stored-In st (RecId.component k) (Rec.component c) e h =
      In-append_right (RecId.component k) (node_ids fold st)
        (component_ids fold st ++ (component_set_ids fold st ++ style_ids fold st))
        (In-append_left (RecId.component k) (component_ids fold st)
          (component_set_ids fold st ++ style_ids fold st)
          (In-map (λ r. RecId.component r.0) (k, c) (filter_map component_only (rows st))
            (In-filter_map component_only (RecId.component k, Rec.component c) (k, c) (rows st) refl
              h)))
  stored-In st (RecId.component_set k) (Rec.component_set c) e h =
      In-append_right (RecId.component_set k) (node_ids fold st)
        (component_ids fold st ++ (component_set_ids fold st ++ style_ids fold st))
        (In-append_right (RecId.component_set k) (component_ids fold st)
          (component_set_ids fold st ++ style_ids fold st)
          (In-append_left (RecId.component_set k) (component_set_ids fold st) (style_ids fold st) (
            In-map (λ r. RecId.component_set r.0) (k, c) (filter_map component_set_only (rows st))
              (In-filter_map component_set_only (RecId.component_set k, Rec.component_set c) (k, c)
                (rows st) refl h))))
  stored-In st (RecId.style k) (Rec.style s) e h =
      In-append_right (RecId.style k) (node_ids fold st)
        (component_ids fold st ++ (component_set_ids fold st ++ style_ids fold st))
        (In-append_right (RecId.style k) (component_ids fold st)
          (component_set_ids fold st ++ style_ids fold st)
          (In-append_right (RecId.style k) (component_set_ids fold st) (style_ids fold st) (
            In-map (λ r. RecId.style r.0) (k, s) (filter_map style_only (rows st))
              (In-filter_map style_only (RecId.style k, Rec.style s) (k, s) (rows st) refl h))))
  stored-In st _ _ e h = absurd e

  KeyMatches-FileRow : (k : RecId) (r : Rec) → IsFileKey k → KeyMatches (k, r) → FileRow (k, r)
  KeyMatches-FileRow (RecId.node k) (Rec.node n) f h = h
  KeyMatches-FileRow (RecId.component k) (Rec.component c) f h = h
  KeyMatches-FileRow (RecId.component_set k) (Rec.component_set c) f h = h
  KeyMatches-FileRow (RecId.style k) (Rec.style s) f h = h
  KeyMatches-FileRow (RecId.node k) _ f h = absurd h
  KeyMatches-FileRow (RecId.component k) _ f h = absurd h
  KeyMatches-FileRow (RecId.component_set k) _ f h = absurd h
  KeyMatches-FileRow (RecId.style k) _ f h = absurd h
  KeyMatches-FileRow _ _ f h = cc

  stored-member :
      (st : State) (k : RecId) (r : Rec)
      → StoreMatches fold st
      → IsFileKey k
      → get st k ≡ some r
      → member k (collect_sweepable fold st) ≡ true
  stored-member st k r m f e =
      member_complete k (collect_sweepable fold st)
        (stored-In st k r (KeyMatches-FileRow k r f (m k r e)) ((rows-get st k r).1 e))

  module _ (same : Rec → Rec → Bool) (st : State) (flattened : Flattened) (now : ℕ)
      (matches : StoreMatches fold st) (from_file : All FileRow flattened.recs) where
    abbrev pub synced : State
    synced = (sync fold same st (collect_sweepable fold st) flattened now).0

    synced-get :
        (j : RecId)
        → get synced j ≡ (
            if RecId.meta == j
            then some (meta_rec flattened now)
            else or_kept
                (last_of j flattened.recs)
                (if member j (collect_sweepable fold st) then none else get st j))
    synced-get j =
        sync-get fold same st (collect_sweepable fold st) flattened now j
          (not_member RecId.meta (collect_sweepable fold st) (collect_sweepable-IsFileKey st) refl)

    -- In a store whose records stand under their own keys, after a sync of the records of a file
    -- with the sweepable keys of the store, the store holds of the nodes, components, component
    -- sets and styles exactly those of the file, each with its last record there; the meta row is
    -- the file's, and every other record is as it was.
    pub sync-mirror :
        ((j : RecId) → IsFileKey j → get synced j ≡ last_of j flattened.recs)
        × (get synced RecId.meta ≡ some (meta_rec flattened now))
        × ((j : RecId) → is_file_key j ≡ false → j ≢ RecId.meta → get synced j ≡ get st j)
    sync-mirror = (
      (λ j f. synced-get j ∙ at_file_key j f),
      synced-get RecId.meta ∙ ground (arith, id_beq_iff RecId.meta RecId.meta),
      λ j f n. synced-get j ∙ elsewhere j f n,
    )
      where
        at_file_key :
            (j : RecId)
            → IsFileKey j
            → (if RecId.meta == j
                then some (meta_rec flattened now)
                else or_kept
                    (last_of j flattened.recs)
                    (if member j (collect_sweepable fold st) then none else get st j))
              ≡ last_of j flattened.recs
        at_file_key j f = elim (Option-cases (get st j)) [
          | inl e ↦ ground (arith, id_beq_iff RecId.meta j)
          | inr (r, e) ↦ ground (arith, id_beq_iff RecId.meta j, stored-member st j r matches f e)
        ]

        elsewhere :
            (j : RecId)
            → is_file_key j ≡ false
            → j ≢ RecId.meta
            → (if RecId.meta == j
                then some (meta_rec flattened now)
                else or_kept
                    (last_of j flattened.recs)
                    (if member j (collect_sweepable fold st) then none else get st j))
              ≡ get st j
        elsewhere j f n = ground (
          arith,
          id_beq_iff RecId.meta j,
          last_of-member j flattened.recs,
          not_member j (ids flattened.recs) (FileRows-ids flattened.recs from_file) f,
          not_member j (collect_sweepable fold st) (collect_sweepable-IsFileKey st) f,
        )
