-- ===== src/Pull/Laws.antt =====
-- What a pull leaves in the mirror.
use mathlib.Core.Path.{subst}
use mathlib.Core.Option.{some-injective}
use figmog.Prelude.{
  ℕ, ◌≡◌, ◌≢◌, inl, inr, refl, sym, ap, ◌∙◌, Bool, false, ◌||◌, Option, none, some, List, [], ◌∷◌,
  arith,
}
use figmog.Prelude.Tests.{◌==◌, if◌then◌else◌, Bool-cases, Option-cases}
use figmog.Prelude.Lists.{All}
use figmog.Prelude.Members.{In, All-In}
use figmog.Prelude.Text.{Str, str_eq}
use figmog.Json.{Value, Serde}
use figmog.Model.{RecId, Rec}
use figmog.Model.Keys.{id_eq, id_beq_iff}
use figmog.Api.{ok}
use figmog.Flatten.File.{Flattened, flatten_file}
use figmog.Flatten.File.Laws.{KeyMatches, FileRow, flatten_file-FileRow}
use figmog.Store.Stream.{KeyedStream}
use figmog.Store.Sync.{sync, collect_sweepable, meta_rec}
use figmog.Store.Sync.Result.{last_of}
use figmog.Store.Sync.Mirror.{StoreMatches, IsFileKey, is_file_key, sync-mirror}
use figmog.Store.Evict.{evict_stale_cache, read_geometry, upsert_mirror_config}
use figmog.Store.Evict.Laws.{stale_record, stale_ids, evict-stale}
use figmog.Store.Evict.Geometry.{read_geometry-upsert, upsert_mirror_config-StoreMatches}
use figmog.Pull.{PullOutcome, FigmaApi, prepare, write, pull}

FileRow-KeyMatches : (k : RecId) (r : Rec) → FileRow (k, r) → KeyMatches (k, r)
FileRow-KeyMatches (RecId.node k) (Rec.node n) h = h
FileRow-KeyMatches (RecId.component k) (Rec.component n) h = h
FileRow-KeyMatches (RecId.component_set k) (Rec.component_set n) h = h
FileRow-KeyMatches (RecId.style k) (Rec.style n) h = h
FileRow-KeyMatches _ _ h = absurd h

last_of-In :
    (j : RecId) (r : Rec) (recs : List (RecId × Rec)) → last_of j recs ≡ some r → In (j, r) recs
last_of-In j r [] h = cc
last_of-In j r ((id, rec) ∷ recs) h = elim (Option-cases (last_of j recs)) [
  | inr (q, e) ↦ inr (last_of-In j r recs (e ∙ (rw e at h)))
  | inl e ↦ elim (Bool-cases (id == j)) [
    | inl m ↦
        let p : some rec ≡ some r = rw m at (rw e at h) in
        inl (
          ap (λ z. (z, r)) (sym ((id_beq_iff id j).0 m))
          ∙ ap (λ z. (id, z)) (sym (some-injective rec r p)))
    | inr m ↦ let bad : none ≡ some r = rw m at (rw e at h) in cc
  ]
]

-- A file's own records are never stale.
stale-IsFileKey :
    (current : Str) (j : RecId) (o : Option Rec) → IsFileKey j → stale_record current j o ≡ false
stale-IsFileKey current j none f = refl
stale-IsFileKey current (RecId.node k) (some _) f = refl
stale-IsFileKey current (RecId.component k) (some _) f = refl
stale-IsFileKey current (RecId.component_set k) (some _) f = refl
stale-IsFileKey current (RecId.style k) (some _) f = refl
stale-IsFileKey current (RecId.variable k) (some _) f = cc
stale-IsFileKey current (RecId.variable_collection k) (some _) f = cc
stale-IsFileKey current RecId.meta (some _) f = cc
stale-IsFileKey current (RecId.proxy_cache k) (some _) f = cc
stale-IsFileKey current RecId.mirror_config (some _) f = cc
stale-IsFileKey current (RecId.image_blob k) (some _) f = cc

module _ (fold : KeyedStream) where
  open fold use {State, get, upsert, get-upsert}

  -- The mirror is that of a response: its records and no others of a file, its meta row, no cached
  -- row or image of another version, the rest as before, and the geometry flag.
  pub record Mirrors (st st' : State) (flattened : Flattened) (now : ℕ) (geometry : Bool)
      : Type 0 where
    pub file : (j : RecId) → IsFileKey j → get st' j ≡ last_of j flattened.recs
    pub meta : get st' RecId.meta ≡ some (meta_rec flattened now)
    pub others :
        (j : RecId)
        → is_file_key j ≡ false
        → j ≢ RecId.meta
        → j ≢ RecId.mirror_config
        → get st' j ≡ (if stale_record flattened.file.version j (get st j) then none else get st j)
    pub flag : read_geometry fold st' ≡ geometry
    pub matches : StoreMatches fold st'

  module _ (sd : Serde) (same : Rec → Rec → Bool) (st : State)
      (matches : StoreMatches fold st) where
    module _ (flattened : Flattened) (now : ℕ) (from_file : All FileRow flattened.recs) where
      after_sync : State
      after_sync = (sync fold same st (collect_sweepable fold st) flattened now).0

      after_sync-StoreMatches : StoreMatches fold after_sync
      unfolding after_sync
      after_sync-StoreMatches k r h =
          let (at_file, at_meta, elsewhere) =
            sync-mirror fold same st flattened now matches from_file in
          elim (Bool-cases (is_file_key k)) [
            | inl f ↦ FileRow-KeyMatches k r (
                All-In FileRow (k, r) flattened.recs from_file
                  (last_of-In k r flattened.recs (sym (at_file k f) ∙ h)))
            | inr f ↦ elim (Bool-cases (RecId.meta == k)) [
              | inl m ↦
                  let e = (id_beq_iff RecId.meta k).0 m in
                  let q =
                    some-injective (meta_rec flattened now) r
                      (sym at_meta ∙ ap (get after_sync) e ∙ h) in
                  subst (λ z. KeyMatches (z, r)) e (subst (λ z. KeyMatches (RecId.meta, z)) q tt)
              | inr m ↦
                  matches k r (
                    sym (elsewhere k f (λ e. let t = (id_beq_iff RecId.meta k).1 (sym e) in cc))
                    ∙ h)
            ]
          ]

      write-Mirrors :
          (geometry : Bool)
          → Mirrors st
              (write sd fold same st flattened (collect_sweepable fold st) now geometry).0
              flattened
              now
              geometry
      unfolding after_sync write upsert_mirror_config
      write-Mirrors geometry =
          let (at_file, at_meta, elsewhere) =
            sync-mirror fold same st flattened now matches from_file in
          let version = flattened.file.version in
          let st₂ = evict_stale_cache fold after_sync (stale_ids fold after_sync version) in
          let fresh : StoreMatches fold st₂ = (λ k r h.
            after_sync-StoreMatches k r
              (survived k r (sym (evict-stale fold after_sync version k) ∙ h))) in
          record {
            file = λ j f.
                config j (λ e. let t = ap is_file_key e in cc)
                ∙ evict-stale fold after_sync version j
                ∙ rw (stale-IsFileKey version j (get after_sync j) f) (at_file j f);
            meta =
                config RecId.meta (λ e. cc)
                ∙ evict-stale fold after_sync version RecId.meta
                ∙ rw at_meta refl;
            others = λ j f n m.
                config j m ∙ evict-stale fold after_sync version j ∙ rw (elsewhere j f n) refl;
            flag = read_geometry-upsert fold st₂ geometry fresh;
            matches = upsert_mirror_config-StoreMatches fold st₂ geometry fresh;
          }
        where
          survived :
              (k : RecId) (r : Rec)
              → (if stale_record flattened.file.version k (get after_sync k)
                  then none
                  else get after_sync k)
                ≡ some r
              → get after_sync k ≡ some r
          survived k r h =
              elim (Bool-cases (stale_record flattened.file.version k (get after_sync k))) [
                | inl m ↦ let bad : none ≡ some r = rw m at h in cc
                | inr m ↦ rw m at h
              ]

          config :
              (j : RecId)
              → j ≢ RecId.mirror_config
              → get
                  (upsert_mirror_config fold
                    (evict_stale_cache fold after_sync
                      (stale_ids fold after_sync flattened.file.version))
                    geometry)
                  j
                ≡ get
                    (evict_stale_cache fold after_sync
                      (stale_ids fold after_sync flattened.file.version))
                    j
          config j n =
              get-upsert
                (evict_stale_cache fold after_sync
                  (stale_ids fold after_sync flattened.file.version))
                RecId.mirror_config (Rec.mirror_config (record { geometry = geometry })) j
              ∙ ground (arith, id_beq_iff RecId.mirror_config j, n)

    -- In a store whose records stand under their own keys, with a key and a token, a pull requests
    -- the file with the geometry flag of the call or of the mirror. If the file and no variables
    -- are answered, and the response can be flattened, the pull succeeds, reports the file's name
    -- and version, and leaves the mirror of that response, with that flag, its records again under
    -- their own keys.
    pub pull-Mirrors :
        (key token : Str) (override : Bool) (figma : FigmaApi) (now : ℕ) (resp : Value)
        (flattened : Flattened)
        → figma.file (override || read_geometry fold st) ≡ ok resp
        → figma.variables_local ≡ ok none
        → flatten_file sd resp ≡ ok flattened
        → (st' : State) × (out : PullOutcome) × (pull sd fold same st
              (some key)
              (some token)
              override
              figma
              now
            ≡ ok (st', out))
          × Mirrors st st' flattened now (override || read_geometry fold st)
          × (out.name ≡ flattened.file.name)
          × (out.version ≡ flattened.file.version)
    unfolding pull prepare
    pull-Mirrors key token override figma now resp flattened f v e =
        let done =
          write sd fold same st flattened (collect_sweepable fold st) now
            (override || read_geometry fold st) in
        (
          done.0,
          done.1,
          rw (f, v) (rw e refl),
          write-Mirrors flattened now (flatten_file-FileRow sd resp flattened e)
              (override || read_geometry fold st),
          unfold write in refl,
          unfold write in refl,
        )
