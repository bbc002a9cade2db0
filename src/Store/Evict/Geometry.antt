-- ===== src/Store/Evict/Geometry.antt =====
-- The sticky geometry flag.
use mathlib.Core.Option.{some-injective}
use figmog.Prelude.{ℕ, ◌≡◌, inl, inr, refl, sym, ap, ◌∙◌, Bool, Option, some, List, [], ◌∷◌, arith}
use figmog.Prelude.Tests.{◌==◌, Bool-cases}
use figmog.Prelude.Lists.{All}
use figmog.Prelude.Text.{str_eq}
use figmog.Prelude.Members.{In, All-of_In}
use figmog.Model.{RecId, Rec, MirrorConfigRec}
use figmog.Model.Keys.{id_eq, id_beq_iff}
use figmog.Store.Stream.{KeyedStream, filter_map, In-filter_map, filter_map-In}
use figmog.Store.Branches.{mirror_config_only}
use figmog.Store.Sync.Mirror.{StoreMatches}
use figmog.Store.Evict.{read_geometry, upsert_mirror_config, first_geometry}

module _ (fold : KeyedStream) where
  open fold use {State, get, rows, get-upsert, rows-get}

  config-only :
      (id : RecId) (rec : Rec) (row : ℕ × MirrorConfigRec)
      → mirror_config_only (id, rec) ≡ some row
      → rec ≡ Rec.mirror_config row.1
  config-only id (Rec.mirror_config c) row e =
      ap (λ (r : ℕ × MirrorConfigRec). Rec.mirror_config r.1) (some-injective (0, c) row e)
  config-only id _ row e = cc

  first_geometry-All :
      (b : Bool) (xs : List (ℕ × MirrorConfigRec)) (row : ℕ × MirrorConfigRec)
      → All (λ r. r.1.geometry ≡ b) xs
      → In row xs
      → first_geometry xs ≡ b
  first_geometry-All b [] row h m = absurd m
  first_geometry-All b (x ∷ xs) row (p, h) m = p

  pub upsert_mirror_config-StoreMatches :
      (st : State) (b : Bool)
      → StoreMatches fold st
      → StoreMatches fold (upsert_mirror_config fold st b)
  unfolding upsert_mirror_config
  upsert_mirror_config-StoreMatches st b m k r h = elim (Bool-cases (RecId.mirror_config == k)) [
    | inl e ↦
        let same : some (Rec.mirror_config (record { geometry = b })) ≡ some r =
          sym (
            get-upsert st RecId.mirror_config (Rec.mirror_config (record { geometry = b })) k
            ∙ rw e)
          ∙ h in
        let p = (id_beq_iff RecId.mirror_config k).0 e in
        rw (← p) (rw (← some-injective (Rec.mirror_config (record { geometry = b })) r same) tt)
    | inr e ↦ m k r (
        sym
          (get-upsert st RecId.mirror_config (Rec.mirror_config (record { geometry = b })) k ∙ rw e)
        ∙ h)
  ]

  stored_config :
      (st : State) (b : Bool) (id : RecId) (c : MirrorConfigRec)
      → StoreMatches fold st
      → get st RecId.mirror_config ≡ some (Rec.mirror_config (record { geometry = b }))
      → get st id ≡ some (Rec.mirror_config c)
      → c.geometry ≡ b
  stored_config st b RecId.mirror_config c m e h = ground (arith, ap geometry_of (sym e ∙ h))
    where
      geometry_of : Option Rec → Bool
      geometry_of (some (Rec.mirror_config r)) = r.geometry
      geometry_of _ = b
  stored_config st b (RecId.node k) c m e h = absurd (m (RecId.node k) (Rec.mirror_config c) h)
  stored_config st b (RecId.component k) c m e h =
      absurd (m (RecId.component k) (Rec.mirror_config c) h)
  stored_config st b (RecId.component_set k) c m e h =
      absurd (m (RecId.component_set k) (Rec.mirror_config c) h)
  stored_config st b (RecId.style k) c m e h = absurd (m (RecId.style k) (Rec.mirror_config c) h)
  stored_config st b (RecId.variable k) c m e h =
      absurd (m (RecId.variable k) (Rec.mirror_config c) h)
  stored_config st b (RecId.variable_collection k) c m e h =
      absurd (m (RecId.variable_collection k) (Rec.mirror_config c) h)
  stored_config st b RecId.meta c m e h = absurd (m RecId.meta (Rec.mirror_config c) h)
  stored_config st b (RecId.proxy_cache k) c m e h =
      absurd (m (RecId.proxy_cache k) (Rec.mirror_config c) h)
  stored_config st b (RecId.image_blob k) c m e h =
      absurd (m (RecId.image_blob k) (Rec.mirror_config c) h)

  -- In a store whose records stand under their own keys, the flag that is read is the flag that was
  -- written last.
  pub read_geometry-upsert :
      (st : State) (b : Bool)
      → StoreMatches fold st
      → read_geometry fold (upsert_mirror_config fold st b) ≡ b
  unfolding read_geometry upsert_mirror_config
  read_geometry-upsert st b m =
      let row : Rec = Rec.mirror_config (record { geometry = b }) in
      let st' = upsert_mirror_config fold st b in
      let stored : get st' RecId.mirror_config ≡ some row =
        get-upsert st RecId.mirror_config row RecId.mirror_config
        ∙ ground (arith, id_beq_iff RecId.mirror_config RecId.mirror_config) in
      let table = filter_map mirror_config_only (rows st') in
      first_geometry-All b table (0, record { geometry = b })
        (All-of_In (λ r. r.1.geometry ≡ b) table
          (λ r h.
            let (source, i, e) = filter_map-In mirror_config_only r (rows st') h in
            stored_config st' b source.0 r.1 (upsert_mirror_config-StoreMatches st b m) stored
              ((rows-get st' source.0 source.1).0 i ∙ ap some (config-only source.0 source.1 r e))))
        (In-filter_map mirror_config_only (RecId.mirror_config, row) (0, record { geometry = b })
          (rows st') refl ((rows-get st' RecId.mirror_config row).1 stored))
