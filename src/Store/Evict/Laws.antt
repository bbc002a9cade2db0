-- ===== src/Store/Evict/Laws.antt =====
-- What is left after an eviction.
use figmog.Prelude.{
  ◌≡◌, inl, inr, refl, sym, ap, ◌∙◌, Bool, true, false, not, Option, none, some, List, [], ◌∷◌,
  ◌++◌, arith,
}
use figmog.Prelude.Tests.{◌==◌, if◌then◌else◌, Bool-cases}
use figmog.Prelude.Text.{Str, str_eq}
use figmog.Prelude.Members.{
  In, member, member_sound, member_complete, In-append, In-append_left, In-append_right,
}
use figmog.Model.{RecId, Rec, ProxyCacheRec, ImageBlobRec}
use figmog.Model.Keys.{id_eq, id_beq_iff}
use figmog.Store.Stream.{KeyedStream, filter_map, In-filter_map, In-map, filter_map-In, map-In}
use figmog.Store.Branches.{proxy_cache_only, image_only}
use figmog.Prelude.Filtering.{keep_if, In-keep_if, keep_if-In}
use figmog.Store.Evict.{stale_cache_ids, stale_image_ids, evict_stale_cache}

-- A cached row or image that was fetched at another version.
abbrev pub is_stale : Str → RecId → Rec → Bool
is_stale current (RecId.proxy_cache _) (Rec.proxy_cache r) = not (r.file_version == current)
is_stale current (RecId.image_blob _) (Rec.image_blob r) = not (r.file_version == current)
is_stale current _ _ = false

abbrev pub stale_record : Str → RecId → Option Rec → Bool
stale_record current j none = false
stale_record current j (some r) = is_stale current j r

pub proxy_cache_only-inv :
    (id : RecId) (rec : Rec) (k : Str) (r : ProxyCacheRec)
    → proxy_cache_only (id, rec) ≡ some (k, r)
    → (id ≡ RecId.proxy_cache k) × (rec ≡ Rec.proxy_cache r)
proxy_cache_only-inv (RecId.proxy_cache k') (Rec.proxy_cache r') k r e = ground arith
proxy_cache_only-inv _ _ k r e = cc

image_only-inv :
    (id : RecId) (rec : Rec) (k : Str) (r : ImageBlobRec)
    → image_only (id, rec) ≡ some (k, r)
    → (id ≡ RecId.image_blob k) × (rec ≡ Rec.image_blob r)
image_only-inv (RecId.image_blob k') (Rec.image_blob r') k r e = ground arith
image_only-inv _ _ k r e = cc

module _ (fold : KeyedStream) where
  open fold use {State, get, upsert, remove, rows, get-remove, get-upsert, rows-get}

  evict_stale_cache-get :
      (st : State) (stale : List RecId) (j : RecId)
      → get (evict_stale_cache fold st stale) j ≡ (if member j stale then none else get st j)
  unfolding evict_stale_cache
  evict_stale_cache-get st [] j = refl
  evict_stale_cache-get st (id ∷ stale) j = ground (
    arith,
    evict_stale_cache-get (remove st id).1 stale j,
    get-remove st id j,
    id_beq_iff id j,
    id_beq_iff j id,
  )

  -- The sweep set of a pull, before it is sorted.
  abbrev pub stale_ids : State → Str → List RecId
  stale_ids st current = stale_cache_ids fold st current ++ stale_image_ids fold st current

  cached-In :
      (st : State) (current : Str) (j : RecId)
      → In j (stale_cache_ids fold st current)
      → stale_record current j (get st j) ≡ true
  unfolding stale_cache_ids
  cached-In st current j m =
      let (row, i, e) = map-In (λ r. RecId.proxy_cache r.0) j _ m in
      let (i', s) =
        keep_if-In (λ r. not (r.1.file_version == current)) row
          (filter_map proxy_cache_only (rows st)) i in
      let (source, i'', e') = filter_map-In proxy_cache_only row (rows st) i' in
      let (p, q) = proxy_cache_only-inv source.0 source.1 row.0 row.1 e' in
      let found : get st j ≡ some (Rec.proxy_cache row.1) =
        ap (get st) (e ∙ sym p) ∙ (rows-get st source.0 source.1).0 i'' ∙ ap some q in
      rw found (rw e s)

  image-In :
      (st : State) (current : Str) (j : RecId)
      → In j (stale_image_ids fold st current)
      → stale_record current j (get st j) ≡ true
  unfolding stale_image_ids
  image-In st current j m =
      let (row, i, e) = map-In (λ r. RecId.image_blob r.0) j _ m in
      let (i', s) =
        keep_if-In (λ r. not (r.1.file_version == current)) row (filter_map image_only (rows st))
          i in
      let (source, i'', e') = filter_map-In image_only row (rows st) i' in
      let (p, q) = image_only-inv source.0 source.1 row.0 row.1 e' in
      let found : get st j ≡ some (Rec.image_blob row.1) =
        ap (get st) (e ∙ sym p) ∙ (rows-get st source.0 source.1).0 i'' ∙ ap some q in
      rw found (rw e s)

  stale_ids-In :
      (st : State) (current : Str) (j : RecId)
      → In j (stale_ids st current)
      → stale_record current j (get st j) ≡ true
  unfolding stale_cache_ids stale_image_ids
  stale_ids-In st current j h =
      elim (In-append j (stale_cache_ids fold st current) (stale_image_ids fold st current) h) [
        | inl m ↦ cached-In st current j m
        | inr m ↦ image-In st current j m
      ]

  stale-In :
      (st : State) (current : Str) (j : RecId) (r : Rec)
      → get st j ≡ some r
      → is_stale current j r ≡ true
      → In j (stale_ids st current)
  unfolding stale_cache_ids stale_image_ids
  stale-In st current (RecId.proxy_cache k) (Rec.proxy_cache r) e s =
      In-append_left (RecId.proxy_cache k) (stale_cache_ids fold st current)
        (stale_image_ids fold st current)
        (In-map (λ r. RecId.proxy_cache r.0) (k, r)
          (keep_if (λ r. not (r.1.file_version == current)) (filter_map proxy_cache_only (rows st)))
          (In-keep_if (λ r. not (r.1.file_version == current)) (k, r)
            (filter_map proxy_cache_only (rows st)) s
            (In-filter_map proxy_cache_only (RecId.proxy_cache k, Rec.proxy_cache r) (k, r)
              (rows st) refl ((rows-get st (RecId.proxy_cache k) (Rec.proxy_cache r)).1 e))))
  stale-In st current (RecId.image_blob k) (Rec.image_blob r) e s =
      In-append_right (RecId.image_blob k) (stale_cache_ids fold st current)
        (stale_image_ids fold st current)
        (In-map (λ r. RecId.image_blob r.0) (k, r)
          (keep_if (λ r. not (r.1.file_version == current)) (filter_map image_only (rows st)))
          (In-keep_if (λ r. not (r.1.file_version == current)) (k, r)
            (filter_map image_only (rows st)) s
            (In-filter_map image_only (RecId.image_blob k, Rec.image_blob r) (k, r) (rows st) refl
              ((rows-get st (RecId.image_blob k) (Rec.image_blob r)).1 e))))
  stale-In st current _ _ e s = cc

  -- The eviction of a pull removes the cached rows and images that were fetched at another version
  -- than the one just synced, and nothing else.
  pub evict-stale :
      (st : State) (current : Str) (j : RecId)
      → get (evict_stale_cache fold st (stale_ids st current)) j
        ≡ (if stale_record current j (get st j) then none else get st j)
  evict-stale st current j = elim (Bool-cases (member j (stale_ids st current))) [
    | inl m ↦
        evict_stale_cache-get st (stale_ids st current) j
        ∙ rw (m, stale_ids-In st current j (member_sound j (stale_ids st current) m))
    | inr m ↦
        evict_stale_cache-get st (stale_ids st current) j ∙ rw m (sym (kept (get st j) refl m))
  ]
    where
      kept :
          (o : Option Rec)
          → get st j ≡ o
          → member j (stale_ids st current) ≡ false
          → (if stale_record current j o then none else o) ≡ o
      kept none e m = refl
      kept (some r) e m = elim (Bool-cases (is_stale current j r)) [
        | inl s ↦
            let h = member_complete j (stale_ids st current) (stale-In st current j r e s) in cc
        | inr s ↦ rw s
      ]
