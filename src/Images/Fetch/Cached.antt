-- ===== src/Images/Fetch/Cached.antt =====
-- What the cache of src/images.rs gives back, and what a fetch writes.
use mathlib.Core.Option.{some-injective}
use figmog.Prelude.{
  ℕ, ◌≡◌, ◌≢◌, inl, inr, refl, sym, ◌∙◌, Bool, true, false, ◌&&◌, Option, none, some, List, [], ◌∷◌,
  arith,
}
use figmog.Prelude.Tests.{◌==◌, nat_eq, Bool-cases, Option-cases}
use figmog.Prelude.Text.{Str, str_eq, str_beq_iff}
use figmog.Json.{Value, Serde, ◌>>=◌}
use figmog.Model.{RecId, Rec, ImageBlobRec}
use figmog.Model.Keys.{id_eq, id_beq_iff}
use figmog.Api.{Result, ok, err, ApiError}
use figmog.Store.Stream.{KeyedStream}
use figmog.Images.{render, fill, image_key, infer_fill_format, ImageItem, matches_identity}
use figmog.Images.Fetch.{
  Hits, Scanned, ImagesApi, resolve, fetch_each, misses, store_image, render_hit, hit_row,
  image_row, cached_item, render_step, fill_step, fetch_render, fetch_fill, render_answer,
  fill_answer, url_of, render_urls, fill_urls, downloaded_render, downloaded_fill,
}

-- The row is of the version, and of what is asked for: no other row of the same hash is served.
pub matches_identity_sound :
    (rec : ImageBlobRec) (kind subject format : Str) (scale_milli : ℕ)
    → matches_identity rec kind subject format scale_milli ≡ true
    → (rec.kind ≡ kind)
      × (rec.subject ≡ subject)
      × (kind ≡ render → (rec.format ≡ format) × (rec.scale_milli ≡ scale_milli))
unfolding matches_identity
matches_identity_sound rec kind subject format scale_milli h = ground (
  arith,
  str_beq_iff rec.kind kind,
  str_beq_iff rec.subject subject,
  str_beq_iff rec.format format,
  str_beq_iff kind render,
)

and_true : (a b : Bool) → (a && b) ≡ true → (a ≡ true) × (b ≡ true)
and_true true b h = (refl, h)
and_true false b h = cc

module _ (sd : Serde) (fold : KeyedStream) where
  open fold use {State, get, get-upsert}

  -- A record that is no image.
  abbrev pub Foreign : RecId → Type 0
  Foreign id = (key : Str) → id ≢ RecId.image_blob key

  abbrev Keeps : (State → Str → State × ImageItem) → Type 0
  Keeps step = (id : RecId) → Foreign id → (st : State) (s : Str) → get (step st s).0 id ≡ get st id

  store_image-Keeps :
      (id : RecId)
      → Foreign id
      → (st : State) (key kind subject format : Str) (scale_milli : ℕ) (version bytes : Str)
      → get (store_image sd fold st key kind subject format scale_milli version bytes) id
        ≡ get st id
  unfolding store_image
  store_image-Keeps id f st key kind subject format scale_milli version bytes =
      elim (Bool-cases (RecId.image_blob key == id)) [
        | inl e ↦ absurd (f key (sym ((id_beq_iff (RecId.image_blob key) id).0 e)))
        | inr e ↦
            get-upsert st (RecId.image_blob key)
              (Rec.image_blob (record {
                key_hash = key;
                kind = kind;
                subject = subject;
                format = format;
                scale_milli = scale_milli;
                file_version = version;
                bytes = bytes;
              }))
              id
            ∙ rw e refl
      ]

  fetch_each-Keeps :
      (step : State → Str → State × ImageItem) (st : State) (hits : Hits) (subjects : List Str)
      → Keeps step
      → (id : RecId) → Foreign id
      → get (fetch_each sd fold step st hits subjects).0 id ≡ get st id
  unfolding fetch_each
  fetch_each-Keeps step st hits [] k id f = refl
  fetch_each-Keeps step st hits (s ∷ subjects) k id f =
      fetch_each-Keeps step (step st s).0 ((s, (step st s).1) ∷ hits) subjects k id f ∙ k id f st s

  module _ (print : ApiError → Str) (download : Str → Result ApiError Str) (version : Str) where
    render_step-Keeps :
        (answer : Option (Result ApiError Value)) (format : Str) (scale_m : ℕ)
        → Keeps (render_step sd fold print download version answer format scale_m)
    render_step-Keeps none format scale_m id f st s = refl
    render_step-Keeps (some (err e)) format scale_m id f st s = refl
    render_step-Keeps (some (ok resp)) format scale_m id f st s =
        elim (Option-cases (url_of sd fold (render_urls sd fold resp) s)) [
          | inl e ↦ rw (e, fetch_render) refl
          | inr (url, e) ↦ rw (e, fetch_render) (by_answer (download url))
        ]
      where
        by_answer :
            (r : Result ApiError Str)
            → get (downloaded_render sd fold print download version format scale_m st s r).0 id
              ≡ get st id
        by_answer (err e) = refl
        by_answer (ok bytes) =
            store_image-Keeps id f st (image_key render s format scale_m) render s format scale_m
              version bytes

    fill_step-Keeps :
        (answer : Option (Result ApiError Value))
        → Keeps (fill_step sd fold print download version answer)
    fill_step-Keeps none id f st r = refl
    fill_step-Keeps (some (err e)) id f st r = refl
    fill_step-Keeps (some (ok resp)) id f st r =
        elim (Option-cases (url_of sd fold (fill_urls sd fold resp) r)) [
          | inl e ↦ rw (e, fetch_fill) refl
          | inr (url, e) ↦ rw (e, fetch_fill) (by_answer url (download url))
        ]
      where
        by_answer :
            (url : Str) (a : Result ApiError Str)
            → get (downloaded_fill sd fold print download version url st r a).0 id ≡ get st id
        by_answer url (err e) = refl
        by_answer url (ok bytes) =
            store_image-Keeps id f st (image_key fill r [] 1000) fill r (infer_fill_format url) 1000
              version bytes

  -- A fetch writes nothing but images: every other record of the mirror is as it was, whatever the
  -- network answers.
  pub resolve-Foreign :
      (print : ApiError → Str) (download : Str → Result ApiError Str) (st : State)
      (scanned : Scanned) (figma : Option ImagesApi) (node_ids : List Str) (format : Str)
      (scale_m : ℕ) (id : RecId)
      → Foreign id
      → get (resolve sd fold print download st scanned figma node_ids format scale_m).0 id
        ≡ get st id
  unfolding resolve
  resolve-Foreign print download st scanned figma node_ids format scale_m id f =
      let v = scanned.version in
      let misses₁ = misses sd fold scanned.render_hits node_ids in
      let answer = render_answer sd fold print download v figma misses₁ in
      let rendering = render_step sd fold print download v answer format scale_m in
      let answer' = fill_answer sd fold print download v figma in
      let st₁ = (fetch_each sd fold rendering st scanned.render_hits misses₁).0 in
      fetch_each-Keeps (fill_step sd fold print download v answer') st₁ scanned.fill_hits
        (misses sd fold scanned.fill_hits scanned.fill_refs)
        (fill_step-Keeps print download v answer') id f
      ∙ fetch_each-Keeps rendering st scanned.render_hits misses₁
          (render_step-Keeps print download v answer format scale_m) id f

  abbrev pub Served : Option ImageBlobRec → Str → Str → Str → ℕ → ImageItem → Type 0
  Served row version id format scale_milli item =
      (rec : ImageBlobRec) × (row ≡ some rec)
      × (rec.file_version ≡ version)
      × (rec.kind ≡ render)
      × (rec.subject ≡ id)
      × (rec.format ≡ format)
      × (rec.scale_milli ≡ scale_milli)
      × (item ≡ cached_item render id format rec)

  -- A render that is served from the cache is that of a row of the current version, for this node in
  -- this format and at this scale: another row of the same hash, or of an older version, is not served.
  pub render_hit_sound :
      (st : State) (version format : Str) (scale_milli : ℕ) (id : Str) (item : ImageItem)
      → render_hit sd fold st version format scale_milli id ≡ some item
      → Served
          (image_row sd fold st (image_key render id format scale_milli))
          version
          id
          format
          scale_milli
          item
  render_hit_sound st version format scale_milli id item h =
      by_row (image_row sd fold st (image_key render id format scale_milli)) h
    where
      by_row :
          (row : Option ImageBlobRec)
          → (hit_row row version render id format scale_milli >>= λ rec.
              some (cached_item render id format rec))
            ≡ some item
          → Served row version id format scale_milli item
      by_row none e = cc
      by_row (some rec) e =
          elim (Bool-cases
            (rec.file_version == version && matches_identity rec render id format scale_milli)) [
              | inl m ↦
                  let p : some (cached_item render id format rec) ≡ some item = rw m at e in
                  let (v, i) =
                    and_true (rec.file_version == version)
                      (matches_identity rec render id format scale_milli) m in
                  let (k, s, fs) = matches_identity_sound rec render id format scale_milli i in
                  let (f, sc) = fs refl in
                  (
                    rec,
                    refl,
                    (str_beq_iff rec.file_version version).0 v,
                    k,
                    s,
                    f,
                    sc,
                    sym (some-injective (cached_item render id format rec) item p),
                  )
              | inr m ↦ let bad : Path (Option ImageItem) none (some item) = rw m at e in cc
            ]
