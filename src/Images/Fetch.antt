-- ===== src/Images/Fetch.antt =====
-- `scan` and `resolve` of src/images.rs: what the cache has, and what is fetched for the rest.
pub mod Laws
pub mod Cached
use figmog.Prelude.{ℕ, Bool, true, false, not, ◌&&◌, Option, none, some, List, [], ◌∷◌, ◌++◌}
use figmog.Prelude.Tests.{◌==◌, if◌then◌else◌}
use figmog.Prelude.Text.{Str, lit, str_eq}
use figmog.Prelude.Sorting.{sort, dedup, str_leb}
use figmog.Prelude.Filtering.{keep_if}
use figmog.Json.{Value, Serde, get, as_str, as_object, ◌>>=◌}
use figmog.Model.{RecId, Rec, NodeRec, FileMeta, ImageBlobRec}
use figmog.Api.{Result, ok, err, ApiError}
use figmog.Cache.{table_get}
use figmog.Store.Stream.{KeyedStream, filter_map}
use figmog.Store.Branches.{node_only, meta_only, image_only}
use figmog.Images.{
  render, fill, image_key, ImageItem, matches_identity, no_token_item, error_item,
  extract_image_refs, infer_fill_format,
}

-- A `BTreeMap` of items: a later entry of a key stands before the earlier ones. It is never iterated.
abbrev pub Hits : Type 0
Hits = List (Str × ImageItem)

-- `map.contains_key(k)`
abbrev pub has : Str → Hits → Bool
has k hits = elim (table_get k hits) [ none ↦ false | some _ ↦ true ]

-- `map.remove(k)`, beside `map.get(k)`
abbrev pub without : Str → Hits → Hits
without k hits = keep_if (λ h. not (h.0 == k)) hits

-- `fill_refs` is the set in its order.
pub record Scanned : Type 0 where
  pub version : Str
  pub render_hits : Hits
  pub fill_refs : List Str
  pub fill_hits : Hits

abbrev pub version_of : List (ℕ × FileMeta) → Str
version_of [] = []
version_of ((_, m) ∷ _) = m.version

-- The row under a key, where it is of the version and of what is asked for.
abbrev pub hit_row : Option ImageBlobRec → Str → Str → Str → Str → ℕ → Option ImageBlobRec
hit_row none version kind subject format scale_milli = none
hit_row (some rec) version kind subject format scale_milli =
    if rec.file_version == version && matches_identity rec kind subject format scale_milli
    then some rec
    else none

abbrev pub cached_item : Str → Str → Str → ImageBlobRec → ImageItem
cached_item kind subject format rec = record {
  subject = subject;
  kind = kind;
  format = format;
  bytes = rec.bytes;
  cached = true;
  error = none;
}

abbrev pub fresh_item : Str → Str → Str → Str → ImageItem
fresh_item kind subject format bytes = record {
  subject = subject;
  kind = kind;
  format = format;
  bytes = bytes;
  cached = false;
  error = none;
}

-- The loops over the ids and the refs: each hit goes into the map under its subject.
unfoldable pub collect : (Str → Option ImageItem) → Hits → List Str → Hits
collect hit hits [] = hits
collect hit hits (s ∷ subjects) = elim (hit s) [
  | none ↦ collect hit hits subjects
  | some item ↦ collect hit ((s, item) ∷ hits) subjects
]

-- The network of one request: `images_render` for the misses, `file_image_fills`, and the download
-- of a URL.
pub record ImagesApi : Type 0 where
  pub images_render : List Str → Result ApiError Value
  pub file_image_fills : Result ApiError Value

pub data Request : Type 0 where
  images_render : List Str → Request
  file_image_fills : Request

module _ (sd : Serde) (fold : KeyedStream) where
  open fold use {State, upsert, rows}

  abbrev pub image_row : State → Str → Option ImageBlobRec
  image_row st key = table_get key (filter_map image_only (rows st))

  abbrev pub render_hit : State → Str → Str → ℕ → Str → Option ImageItem
  render_hit st version format scale_milli id =
      hit_row (image_row st (image_key render id format scale_milli)) version render id format
        scale_milli
      >>= λ rec. some (cached_item render id format rec)

  -- The format is the one found at the download.
  abbrev pub fill_hit : State → Str → Str → Option ImageItem
  fill_hit st version r =
      hit_row (image_row st (image_key fill r [] 1000)) version fill r [] 1000 >>= λ rec.
      some (cached_item fill r rec.format rec)

  abbrev pub refs_of : Option NodeRec → List Str
  refs_of none = []
  refs_of (some n) = elim (sd.from_str n.raw) [ none ↦ [] | some raw ↦ extract_image_refs raw ]

  unfoldable pub node_refs : State → List Str → List Str
  unfolding extract_image_refs
  node_refs st [] = []
  node_refs st (id ∷ node_ids) =
      refs_of (table_get id (filter_map node_only (rows st))) ++ node_refs st node_ids

  unfoldable pub scan : State → List Str → Str → ℕ → Scanned
  unfolding collect node_refs matches_identity image_key table_get filter_map
  scan st node_ids format scale_milli =
      let version = version_of (filter_map meta_only (rows st)) in
      let fill_refs = dedup (sort str_leb (node_refs st node_ids)) in
      record {
        version = version;
        render_hits = collect (render_hit st version format scale_milli) [] node_ids;
        fill_refs = fill_refs;
        fill_hits = collect (fill_hit st version) [] fill_refs;
      }

  unfoldable pub store_image : State → Str → Str → Str → Str → ℕ → Str → Str → State
  store_image st key kind subject format scale_milli file_version bytes =
      (upsert st (RecId.image_blob key) (
        Rec.image_blob (record {
          key_hash = key;
          kind = kind;
          subject = subject;
          format = format;
          scale_milli = scale_milli;
          file_version = file_version;
          bytes = bytes;
        }))).1

  -- `url_map.and_then(|m| m.get(id)).and_then(Value::as_str)`
  abbrev pub url_of : Option (List (Str × Value)) → Str → Option Str
  url_of none s = none
  url_of (some urls) s = table_get s urls >>= as_str

  abbrev pub render_urls : Value → Option (List (Str × Value))
  render_urls resp = get resp (lit "images") >>= as_object

  abbrev pub fill_urls : Value → Option (List (Str × Value))
  fill_urls resp = elim (get resp (lit "meta") >>= (λ m. get m (lit "images")) >>= as_object) [
    | some urls ↦ some urls
    | none ↦ get resp (lit "images") >>= as_object
  ]

  abbrev pub misses : Hits → List Str → List Str
  misses hits subjects = keep_if (λ s. not (has s hits)) subjects

  -- The loop over the misses, each with a step that may store what it fetched.
  unfoldable pub fetch_each :
      (State → Str → State × ImageItem) → State → Hits → List Str → State × Hits
  fetch_each fetch st hits [] = (st, hits)
  fetch_each fetch st hits (s ∷ subjects) =
      let (st', item) = fetch st s in fetch_each fetch st' ((s, item) ∷ hits) subjects

  -- The loop over the subjects in the order of the answer.
  unfoldable pub take_items : Hits → List Str → List ImageItem
  take_items hits [] = []
  take_items hits (s ∷ subjects) = elim (table_get s hits) [
    | none ↦ take_items hits subjects
    | some item ↦ item ∷ take_items (without s hits) subjects
  ]

  -- `print` is the `Display` of an error of the API, `scale_m` the scale in thousandths.
  module _ (print : ApiError → Str) (download : Str → Result ApiError Str) (version : Str) where
    abbrev pub downloaded_render : Str → ℕ → State → Str → Result ApiError Str → State × ImageItem
    downloaded_render format scale_m st id (err e) = (st, error_item render id format (print e))
    downloaded_render format scale_m st id (ok bytes) = (
      store_image st (image_key render id format scale_m) render id format scale_m version bytes,
      fresh_item render id format bytes,
    )

    abbrev pub fetch_render :
        Option (List (Str × Value)) → Str → ℕ → State → Str → State × ImageItem
    fetch_render urls format scale_m st id = elim (url_of urls id) [
      | none ↦ (st, error_item render id format (lit "no render available for this node"))
      | some url ↦ downloaded_render format scale_m st id (download url)
    ]

    abbrev pub downloaded_fill : Str → State → Str → Result ApiError Str → State × ImageItem
    downloaded_fill url st r (err e) = (st, error_item fill r [] (print e))
    downloaded_fill url st r (ok bytes) =
        let fmt = infer_fill_format url in
        (
          store_image st (image_key fill r [] 1000) fill r fmt 1000 version bytes,
          fresh_item fill r fmt bytes,
        )

    abbrev pub fetch_fill : Option (List (Str × Value)) → State → Str → State × ImageItem
    fetch_fill urls st r = elim (url_of urls r) [
      | none ↦ (st, error_item fill r [] (lit "no fill image available for this imageRef"))
      | some url ↦ downloaded_fill url st r (download url)
    ]

    -- The `match` on the token and on the answer to the one request for the misses.
    abbrev pub render_step :
        Option (Result ApiError Value) → Str → ℕ → State → Str → State × ImageItem
    render_step none format scale_m st id = (st, no_token_item render id format)
    render_step (some (err e)) format scale_m st id = (st, error_item render id format (print e))
    render_step (some (ok resp)) format scale_m st id =
        fetch_render (render_urls resp) format scale_m st id

    abbrev pub fill_step : Option (Result ApiError Value) → State → Str → State × ImageItem
    fill_step none st r = (st, no_token_item fill r [])
    fill_step (some (err e)) st r = (st, error_item fill r [] (print e))
    fill_step (some (ok resp)) st r = fetch_fill (fill_urls resp) st r

    abbrev pub render_answer : Option ImagesApi → List Str → Option (Result ApiError Value)
    render_answer none ids = none
    render_answer (some figma) ids = some (figma.images_render ids)

    abbrev pub fill_answer : Option ImagesApi → Option (Result ApiError Value)
    fill_answer none = none
    fill_answer (some figma) = some figma.file_image_fills

    -- The requests that are sent to the API, beside what is answered.
    abbrev pub requests : Option ImagesApi → List Str → List Str → List Request
    requests none ids refs = []
    requests (some figma) ids refs = render_request ids ++ fill_request refs
      where
        render_request : List Str → List Request
        render_request [] = []
        render_request (id ∷ ids) = images_render (id ∷ ids) ∷ []

        fill_request : List Str → List Request
        fill_request [] = []
        fill_request (_ ∷ _) = file_image_fills ∷ []

  unfoldable pub resolve :
      (ApiError → Str)
      → (Str → Result ApiError Str)
      → State
      → Scanned
      → Option ImagesApi
      → List Str
      → Str
      → ℕ
      → State × List ImageItem × List Request
  unfolding fetch_each take_items store_image image_key infer_fill_format
  resolve print download st scanned figma node_ids format scale_m =
      let render_misses = misses scanned.render_hits node_ids in
      let (st₁, render_hits) =
        fetch_each
          (render_step print download scanned.version
            (render_answer print download scanned.version figma render_misses) format scale_m)
          st scanned.render_hits render_misses in
      let fill_misses = misses scanned.fill_hits scanned.fill_refs in
      let (st₂, fill_hits) =
        fetch_each
          (fill_step print download scanned.version
            (fill_answer print download scanned.version figma))
          st₁ scanned.fill_hits fill_misses in
      (
        st₂,
        take_items render_hits node_ids ++ take_items fill_hits scanned.fill_refs,
        requests print download scanned.version figma render_misses fill_misses,
      )
