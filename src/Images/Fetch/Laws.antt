-- ===== src/Images/Fetch/Laws.antt =====
-- The items that `resolve` of src/images.rs answers for what `scan` has found.
use mathlib.Core.Path.{ap₂}
use mathlib.Core.Option.{some-injective}
use mathlib.Core.List.{map-append}
use figmog.Prelude.{
  ℕ, ◌≡◌, ◌⊎◌, inl, inr, refl, sym, ap, ◌∙◌, true, false, not, Option, none, some, List, [], ◌∷◌,
  ◌++◌, map,
}
use figmog.Prelude.Tests.{◌==◌, ==_refl, Bool-cases, Option-cases}
use figmog.Prelude.Lists.{All}
use figmog.Prelude.Text.{Str, lit, str_eq, str_beq_iff}
use figmog.Prelude.Members.{In, Distinct}
use figmog.Prelude.Sorting.{sort, str_leb, str_leb-IsOrder, dedup-Sorted, sort-Sorted}
use figmog.Prelude.Filtering.{In-keep_if}
use figmog.Json.{Value, Serde, ◌>>=◌}
use figmog.Model.{ImageBlobRec}
use figmog.Api.{Result, ok, err, ApiError}
use figmog.Cache.{table_get}
use figmog.Store.Stream.{KeyedStream}
use figmog.Images.{render, fill, image_key, ImageItem, error_item}
use figmog.Images.Fetch.{
  Hits, has, without, Scanned, collect, node_refs, scan, ImagesApi, resolve, fetch_each, take_items,
  misses, render_hit, fill_hit, render_step, fill_step, fetch_render, fetch_fill, render_answer,
  fill_answer, url_of, render_urls, fill_urls, downloaded_render, downloaded_fill, hit_row,
  cached_item, image_row,
}

-- What an item is about.
abbrev pub heading : ImageItem → Str × Str
heading item = (item.kind, item.subject)

abbrev About : Str → Str → ImageItem → Type 0
About kind s item = heading item ≡ (kind, s)

abbrev Coherent : Str → Hits → Type 0
Coherent kind hits = All (λ h. About kind h.0 h.1) hits

has-cons :
    (k s : Str) (item : ImageItem) (hits : Hits)
    → has s hits ≡ true
    → has s ((k, item) ∷ hits) ≡ true
unfolding table_get
has-cons k s item hits h = elim (Bool-cases (k == s)) [
  | inl e ↦ rw (e, has) refl
  | inr e ↦ rw (e, has) h
]

has-cons_self : (s : Str) (item : ImageItem) (hits : Hits) → has s ((s, item) ∷ hits) ≡ true
unfolding table_get
has-cons_self s item hits = rw (==_refl s, has) refl

table_get-without :
    (k s : Str) (hits : Hits) → (k == s) ≡ false → table_get s (without k hits) ≡ table_get s hits
unfolding table_get
table_get-without k s [] h = refl
table_get-without k s ((j, item) ∷ hits) h = elim (Bool-cases (j == k)) [
  | inl e ↦
      let p : (j == s) ≡ false = rw ((str_beq_iff j k).0 e) h in
      rw (e, p) (table_get-without k s hits h)
  | inr e ↦ elim (Bool-cases (j == s)) [
    | inl p ↦ rw (e, p) refl
    | inr p ↦ rw (e, p) (table_get-without k s hits h)
  ]
]

Coherent-without :
    (kind k : Str) (hits : Hits) → Coherent kind hits → Coherent kind (without k hits)
Coherent-without kind k [] c = tt
Coherent-without kind k ((j, item) ∷ hits) (p, c) = elim (Bool-cases (j == k)) [
  | inl e ↦ rw e (Coherent-without kind k hits c)
  | inr e ↦ rw e (p, Coherent-without kind k hits c)
]

Coherent-table_get :
    (kind s : Str) (item : ImageItem) (hits : Hits)
    → Coherent kind hits
    → table_get s hits ≡ some item
    → About kind s item
unfolding table_get
Coherent-table_get kind s item [] c h = cc
Coherent-table_get kind s item ((j, other) ∷ hits) (p, c) h = elim (Bool-cases (j == s)) [
  | inl e ↦
      let q : some other ≡ some item = rw e at h in let r : j ≡ s = (str_beq_iff j s).0 e in cc
  | inr e ↦ Coherent-table_get kind s item hits c (rw e at h)
]

has-some :
    (s : Str) (hits : Hits)
    → has s hits ≡ true
    → (item : ImageItem) × (table_get s hits ≡ some item)
has-some s hits h = elim (Option-cases (table_get s hits)) [
  | inl e ↦ let bad : false ≡ true = rw (e, has) at h in cc
  | inr (item, e) ↦ (item, e)
]

some-has :
    (s : Str) (item : ImageItem) (hits : Hits) → table_get s hits ≡ some item → has s hits ≡ true
some-has s item hits e = rw (e, has) refl

collect-Coherent :
    (kind : Str) (hit : Str → Option ImageItem) (hits : Hits) (subjects : List Str)
    → ((s : Str) (item : ImageItem) → hit s ≡ some item → About kind s item)
    → Coherent kind hits
    → Coherent kind (collect hit hits subjects)
unfolding collect
collect-Coherent kind hit hits [] a c = c
collect-Coherent kind hit hits (s ∷ subjects) a c = elim (Option-cases (hit s)) [
  | inl e ↦ rw (e, collect) (collect-Coherent kind hit hits subjects a c)
  | inr (item, e) ↦
      rw (e, collect) (collect-Coherent kind hit ((s, item) ∷ hits) subjects a (a s item e, c))
]

module _ (sd : Serde) (fold : KeyedStream) where
  open fold use {State}

  Yields : Str → (State → Str → State × ImageItem) → Type 0
  Yields kind step = (st : State) (s : Str) → About kind s (step st s).1

  fetch_each-Coherent :
      (kind : Str) (step : State → Str → State × ImageItem) (st : State) (hits : Hits)
      (subjects : List Str)
      → Yields kind step
      → Coherent kind hits
      → Coherent kind (fetch_each sd fold step st hits subjects).1
  unfolding fetch_each Yields
  fetch_each-Coherent kind step st hits [] y c = c
  fetch_each-Coherent kind step st hits (s ∷ subjects) y c =
      fetch_each-Coherent kind step (step st s).0 ((s, (step st s).1) ∷ hits) subjects y (y st s, c)

  has-fetch_each :
      (step : State → Str → State × ImageItem) (st : State) (hits : Hits) (subjects : List Str)
      (s : Str)
      → (has s hits ≡ true) ⊎ In s subjects
      → has s (fetch_each sd fold step st hits subjects).1 ≡ true
  unfolding fetch_each
  has-fetch_each step st hits [] s (inl h) = h
  has-fetch_each step st hits [] s (inr i) = absurd i
  has-fetch_each step st hits (t ∷ subjects) s (inl h) =
      has-fetch_each step (step st t).0 ((t, (step st t).1) ∷ hits) subjects s
        (inl (has-cons t s (step st t).1 hits h))
  has-fetch_each step st hits (t ∷ subjects) s (inr (inl e)) =
      has-fetch_each step (step st t).0 ((t, (step st t).1) ∷ hits) subjects s
        (inl (rw e (has-cons_self t (step st t).1 hits)))
  has-fetch_each step st hits (t ∷ subjects) s (inr (inr i)) =
      has-fetch_each step (step st t).0 ((t, (step st t).1) ∷ hits) subjects s (inr i)

  -- After the loop over the misses there is an item for each subject.
  has-misses :
      (step : State → Str → State × ImageItem) (st : State) (hits : Hits) (subjects : List Str)
      (s : Str)
      → In s subjects
      → has s (fetch_each sd fold step st hits (misses sd fold hits subjects)).1 ≡ true
  has-misses step st hits subjects s i =
      has-fetch_each step st hits (misses sd fold hits subjects) s (elim (Bool-cases (has s hits)) [
        | inl h ↦ inl h
        | inr h ↦ inr (In-keep_if (λ z. not (has z hits)) s subjects (rw h refl) i)
      ])

  take_items-heading :
      (kind : Str) (hits : Hits) (subjects : List Str)
      → Coherent kind hits
      → Distinct subjects
      → ((s : Str) → In s subjects → has s hits ≡ true)
      → map heading (take_items sd fold hits subjects) ≡ map (λ s. (kind, s)) subjects
  unfolding take_items
  take_items-heading kind hits [] c d h = refl
  take_items-heading kind hits (s ∷ subjects) c (n, d) h =
      let (item, e) = has-some s hits (h s (inl refl)) in
      rw (e, take_items)
        (ap₂ ◌∷◌ (Coherent-table_get kind s item hits c e) (
          take_items-heading kind (without s hits) subjects (Coherent-without kind s hits c) d
            (λ t i.
              let (other, k) = has-some t hits (h t (inr i)) in
              some-has t other (without s hits)
                (table_get-without s t hits (apart s t subjects n i) ∙ k))))
    where
      apart : (s t : Str) (subjects : List Str) → ¬ In s subjects → In t subjects → (s == t) ≡ false
      apart s t subjects n i = elim (Bool-cases (s == t)) [
        | inl e ↦ absurd (n (rw ((str_beq_iff s t).0 e) i))
        | inr e ↦ e
      ]

  module _ (print : ApiError → Str) (download : Str → Result ApiError Str) (version : Str) where
    fetch_render-About :
        (urls : Option (List (Str × Value))) (format : Str) (scale_m : ℕ) (st : State) (id : Str)
        → About render id (fetch_render sd fold print download version urls format scale_m st id).1
    fetch_render-About urls format scale_m st id = by_url (url_of sd fold urls id)
      where
        by_answer :
            (r : Result ApiError Str)
            → About render id
                (downloaded_render sd fold print download version format scale_m st id r).1
        by_answer (ok bytes) = refl
        by_answer (err e) = refl

        by_url :
            (o : Option Str)
            → About render id
                (elim o as (λ _. State × ImageItem) [
                  | none ↦
                      (st, error_item render id format (lit "no render available for this node"))
                  | some url ↦
                      downloaded_render sd fold print download version format scale_m st id
                        (download url)
                ]).1
        by_url none = refl
        by_url (some url) = by_answer (download url)

    fetch_fill-About :
        (urls : Option (List (Str × Value))) (st : State) (r : Str)
        → About fill r (fetch_fill sd fold print download version urls st r).1
    fetch_fill-About urls st r = by_url (url_of sd fold urls r)
      where
        by_answer :
            (url : Str) (a : Result ApiError Str)
            → About fill r (downloaded_fill sd fold print download version url st r a).1
        by_answer url (ok bytes) = refl
        by_answer url (err e) = refl

        by_url :
            (o : Option Str)
            → About fill r
                (elim o as (λ _. State × ImageItem) [
                  | none ↦
                      (st, error_item fill r [] (lit "no fill image available for this imageRef"))
                  | some url ↦
                      downloaded_fill sd fold print download version url st r (download url)
                ]).1
        by_url none = refl
        by_url (some url) = by_answer url (download url)

    render_step-Yields :
        (answer : Option (Result ApiError Value)) (format : Str) (scale_m : ℕ)
        → Yields render (render_step sd fold print download version answer format scale_m)
    unfolding Yields
    render_step-Yields none format scale_m st id = refl
    render_step-Yields (some (err e)) format scale_m st id = refl
    render_step-Yields (some (ok resp)) format scale_m st id =
        fetch_render-About (render_urls sd fold resp) format scale_m st id

    fill_step-Yields :
        (answer : Option (Result ApiError Value))
        → Yields fill (fill_step sd fold print download version answer)
    unfolding Yields
    fill_step-Yields none st r = refl
    fill_step-Yields (some (err e)) st r = refl
    fill_step-Yields (some (ok resp)) st r = fetch_fill-About (fill_urls sd fold resp) st r

  render_hit-About :
      (st : State) (version format : Str) (scale_m : ℕ) (id : Str) (item : ImageItem)
      → render_hit sd fold st version format scale_m id ≡ some item
      → About render id item
  render_hit-About st version format scale_m id item h =
      by_row
        (hit_row (image_row sd fold st (image_key render id format scale_m)) version render id
          format scale_m)
        h
    where
      by_row :
          (o : Option ImageBlobRec)
          → (o >>= λ rec. some (cached_item render id format rec)) ≡ some item
          → About render id item
      by_row none e = cc
      by_row (some rec) e =
          ap heading (sym (some-injective (cached_item render id format rec) item e))

  fill_hit-About :
      (st : State) (version r : Str) (item : ImageItem)
      → fill_hit sd fold st version r ≡ some item
      → About fill r item
  fill_hit-About st version r item h =
      by_row (hit_row (image_row sd fold st (image_key fill r [] 1000)) version fill r [] 1000) h
    where
      by_row :
          (o : Option ImageBlobRec)
          → (o >>= λ rec. some (cached_item fill r rec.format rec)) ≡ some item
          → About fill r item
      by_row none e = cc
      by_row (some rec) e =
          ap heading (sym (some-injective (cached_item fill r rec.format rec) item e))

  resolve-heading :
      (print : ApiError → Str) (download : Str → Result ApiError Str) (st : State)
      (scanned : Scanned) (figma : Option ImagesApi) (node_ids : List Str) (format : Str)
      (scale_m : ℕ)
      → Coherent render scanned.render_hits
      → Coherent fill scanned.fill_hits
      → Distinct node_ids
      → Distinct scanned.fill_refs
      → map heading (resolve sd fold print download st scanned figma node_ids format scale_m).1
        ≡ map (λ id. (render, id)) node_ids ++ map (λ r. (fill, r)) scanned.fill_refs
  unfolding resolve
  resolve-heading print download st scanned figma node_ids format scale_m c c' d d' =
      let v = scanned.version in
      let answer =
        render_answer sd fold print download v figma
          (misses sd fold scanned.render_hits node_ids) in
      let rendering = render_step sd fold print download v answer format scale_m in
      let filling =
        fill_step sd fold print download v (fill_answer sd fold print download v figma) in
      let (st₁, renders) =
        fetch_each sd fold rendering st scanned.render_hits
          (misses sd fold scanned.render_hits node_ids) in
      let (st₂, fills) =
        fetch_each sd fold filling st₁ scanned.fill_hits
          (misses sd fold scanned.fill_hits scanned.fill_refs) in
      map-append heading (take_items sd fold renders node_ids)
        (take_items sd fold fills scanned.fill_refs)
      ∙ ap₂ ◌++◌
          (take_items-heading render renders node_ids
            (fetch_each-Coherent render rendering st scanned.render_hits
              (misses sd fold scanned.render_hits node_ids)
              (render_step-Yields print download v answer format scale_m) c)
            d (has-misses rendering st scanned.render_hits node_ids))
          (take_items-heading fill fills scanned.fill_refs
            (fetch_each-Coherent fill filling st₁ scanned.fill_hits
              (misses sd fold scanned.fill_hits scanned.fill_refs)
              (fill_step-Yields print download v (fill_answer sd fold print download v figma)) c')
            d' (has-misses filling st₁ scanned.fill_hits scanned.fill_refs))

  -- Where no id stands twice, the answer of a fetch has one item for each id and each image of the
  -- fills, whatever is cached and however the network answers: the renders in the order of the ids,
  -- then the fills in the order of the set of their refs.
  pub resolve-scan :
      (print : ApiError → Str) (download : Str → Result ApiError Str) (st : State)
      (figma : Option ImagesApi) (node_ids : List Str) (format : Str) (scale_m : ℕ)
      → Distinct node_ids
      → map heading
          (resolve sd fold print download st
            (scan sd fold st node_ids format scale_m)
            figma
            node_ids
            format
            scale_m).1
        ≡ map (λ id. (render, id)) node_ids
          ++ map (λ r. (fill, r)) (scan sd fold st node_ids format scale_m).fill_refs
  unfolding scan
  resolve-scan print download st figma node_ids format scale_m d =
      let scanned = scan sd fold st node_ids format scale_m in
      let refs = node_refs sd fold st node_ids in
      let sorted = sort-Sorted str_leb-IsOrder refs in
      resolve-heading print download st scanned figma node_ids format scale_m
        (collect-Coherent render (render_hit sd fold st scanned.version format scale_m) [] node_ids
          (render_hit-About st scanned.version format scale_m) tt)
        (collect-Coherent fill (fill_hit sd fold st scanned.version) [] scanned.fill_refs
          (fill_hit-About st scanned.version) tt)
        d (dedup-Sorted str_leb-IsOrder (sort str_leb refs) sorted).1
