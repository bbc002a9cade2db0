-- ===== src/Cache/Laws.antt =====
-- What the cache serves.
use mathlib.Core.Option.{some-injective}
use figmog.Prelude.{
  ◌≡◌, ◌≢◌, inl, inr, refl, sym, ap, ◌∙◌, true, Option, none, some, List, [], ◌∷◌, arith,
}
use figmog.Prelude.Tests.{◌==◌, if◌then◌else◌, Bool-cases, Option-cases}
use figmog.Prelude.Text.{Str, str_eq, str_beq_iff}
use figmog.Prelude.Members.{In}
use figmog.Json.{Value, Serde, ◌>>=◌}
use figmog.Model.{RecId, Rec, ProxyCacheRec}
use figmog.Model.Keys.{id_eq, id_beq_iff}
use figmog.Store.Stream.{KeyedStream, filter_map, In-filter_map, filter_map-In}
use figmog.Store.Branches.{proxy_cache_only}
use figmog.Store.Evict.Laws.{proxy_cache_only-inv}
use figmog.Cache.{cache_key, table_get, serve_row, lookup, store, row_of}

table_get-In :
    {A : Type 0} (k : Str) (a : A) (rows : List (Str × A))
    → table_get k rows ≡ some a
    → In (k, a) rows
unfolding table_get
table_get-In k a [] h = cc
table_get-In k a ((j, b) ∷ rows) h = elim (Bool-cases (j == k)) [
  | inl e ↦
      let p : some b ≡ some a = rw e at h in
      inl (rw ((str_beq_iff j k).0 e) (ap (λ x. (k, x)) (sym (some-injective b a p))))
  | inr e ↦ inr (table_get-In k a rows (rw e at h))
]

In-table_get :
    {A : Type 0} (k : Str) (a : A) (rows : List (Str × A))
    → In (k, a) rows
    → table_get k rows ≢ none
unfolding table_get
In-table_get k a [] h e = h
In-table_get k a ((j, b) ∷ rows) (inl p) e =
    let q : (j == k) ≡ true = (str_beq_iff j k).1 (sym (ap (λ row. row.0) p)) in
    let bad : some b ≡ none = rw q at e in cc
In-table_get k a ((j, b) ∷ rows) (inr h) e = elim (Bool-cases (j == k)) [
  | inl q ↦ let bad : some b ≡ none = rw q at e in cc
  | inr q ↦ In-table_get k a rows h (rw q at e)
]

abbrev pub as_row : Option Rec → Option ProxyCacheRec
as_row (some (Rec.proxy_cache r)) = some r
as_row _ = none

module _ (sd : Serde) (fold : KeyedStream) where
  open fold use {State, get, upsert, rows, rows-get, get-upsert}

  -- The table is read by the key of the row.
  table_lem :
      (st : State) (k : Str)
      → table_get k (filter_map proxy_cache_only (rows st)) ≡ as_row (get st (RecId.proxy_cache k))
  table_lem st k = elim (Option-cases (table_get k (filter_map proxy_cache_only (rows st)))) [
    | inl e ↦ e ∙ absent (get st (RecId.proxy_cache k)) refl e
    | inr (r, e) ↦
        e
        ∙ present r (
            filter_map-In proxy_cache_only (k, r) (rows st)
              (table_get-In k r (filter_map proxy_cache_only (rows st)) e))
  ]
    where
      present :
          (r : ProxyCacheRec)
          → ((a : RecId × Rec) × In a (rows st) × (proxy_cache_only a ≡ some (k, r)))
          → some r ≡ as_row (get st (RecId.proxy_cache k))
      present r (a, i, e) =
          let (p, q) = proxy_cache_only-inv a.0 a.1 k r e in
          ap as_row (sym (ap (get st) (sym p) ∙ (rows-get st a.0 a.1).0 i ∙ ap some q))

      absent :
          (o : Option Rec)
          → get st (RecId.proxy_cache k) ≡ o
          → table_get k (filter_map proxy_cache_only (rows st)) ≡ none
          → none ≡ as_row o
      absent (some (Rec.proxy_cache r)) e n = absurd (
          In-table_get k r (filter_map proxy_cache_only (rows st))
            (In-filter_map proxy_cache_only (RecId.proxy_cache k, Rec.proxy_cache r) (k, r)
              (rows st) refl ((rows-get st (RecId.proxy_cache k) (Rec.proxy_cache r)).1 e))
            n)
      absent none e n = refl
      absent (some _) e n = refl

  lookup_lem :
      (st : State) (tool args current : Str)
      → lookup sd fold st tool args current ≡ (
          as_row (get st (RecId.proxy_cache (cache_key tool args)))
          >>= serve_row sd tool args current)
  unfolding lookup
  lookup_lem st tool args current =
      ap (λ o. o >>= serve_row sd tool args current) (table_lem st (cache_key tool args))

  serve_row_sound :
      (tool args current : Str) (r : ProxyCacheRec) (v : Value)
      → serve_row sd tool args current r ≡ some v
      → (r.tool ≡ tool)
        × (r.args_canonical ≡ args)
        × (r.file_version ≡ current)
        × (sd.from_str r.content ≡ some v)
  unfolding serve_row
  serve_row_sound tool args current r v h = ground (
    arith,
    str_beq_iff r.tool tool,
    str_beq_iff r.args_canonical args,
    str_beq_iff r.file_version current,
  )

  as_row-inv :
      (o : Option Rec) (r : ProxyCacheRec) → as_row o ≡ some r → o ≡ some (Rec.proxy_cache r)
  as_row-inv (some (Rec.proxy_cache q)) r h =
      ap (λ x. some (Rec.proxy_cache x)) (some-injective q r h)
  as_row-inv none r h = cc
  as_row-inv (some _) r h = cc

  -- A hit is the content of a stored row of that tool and those arguments, fetched at the current
  -- version: a row of another call under the same hash, or of another version, is not served.
  pub lookup_sound :
      (st : State) (tool args current : Str) (v : Value)
      → lookup sd fold st tool args current ≡ some v
      → (r : ProxyCacheRec) × (get st (RecId.proxy_cache (cache_key tool args))
          ≡ some (Rec.proxy_cache r))
        × (r.tool ≡ tool)
        × (r.args_canonical ≡ args)
        × (r.file_version ≡ current)
        × (sd.from_str r.content ≡ some v)
  lookup_sound st tool args current v h =
      elim (Option-cases (as_row (get st (RecId.proxy_cache (cache_key tool args))))) [
        | inl e ↦
            let bad : none ≡ some v =
              ap (λ o. o >>= serve_row sd tool args current) (sym e)
              ∙ sym (lookup_lem st tool args current)
              ∙ h in
            cc
        | inr (r, e) ↦
            let served =
              ap (λ o. o >>= serve_row sd tool args current) (sym e)
              ∙ sym (lookup_lem st tool args current)
              ∙ h in
            let (a, b, c, d) = serve_row_sound tool args current r v served in
            (r, as_row-inv (get st (RecId.proxy_cache (cache_key tool args))) r e, a, b, c, d)
      ]

  -- After a response is stored, a lookup with the same hash reads that row alone, and every other
  -- lookup is as before.
  pub lookup-store :
      (st : State) (tool args version : Str) (content : Value) (tool' args' current : Str)
      → lookup sd fold (store sd fold st tool args version content) tool' args' current ≡ (
          if cache_key tool args == cache_key tool' args'
          then serve_row sd tool' args' current (row_of sd fold tool args version content)
          else lookup sd fold st tool' args' current)
  unfolding store
  lookup-store st tool args version content tool' args' current =
      let key = RecId.proxy_cache (cache_key tool args) in
      let row : Rec = Rec.proxy_cache (row_of sd fold tool args version content) in
      lookup_lem (upsert st key row).1 tool' args' current
      ∙ ground (
        arith,
        get-upsert st key row (RecId.proxy_cache (cache_key tool' args')),
        id_beq_iff key (RecId.proxy_cache (cache_key tool' args')),
        str_beq_iff (cache_key tool args) (cache_key tool' args'),
        lookup_lem st tool' args' current,
      )

  -- A response that survives printing and parsing is served to the same call while the version is
  -- the one that it was stored at, and to no call at another version.
  pub lookup-store_self :
      (st : State) (tool args version : Str) (content : Value) (current : Str)
      → sd.from_str (sd.to_string content) ≡ some content
      → lookup sd fold (store sd fold st tool args version content) tool args current
        ≡ (if version == current then some content else none)
  lookup-store_self st tool args version content current h =
      lookup-store st tool args version content tool args current
      ∙ unfold serve_row in
        ground (
          arith,
          h,
          str_beq_iff (cache_key tool args) (cache_key tool args),
          str_beq_iff tool tool,
          str_beq_iff args args,
        )
