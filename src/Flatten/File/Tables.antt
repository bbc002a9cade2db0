-- ===== src/Flatten/File/Tables.antt =====
-- The components, the component sets and the styles that `flatten_file` of src/flatten.rs makes.
use mathlib.Core.Path.{subst}
use figmog.Prelude.{ℕ, ◌≡◌, ◌↔◌, ◌⊎◌, inl, inr, refl, sym, none, some, List, ◌++◌, map, arith}
use figmog.Prelude.Text.{Str, lit}
use figmog.Prelude.Members.{In, In-append, In-append_left, In-append_right, All-In}
use figmog.Json.{Value, str, Serde, get}
use figmog.Model.{RecId, Rec, ComponentRec, ComponentSetRec, StyleRec, variant}
use figmog.Api.{ok}
use figmog.Store.Stream.{In-map, map-In, All-map}
use figmog.Flatten.Walk.{walk, str_field}
use figmog.Flatten.Walk.Records.{walk-All}
use figmog.Flatten.File.{
  Flattened, flatten_file, component_row, component_set_row, style_row, obj_map,
}
use figmog.Flatten.File.Laws.{all_rows, flatten_file_iff}
use figmog.Flatten.File.Entries.{
  text-TextIn, text-MaybeTextIn, flag-TrueIn, ComponentOf, ComponentSetOf, StyleOf,
  component_row_unique, component_set_row_unique, style_row_unique, Entry, Entry_iff,
}

-- The rows of one kind
abbrev Kind : ℕ → RecId × Rec → Type 0
Kind n row = variant row.0 ≡ n

module _ (sd : Serde) (resp document : Value) where
  abbrev nodes : List (RecId × Rec)
  nodes = walk sd document none 0 none

  abbrev components : List (RecId × Rec)
  components = map component_row (obj_map resp (lit "components"))

  abbrev sets : List (RecId × Rec)
  sets = map component_set_row (obj_map resp (lit "componentSets"))

  abbrev styles : List (RecId × Rec)
  styles = map style_row (obj_map resp (lit "styles"))

  nodes-Kind : (x : RecId × Rec) → In x nodes → Kind 0 x
  nodes-Kind x h =
      All-In (Kind 0) x nodes
        (walk-All sd (Kind 0) (λ fs id parent i page e. refl) document none 0 none) h

  components-Kind : (x : RecId × Rec) → In x components → Kind 1 x
  components-Kind x h =
      All-In (Kind 1) x components
        (All-map (Kind 1) component_row (λ e. refl) (obj_map resp (lit "components"))) h

  sets-Kind : (x : RecId × Rec) → In x sets → Kind 2 x
  sets-Kind x h =
      All-In (Kind 2) x sets
        (All-map (Kind 2) component_set_row (λ e. refl) (obj_map resp (lit "componentSets"))) h

  styles-Kind : (x : RecId × Rec) → In x styles → Kind 3 x
  styles-Kind x h =
      All-In (Kind 3) x styles
        (All-map (Kind 3) style_row (λ e. refl) (obj_map resp (lit "styles"))) h

  -- A record stands in the part of its kind.
  In-parts :
      (x : RecId × Rec)
      → In x (all_rows sd resp document)
      → In x nodes ⊎ (In x components ⊎ (In x sets ⊎ In x styles))
  In-parts x h = elim (In-append x nodes (components ++ (sets ++ styles)) h) [
    | inl i ↦ inl i
    | inr h ↦ elim (In-append x components (sets ++ styles) h) [
      | inl i ↦ inr (inl i)
      | inr h ↦ inr (inr (In-append x sets styles h))
    ]
  ]

  components_iff : (x : RecId × Rec) → Kind 1 x → In x (all_rows sd resp document) ↔ In x components
  components_iff x k = (
    (λ h. elim (In-parts x h) [
      | inl i ↦ absurd (omega (arith, nodes-Kind x i, k))
      | inr (inl i) ↦ i
      | inr (inr (inl i)) ↦ absurd (omega (arith, sets-Kind x i, k))
      | inr (inr (inr i)) ↦ absurd (omega (arith, styles-Kind x i, k))
    ]),
    (λ i.
        In-append_right x nodes (components ++ (sets ++ styles))
          (In-append_left x components (sets ++ styles) i)),
  )

  sets_iff : (x : RecId × Rec) → Kind 2 x → In x (all_rows sd resp document) ↔ In x sets
  sets_iff x k = (
    (λ h. elim (In-parts x h) [
      | inl i ↦ absurd (omega (arith, nodes-Kind x i, k))
      | inr (inl i) ↦ absurd (omega (arith, components-Kind x i, k))
      | inr (inr (inl i)) ↦ i
      | inr (inr (inr i)) ↦ absurd (omega (arith, styles-Kind x i, k))
    ]),
    (λ i.
        In-append_right x nodes (components ++ (sets ++ styles))
          (In-append_right x components (sets ++ styles) (In-append_left x sets styles i))),
  )

  styles_iff : (x : RecId × Rec) → Kind 3 x → In x (all_rows sd resp document) ↔ In x styles
  styles_iff x k = (
    (λ h. elim (In-parts x h) [
      | inl i ↦ absurd (omega (arith, nodes-Kind x i, k))
      | inr (inl i) ↦ absurd (omega (arith, components-Kind x i, k))
      | inr (inr (inl i)) ↦ absurd (omega (arith, sets-Kind x i, k))
      | inr (inr (inr i)) ↦ i
    ]),
    (λ i.
        In-append_right x nodes (components ++ (sets ++ styles))
          (In-append_right x components (sets ++ styles) (In-append_right x sets styles i))),
  )

-- A record of a kind, made of an entry of one object of the response
abbrev Made : Value → RecId × Rec → Type 0
Made resp (RecId.component k, Rec.component c) =
    (v : Value) × Entry resp (lit "components") k v × ComponentOf k v c
Made resp (RecId.component_set k, Rec.component_set c) =
    (v : Value) × Entry resp (lit "componentSets") k v × ComponentSetOf k v c
Made resp (RecId.style k, Rec.style s) = (v : Value) × Entry resp (lit "styles") k v × StyleOf k v s
Made resp _ = Unit

component-Made :
    (resp : Value) (row : Str × Value)
    → In row (obj_map resp (lit "components"))
    → Made resp (component_row row)
unfolding str_field
component-Made resp (id, v) i = (
  v,
  (Entry_iff resp (lit "components") id v).0 i,
  record {
    node_id = refl;
    key = text-TextIn (get v (lit "key"));
    name = text-TextIn (get v (lit "name"));
    description = text-TextIn (get v (lit "description"));
    component_set_id = text-MaybeTextIn (get v (lit "componentSetId"));
    remote = flag-TrueIn (get v (lit "remote"));
  },
)

set-Made :
    (resp : Value) (row : Str × Value)
    → In row (obj_map resp (lit "componentSets"))
    → Made resp (component_set_row row)
unfolding str_field
set-Made resp (id, v) i = (
  v,
  (Entry_iff resp (lit "componentSets") id v).0 i,
  record {
    node_id = refl;
    key = text-TextIn (get v (lit "key"));
    name = text-TextIn (get v (lit "name"));
    description = text-TextIn (get v (lit "description"));
    remote = flag-TrueIn (get v (lit "remote"));
  },
)

style-Made :
    (resp : Value) (row : Str × Value)
    → In row (obj_map resp (lit "styles"))
    → Made resp (style_row row)
unfolding str_field
style-Made resp (id, v) i = (
  v,
  (Entry_iff resp (lit "styles") id v).0 i,
  record {
    style_id = refl;
    key = text-TextIn (get v (lit "key"));
    name = text-TextIn (get v (lit "name"));
    style_type = text-TextIn (get v (lit "styleType"));
    description = text-TextIn (get v (lit "description"));
    remote = flag-TrueIn (get v (lit "remote"));
  },
)

-- What a file holds of the response
pub record Tables (resp : Value) (f : Flattened) : Type 0 where
  pub name : get resp (lit "name") ≡ some (str f.file.name)
  pub version : get resp (lit "version") ≡ some (str f.file.version)
  pub last_modified : get resp (lit "lastModified") ≡ some (str f.file.last_modified)
  pub components :
      (k : Str) (c : ComponentRec)
      → In (RecId.component k, Rec.component c) f.recs
        ↔ ((v : Value) × Entry resp (lit "components") k v × ComponentOf k v c)
  pub component_sets :
      (k : Str) (c : ComponentSetRec)
      → In (RecId.component_set k, Rec.component_set c) f.recs
        ↔ ((v : Value) × Entry resp (lit "componentSets") k v × ComponentSetOf k v c)
  pub styles :
      (k : Str) (s : StyleRec)
      → In (RecId.style k, Rec.style s) f.recs
        ↔ ((v : Value) × Entry resp (lit "styles") k v × StyleOf k v s)

mapped-Made :
    (resp : Value) (row : Str × Value → RecId × Rec) (es : List (Str × Value))
    → ((e : Str × Value) → In e es → Made resp (row e))
    → (x : RecId × Rec) → In x (map row es)
    → Made resp x
mapped-Made resp row es made x h =
    let (e, i, p) = map-In row x es h in subst (Made resp) (sym p) (made e i)

text_there : (v : Value) (k s : Str) → str_field v k ≡ some s → get v k ≡ some (str s)
unfolding str_field
text_there v k s h = (text-MaybeTextIn (get v k) s).0 h

-- A flattened file has the name, the version and the time of the response. Its components are exactly
-- those that are made of the entries of the object `components` of the response, each under the key of
-- its entry and with the texts and the flag of the entry (an empty text, no set and no flag where the
-- entry has none), and so are its component sets and its styles, of `componentSets` and `styles`.
pub flatten_file-Tables :
    (sd : Serde) (resp : Value) (f : Flattened) → flatten_file sd resp ≡ ok f → Tables resp f
flatten_file-Tables sd resp f h =
    let e = (flatten_file_iff sd resp f).0 h in
    let document = e.document in
    record {
      name = text_there resp (lit "name") f.file.name e.name;
      version = text_there resp (lit "version") f.file.version e.version;
      last_modified = text_there resp (lit "lastModified") f.file.last_modified e.last_modified;
      components = λ k c.
          let x : RecId × Rec = (RecId.component k, Rec.component c) in
          let es = obj_map resp (lit "components") in
          (
            (λ i.
                mapped-Made resp component_row es (component-Made resp) x
                  ((components_iff sd resp document x refl).0 (subst (λ rs. In x rs) e.rows i))),
            (λ (v, entry, o).
                subst (λ rs. In x rs) (sym e.rows)
                  ((components_iff sd resp document x refl).1 (
                    subst (λ z. In z (map component_row es)) (component_row_unique k v c o)
                      (In-map component_row (k, v) es
                        ((Entry_iff resp (lit "components") k v).1 entry))))),
          );
      component_sets = λ k c.
          let x : RecId × Rec = (RecId.component_set k, Rec.component_set c) in
          let es = obj_map resp (lit "componentSets") in
          (
            (λ i.
                mapped-Made resp component_set_row es (set-Made resp) x
                  ((sets_iff sd resp document x refl).0 (subst (λ rs. In x rs) e.rows i))),
            (λ (v, entry, o).
                subst (λ rs. In x rs) (sym e.rows)
                  ((sets_iff sd resp document x refl).1 (
                    subst (λ z. In z (map component_set_row es)) (component_set_row_unique k v c o)
                      (In-map component_set_row (k, v) es
                        ((Entry_iff resp (lit "componentSets") k v).1 entry))))),
          );
      styles = λ k s.
          let x : RecId × Rec = (RecId.style k, Rec.style s) in
          let es = obj_map resp (lit "styles") in
          (
            (λ i.
                mapped-Made resp style_row es (style-Made resp) x
                  ((styles_iff sd resp document x refl).0 (subst (λ rs. In x rs) e.rows i))),
            (λ (v, entry, o).
                subst (λ rs. In x rs) (sym e.rows)
                  ((styles_iff sd resp document x refl).1 (
                    subst (λ z. In z (map style_row es)) (style_row_unique k v s o)
                      (In-map style_row (k, v) es ((Entry_iff resp (lit "styles") k v).1 entry))))),
          );
    }
