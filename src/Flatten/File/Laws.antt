-- ===== src/Flatten/File/Laws.antt =====
-- When a response is flattened, and the keys of what comes out.
use mathlib.Core.Path.{subst}
use figmog.Prelude.{◌≡◌, ◌↔◌, inl, inr, refl, sym, ap, none, some, List, [], ◌∷◌, ◌++◌, map}
use figmog.Prelude.Tests.{Option-cases}
use figmog.Prelude.Lists.{All, All-append}
use figmog.Prelude.Text.{lit}
use figmog.Json.{Value, get, Serde}
use figmog.Model.{RecId, Rec}
use figmog.Api.{ok, err}
use figmog.Flatten.Walk.{walk, str_field}
use figmog.Flatten.Walk.Records.{IsFlat, walk-IsFlat}
use figmog.Flatten.File.{
  Flattened, missing, flatten_file, component_row, component_set_row, style_row, obj_map,
}

-- A record of the kind that its key names, which holds the key.
abbrev pub KeyMatches : RecId × Rec → Type 0
KeyMatches (RecId.node k, Rec.node n) = k ≡ n.id
KeyMatches (RecId.component k, Rec.component c) = k ≡ c.node_id
KeyMatches (RecId.component_set k, Rec.component_set c) = k ≡ c.node_id
KeyMatches (RecId.style k, Rec.style s) = k ≡ s.style_id
KeyMatches (RecId.variable k, Rec.variable v) = k ≡ v.id
KeyMatches (RecId.variable_collection k, Rec.variable_collection v) = k ≡ v.id
KeyMatches (RecId.meta, Rec.meta _) = Unit
KeyMatches (RecId.proxy_cache k, Rec.proxy_cache c) = k ≡ c.key_hash
KeyMatches (RecId.mirror_config, Rec.mirror_config _) = Unit
KeyMatches (RecId.image_blob k, Rec.image_blob b) = k ≡ b.key_hash
KeyMatches _ = ⊥

-- So is the record, and it is a node, a component, a component set or a style.
abbrev pub FileRow : RecId × Rec → Type 0
FileRow (RecId.node k, Rec.node n) = k ≡ n.id
FileRow (RecId.component k, Rec.component c) = k ≡ c.node_id
FileRow (RecId.component_set k, Rec.component_set c) = k ≡ c.node_id
FileRow (RecId.style k, Rec.style s) = k ≡ s.style_id
FileRow _ = ⊥

All-rows :
    {A : Type 0} (row : A → RecId × Rec)
    → ((a : A) → FileRow (row a))
    → (es : List A) → All FileRow (map row es)
All-rows row h [] = tt
All-rows row h (a ∷ es) = (h a, All-rows row h es)

IsFlat-FileRow : (sd : Serde) (rows : List (RecId × Rec)) → All (IsFlat sd) rows → All FileRow rows
IsFlat-FileRow sd [] h = tt
IsFlat-FileRow sd ((RecId.node k, Rec.node n) ∷ rows) (p, h) = (p.0, IsFlat-FileRow sd rows h)
IsFlat-FileRow sd (_ ∷ rows) (p, h) = absurd p

-- The records in the order in which the program pushes them.
abbrev pub all_rows : Serde → Value → Value → List (RecId × Rec)
all_rows sd resp document =
    walk sd document none 0 none
    ++ (map component_row (obj_map resp (lit "components"))
        ++ (map component_set_row (obj_map resp (lit "componentSets"))
            ++ map style_row (obj_map resp (lit "styles"))))

all_rows-FileRow : (sd : Serde) (resp document : Value) → All FileRow (all_rows sd resp document)
all_rows-FileRow sd resp document =
    let cs = map component_row (obj_map resp (lit "components")) in
    let sets = map component_set_row (obj_map resp (lit "componentSets")) in
    let styles = map style_row (obj_map resp (lit "styles")) in
    All-append FileRow (walk sd document none 0 none) (cs ++ (sets ++ styles))
      (IsFlat-FileRow sd (walk sd document none 0 none) (walk-IsFlat sd document none 0 none))
      (All-append FileRow cs (sets ++ styles)
        (All-rows component_row (λ e. refl) (obj_map resp (lit "components")))
        (All-append FileRow sets styles
          (All-rows component_set_row (λ e. refl) (obj_map resp (lit "componentSets")))
          (All-rows style_row (λ e. refl) (obj_map resp (lit "styles")))))

-- The four parts that a response must have.
pub record Envelope (sd : Serde) (resp : Value) (f : Flattened) : Type 0 where
  pub name : str_field resp (lit "name") ≡ some f.file.name
  pub version : str_field resp (lit "version") ≡ some f.file.version
  pub last_modified : str_field resp (lit "lastModified") ≡ some f.file.last_modified
  pub document : Value
  pub found : get resp (lit "document") ≡ some document
  pub rows : f.recs ≡ all_rows sd resp document

flatten_file-Envelope :
    (sd : Serde) (resp : Value) (f : Flattened) → flatten_file sd resp ≡ ok f → Envelope sd resp f
unfolding flatten_file
flatten_file-Envelope sd resp f h = elim (Option-cases (str_field resp (lit "name"))) [
  | inl e ↦ let bad : err (missing (lit "name")) ≡ ok f = rw e at h in cc
  | inr (name, e) ↦ elim (Option-cases (str_field resp (lit "version"))) [
    | inl e' ↦ let bad : err (missing (lit "version")) ≡ ok f = rw (e, e') at h in cc
    | inr (version, e') ↦ elim (Option-cases (str_field resp (lit "lastModified"))) [
      | inl m ↦ let bad : err (missing (lit "lastModified")) ≡ ok f = rw (e, e', m) at h in cc
      | inr (modified, m) ↦ elim (Option-cases (get resp (lit "document"))) [
        | inl d ↦ let bad : err (missing (lit "document")) ≡ ok f = rw (e, e', m, d) at h in cc
        | inr (document, d) ↦
            let made : Flattened = record {
              recs = all_rows sd resp document;
              file = record { name = name; version = version; last_modified = modified };
            } in
            let same : ok made ≡ ok f = rw (e, e', m, d) at h in
            let equal : made ≡ f = cc in
            subst (Envelope sd resp) equal (record {
              name = e;
              version = e';
              last_modified = m;
              document = document;
              found = d;
              rows = refl;
            })
      ]
    ]
  ]
]

-- A response is flattened exactly when it has the texts `name`, `version` and `lastModified` and a
-- `document`; the result has those texts, and the records of the document and of the three maps.
pub flatten_file_iff :
    (sd : Serde) (resp : Value) (f : Flattened) → (flatten_file sd resp ≡ ok f) ↔ Envelope sd resp f
unfolding flatten_file
flatten_file_iff sd resp f = (
  flatten_file-Envelope sd resp f,
  λ e.
      rw (e.name, e.version, e.last_modified, e.found, flatten_file)
        (ap (λ r. ok (record f { recs = r })) (sym e.rows)),
)

-- Every record is a node, a component, a component set or a style, stands under a key of its kind,
-- and holds the key.
pub flatten_file-FileRow :
    (sd : Serde) (resp : Value) (f : Flattened) → flatten_file sd resp ≡ ok f → All FileRow f.recs
flatten_file-FileRow sd resp f h =
    let e = (flatten_file_iff sd resp f).0 h in rw e.rows (all_rows-FileRow sd resp e.document)
