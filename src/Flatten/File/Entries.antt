-- ===== src/Flatten/File/Entries.antt =====
-- What a component, a component set and a style that src/flatten.rs makes have of their entry.
use mathlib.Core.Path.{subst}
use mathlib.Core.Option.{some-injective}
use figmog.Prelude.{
  ◌≡◌, ◌↔◌, ◌⊎◌, inl, inr, refl, sym, ◌∙◌, Bool, true, false, Option, none, some, List, [],
}
use figmog.Prelude.Text.{Str, lit}
use figmog.Prelude.Members.{In}
use figmog.Json.{
  Value, null, bool, num, str, arr, obj, Fields, get, as_str, as_bool, as_object, entries, ◌>>=◌,
}
use figmog.Model.{RecId, Rec, ComponentRec, ComponentSetRec, StyleRec}
use figmog.Flatten.Walk.{str_field, or_else}
use figmog.Flatten.File.{component_row, component_set_row, style_row, obj_map, text_of, remote_of}

-- The text that stands there, or the empty one where no text does
abbrev pub TextIn : Option Value → Str → Type 0
TextIn o s = (o ≡ some (str s)) ⊎ ((s ≡ []) × ((t : Str) → ¬ (o ≡ some (str t))))

-- Just the text that stands there
abbrev pub MaybeTextIn : Option Value → Option Str → Type 0
MaybeTextIn o r = (s : Str) → (r ≡ some s) ↔ (o ≡ some (str s))

abbrev pub TrueIn : Option Value → Bool → Type 0
TrueIn o b = (b ≡ true) ↔ (o ≡ some (bool true))

pub text-TextIn : (o : Option Value) → TextIn o (or_else (o >>= as_str) [])
text-TextIn none = inr (refl, λ t e. cc)
text-TextIn (some (str s)) = inl refl
text-TextIn (some null) = inr (refl, λ t e. cc)
text-TextIn (some (bool b)) = inr (refl, λ t e. cc)
text-TextIn (some (num n)) = inr (refl, λ t e. cc)
text-TextIn (some (arr vs)) = inr (refl, λ t e. cc)
text-TextIn (some (obj fs)) = inr (refl, λ t e. cc)

TextIn-unique : (o : Option Value) (s t : Str) → TextIn o s → TextIn o t → s ≡ t
TextIn-unique o s t (inl p) (inl q) = cc
TextIn-unique o s t (inl p) (inr (q, none_there)) = absurd (none_there s p)
TextIn-unique o s t (inr (p, none_there)) (inl q) = absurd (none_there t q)
TextIn-unique o s t (inr (p, _)) (inr (q, _)) = p ∙ sym q

pub text-MaybeTextIn : (o : Option Value) → MaybeTextIn o (o >>= as_str)
text-MaybeTextIn none s = ((λ e. cc), (λ e. cc))
text-MaybeTextIn (some (str t)) s = ((λ e. cc), (λ e. cc))
text-MaybeTextIn (some null) s = ((λ e. cc), (λ e. cc))
text-MaybeTextIn (some (bool b)) s = ((λ e. cc), (λ e. cc))
text-MaybeTextIn (some (num n)) s = ((λ e. cc), (λ e. cc))
text-MaybeTextIn (some (arr vs)) s = ((λ e. cc), (λ e. cc))
text-MaybeTextIn (some (obj fs)) s = ((λ e. cc), (λ e. cc))

MaybeTextIn-unique :
    (o : Option Value) (r t : Option Str) → MaybeTextIn o r → MaybeTextIn o t → r ≡ t
MaybeTextIn-unique o none none p q = refl
MaybeTextIn-unique o (some s) t p q = sym ((q s).1 ((p s).0 refl))
MaybeTextIn-unique o none (some s) p q = (p s).1 ((q s).0 refl)

pub flag-TrueIn : (o : Option Value) → TrueIn o (or_else (o >>= as_bool) false)
flag-TrueIn none = ((λ e. cc), (λ e. cc))
flag-TrueIn (some (bool true)) = ((λ e. refl), (λ e. refl))
flag-TrueIn (some (bool false)) = ((λ e. cc), (λ e. cc))
flag-TrueIn (some null) = ((λ e. cc), (λ e. cc))
flag-TrueIn (some (num n)) = ((λ e. cc), (λ e. cc))
flag-TrueIn (some (str s)) = ((λ e. cc), (λ e. cc))
flag-TrueIn (some (arr vs)) = ((λ e. cc), (λ e. cc))
flag-TrueIn (some (obj fs)) = ((λ e. cc), (λ e. cc))

TrueIn-unique : (o : Option Value) (a b : Bool) → TrueIn o a → TrueIn o b → a ≡ b
TrueIn-unique o true b p q = sym (q.1 (p.0 refl))
TrueIn-unique o false true p q = p.1 (q.0 refl)
TrueIn-unique o false false p q = refl

abbrev fields_in : Value → List (Str × Value)
fields_in (obj fs) = entries fs
fields_in _ = []

-- What the record of a component has of the entry of the response.
pub record ComponentOf (id : Str) (v : Value) (c : ComponentRec) : Type 0 where
  pub node_id : c.node_id ≡ id
  pub key : TextIn (get v (lit "key")) c.key
  pub name : TextIn (get v (lit "name")) c.name
  pub description : TextIn (get v (lit "description")) c.description
  pub component_set_id : MaybeTextIn (get v (lit "componentSetId")) c.component_set_id
  pub remote : TrueIn (get v (lit "remote")) c.remote

pub record ComponentSetOf (id : Str) (v : Value) (c : ComponentSetRec) : Type 0 where
  pub node_id : c.node_id ≡ id
  pub key : TextIn (get v (lit "key")) c.key
  pub name : TextIn (get v (lit "name")) c.name
  pub description : TextIn (get v (lit "description")) c.description
  pub remote : TrueIn (get v (lit "remote")) c.remote

pub record StyleOf (id : Str) (v : Value) (s : StyleRec) : Type 0 where
  pub style_id : s.style_id ≡ id
  pub key : TextIn (get v (lit "key")) s.key
  pub name : TextIn (get v (lit "name")) s.name
  pub style_type : TextIn (get v (lit "styleType")) s.style_type
  pub description : TextIn (get v (lit "description")) s.description
  pub remote : TrueIn (get v (lit "remote")) s.remote

module _ (id : Str) (v : Value) where
  text_same : (k s : Str) → TextIn (get v k) s → text_of v k ≡ s
  unfolding str_field
  text_same k s h = TextIn-unique (get v k) (text_of v k) s (text-TextIn (get v k)) h

  remote_same : (b : Bool) → TrueIn (get v (lit "remote")) b → remote_of v ≡ b
  remote_same b h =
      TrueIn-unique (get v (lit "remote")) (remote_of v) b (flag-TrueIn (get v (lit "remote"))) h

  -- The record that is made of an entry is the one that has those parts.
  pub component_row_unique :
      (c : ComponentRec)
      → ComponentOf id v c
      → component_row (id, v) ≡ (RecId.component id, Rec.component c)
  unfolding str_field
  component_row_unique c o =
      let key = text_same (lit "key") c.key o.key in
      let name = text_same (lit "name") c.name o.name in
      let description = text_same (lit "description") c.description o.description in
      let set =
        MaybeTextIn-unique (get v (lit "componentSetId")) (str_field v (lit "componentSetId"))
          c.component_set_id (text-MaybeTextIn (get v (lit "componentSetId"))) o.component_set_id in
      let remote = remote_same c.remote o.remote in
      let id_same = sym o.node_id in
      λ i. (
        RecId.component id,
        Rec.component (record {
          node_id = id_same i;
          key = key i;
          name = name i;
          description = description i;
          component_set_id = set i;
          remote = remote i;
        }),
      )

  pub component_set_row_unique :
      (c : ComponentSetRec)
      → ComponentSetOf id v c
      → component_set_row (id, v) ≡ (RecId.component_set id, Rec.component_set c)
  unfolding str_field
  component_set_row_unique c o =
      let key = text_same (lit "key") c.key o.key in
      let name = text_same (lit "name") c.name o.name in
      let description = text_same (lit "description") c.description o.description in
      let remote = remote_same c.remote o.remote in
      let id_same = sym o.node_id in
      λ i. (
        RecId.component_set id,
        Rec.component_set (record {
          node_id = id_same i;
          key = key i;
          name = name i;
          description = description i;
          remote = remote i;
        }),
      )

  pub style_row_unique :
      (s : StyleRec) → StyleOf id v s → style_row (id, v) ≡ (RecId.style id, Rec.style s)
  unfolding str_field
  style_row_unique s o =
      let key = text_same (lit "key") s.key o.key in
      let name = text_same (lit "name") s.name o.name in
      let style_type = text_same (lit "styleType") s.style_type o.style_type in
      let description = text_same (lit "description") s.description o.description in
      let remote = remote_same s.remote o.remote in
      let id_same = sym o.style_id in
      λ i. (
        RecId.style id,
        Rec.style (record {
          style_id = id_same i;
          key = key i;
          name = name i;
          style_type = style_type i;
          description = description i;
          remote = remote i;
        }),
      )

-- The entry of the object that stands in the response under the key
abbrev pub Entry : Value → Str → Str → Value → Type 0
Entry resp key id v = (fs : Fields) × (get resp key ≡ some (obj fs)) × In (id, v) (entries fs)

pub Entry_iff :
    (resp : Value) (key id : Str) (v : Value) → In (id, v) (obj_map resp key) ↔ Entry resp key id v
Entry_iff resp key id v = by_value (get resp key) refl
  where
    by_value :
        (o : Option Value)
        → get resp key ≡ o
        → In (id, v) (or_else (o >>= as_object) [])
          ↔ ((fs : Fields) × (get resp key ≡ some (obj fs)) × In (id, v) (entries fs))
    by_value none e = ((λ h. absurd h), (λ (fs, p, i). cc))
    by_value (some (obj gs)) e = (
      (λ h. (gs, e, h)),
      (λ (fs, p, i).
          let same : obj gs ≡ obj fs = some-injective (obj gs) (obj fs) (sym e ∙ p) in
          subst (λ z. In (id, v) (fields_in z)) (sym same) i),
    )
    by_value (some null) e = ((λ h. absurd h), (λ (fs, p, i). cc))
    by_value (some (bool b)) e = ((λ h. absurd h), (λ (fs, p, i). cc))
    by_value (some (num n)) e = ((λ h. absurd h), (λ (fs, p, i). cc))
    by_value (some (str s)) e = ((λ h. absurd h), (λ (fs, p, i). cc))
    by_value (some (arr vs)) e = ((λ h. absurd h), (λ (fs, p, i). cc))
