-- ===== src/Dispatch/Laws.antt =====
-- `require_str_array` of src/dispatch.rs.
use mathlib.Core.Path.{ap₂}
use figmog.Prelude.{
  ℕ, suc, ◌≡◌, ◌≢◌, ◌↔◌, ◌⊎◌, inl, inr, refl, ap, ◌∙◌, some, List, [], ◌∷◌, ◌++◌, map,
}
use figmog.Prelude.Tests.{Option-cases}
use figmog.Prelude.Text.{Str, lit}
use figmog.Json.{Value, null, bool, num, str, arr, obj, Items, items, get}
use figmog.Api.{Result, ok, err}
use figmog.Dispatch.{require_str_array, strings_from, strings_of, strings_in, string_at}

Result-cases {ℓ κ} :
    {E : Type ℓ} {A : Type κ} (r : Result E A) → ((a : A) × (r ≡ ok a)) ⊎ ((e : E) × (r ≡ err e))
Result-cases (ok a) = inl (a, refl)
Result-cases (err e) = inr (e, refl)

string_at_sound : (key : Str) (i : ℕ) (v : Value) (s : Str) → string_at key i v ≡ ok s → v ≡ str s
string_at_sound key i (str t) s h = let e : t ≡ s = cc in ap str e
string_at_sound key i null s h = cc
string_at_sound key i (bool b) s h = cc
string_at_sound key i (num n) s h = cc
string_at_sound key i (arr vs) s h = cc
string_at_sound key i (obj fs) s h = cc

strings_from_sound :
    (key : Str) (i : ℕ) (vs : List Value) (ss : List Str)
    → strings_from key i vs ≡ ok ss
    → vs ≡ map str ss
unfolding strings_from
strings_from_sound key i [] ss h = let e : [] ≡ ss = cc in ap (λ z. map str z) e
strings_from_sound key i (v ∷ vs) ss h = elim (Result-cases (string_at key i v)) [
  | inl (t, e) ↦ elim (Result-cases (strings_from key (suc i) vs)) [
    | inl (rest, k) ↦
        let p : ok (t ∷ rest) ≡ ok ss = rw (e, k) at h in
        let q : t ∷ rest ≡ ss = cc in
        ap₂ ◌∷◌ (string_at_sound key i v t e) (strings_from_sound key (suc i) vs rest k)
        ∙ ap (λ z. map str z) q
    | inr (x, k) ↦ let bad : err x ≡ ok ss = rw (e, k) at h in cc
  ]
  | inr (x, e) ↦ let bad : err x ≡ ok ss = rw e at h in cc
]

strings_from-map : (key : Str) (i : ℕ) (ss : List Str) → strings_from key i (map str ss) ≡ ok ss
unfolding strings_from
strings_from-map key i [] = refl
strings_from-map key i (s ∷ ss) = rw (strings_from-map key (suc i) ss) refl

strings_of_sound :
    (key : Str) (vs : List Value) (ss : List Str)
    → strings_of key vs ≡ ok ss
    → (vs ≡ map str ss) × (ss ≢ [])
strings_of_sound key [] ss h = cc
strings_of_sound key (v ∷ vs) ss h =
    let same = strings_from_sound key 0 (v ∷ vs) ss h in
    (same, λ e. let bad : v ∷ vs ≡ [] = same ∙ ap (λ z. map str z) e in cc)

strings_of-map : (key : Str) (ss : List Str) → ss ≢ [] → strings_of key (map str ss) ≡ ok ss
strings_of-map key [] n = absurd (n refl)
strings_of-map key (s ∷ ss) n = strings_from-map key 0 (s ∷ ss)

-- The field holds these strings, and at least one.
abbrev pub HoldsStrings : Value → Str → List Str → Type 0
HoldsStrings args key ss =
    (vs : Items) × (get args key ≡ some (arr vs)) × (items vs ≡ map str ss) × (ss ≢ [])

strings_in_sound :
    (key : Str) (v : Value) (ss : List Str)
    → strings_in key v ≡ ok ss
    → (vs : Items) × (v ≡ arr vs) × (items vs ≡ map str ss) × (ss ≢ [])
strings_in_sound key (arr vs) ss h =
    let (same, n) = strings_of_sound key (items vs) ss h in (vs, refl, same, n)
strings_in_sound key null ss h = cc
strings_in_sound key (bool b) ss h = cc
strings_in_sound key (num n) ss h = cc
strings_in_sound key (str s) ss h = cc
strings_in_sound key (obj fs) ss h = cc

-- The required array of strings is read exactly where the field is an array of these strings and not
-- empty; an absent field, another type, an empty array and an element that is no string are errors.
pub require_str_array_iff :
    (args : Value) (key : Str) (ss : List Str)
    → (require_str_array args key ≡ ok ss) ↔ HoldsStrings args key ss
unfolding require_str_array
require_str_array_iff args key ss = (
  λ h. elim (Option-cases (get args key)) [
    | inl e ↦
        let bad : err (lit "missing required field: " ++ key) ≡ ok ss =
          rw (e, require_str_array) at h in
        cc
    | inr (v, e) ↦
        let (vs, p, same, n) = strings_in_sound key v ss (rw (e, require_str_array) at h) in
        (vs, e ∙ ap some p, same, n)
  ],
  λ (vs, e, same, n).
      rw (e, require_str_array) (ap (λ z. strings_of key z) same ∙ strings_of-map key ss n),
)
