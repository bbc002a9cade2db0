-- ===== src/Query/Where/Laws.antt =====
-- The rows that `where_` finds.
use mathlib.Core.Path.{subst}
use mathlib.Core.Option.{some-injective}
use mathlib.Core.Bool.{and-eq-true_iff}
use figmog.Prelude.{
  ◌≡◌, ◌↔◌, ◌⊎◌, inl, inr, refl, sym, ap, ◌∙◌, Bool, true, Option, none, some, List, [], ◌∷◌,
}
use figmog.Prelude.Tests.{Bool-cases}
use figmog.Prelude.Text.{Str}
use figmog.Prelude.Members.{In}
use figmog.Prelude.Sorting.{sort, In-sort, sort-In}
use figmog.Json.{Value, Serde}
use figmog.Model.{NodeRec}
use figmog.Api.{Result, ok, err, ◌>>=◌}
use figmog.Query.Readers.{Readers, AreReaders}
use figmog.Query.Select.{in_page, in_scope, normal_page}
use figmog.Query.Select.Laws.{InPage, InScope, in_page_iff, resolve_under_lem}
use figmog.Query.Where.{
  Found, found_leb, is_pointer, is_wanted, add_if_wanted, add_node, where_rows, where_found,
  passes_filters,
}

module _ (sd : Serde) (same : Value → Value → Bool) (parse_error : Str → Str) (pointer : Str)
    (equals : Option Value) where
  -- The node has this value at the pointer, and it is the one that is asked for, if one is.
  abbrev pub Holds : NodeRec → Value → Type 0
  Holds n v =
      (raw : Value) × (sd.from_str n.raw ≡ some raw)
      × (sd.pointer raw pointer ≡ some v)
      × (is_wanted sd same parse_error equals v ≡ true)

  abbrev Added : NodeRec → Result Str (List Found) → List Found → (Value → Type 0) → Type 0
  Added n rest found Here =
      (before : List Found) × (rest ≡ ok before)
      × (((found ≡ before) × ((v : Value) → ¬ Here v))
          ⊎ ((v : Value) × Here v × ((w : Value) → Here w → w ≡ v) × (found ≡ (n, v) ∷ before)))

  add_if_wanted-Added :
      (n : NodeRec) (o : Option Value) (rest : Result Str (List Found)) (found : List Found)
      → add_if_wanted sd same parse_error equals n o rest ≡ ok found
      → Added n rest found (λ v. (o ≡ some v) × (is_wanted sd same parse_error equals v ≡ true))
  add_if_wanted-Added n none rest found h = (found, h, inl (refl, λ v (e, w). cc))
  add_if_wanted-Added n (some v) (ok before) found h =
      elim (Bool-cases (is_wanted sd same parse_error equals v)) [
        | inl e ↦
            let p : ok ((n, v) ∷ before) ≡ ok found = rw (e, add_if_wanted) at h in
            (before, refl, inr (v, (refl, e), (λ w (q, f). sym (some-injective v w q)), cc))
        | inr e ↦
            let p : ok before ≡ ok found = rw (e, add_if_wanted) at h in
            (before, refl, inl (cc, λ w (q, f). let s = some-injective v w q in cc))
      ]
  add_if_wanted-Added n (some v) (err msg) found h =
      elim (Bool-cases (is_wanted sd same parse_error equals v)) [
        | inl e ↦ let p : err msg ≡ ok found = rw (e, add_if_wanted) at h in absurd cc
        | inr e ↦ let p : err msg ≡ ok found = rw (e, add_if_wanted) at h in absurd cc
      ]

  add_node-Added :
      (n : NodeRec) (o : Option Value) (rest : Result Str (List Found)) (found : List Found)
      → sd.from_str n.raw ≡ o
      → add_node sd same parse_error pointer equals n o rest ≡ ok found
      → Added n rest found (Holds n)
  add_node-Added n none rest found s h = cc
  add_node-Added n (some raw) rest found s h =
      let (before, e, cases) = add_if_wanted-Added n (sd.pointer raw pointer) rest found h in
      (
        before,
        e,
        elim cases [
          | inl (p, none_here) ↦ inl (
            p,
            λ v (raw', f, q, w). none_here v (
              subst (λ z. sd.pointer z pointer ≡ some v) (some-injective raw' raw (sym f ∙ s)) q,
              w,
            ),
          )
          | inr (v, (q, w), only, p) ↦ inr (
            v,
            (raw, s, q, w),
            (λ u (raw', f, q', w'). only u (
              subst (λ z. sd.pointer z pointer ≡ some u) (some-injective raw' raw (sym f ∙ s)) q',
              w',
            )),
            p,
          )
        ],
      )

  module _ (passes : NodeRec → Bool) where
    -- One of these rows is of the node, which passes the filters and holds the value.
    abbrev pub Hit : List (Str × NodeRec) → Found → Type 0
    Hit rows (n, v) = (k : Str) × In (k, n) rows × (passes n ≡ true) × Holds n v

    pub where_rows_iff :
        (rows : List (Str × NodeRec)) (found : List Found) (x : Found)
        → where_rows sd same parse_error pointer equals passes rows ≡ ok found
        → In x found ↔ Hit rows x
    unfolding where_rows
    where_rows_iff [] found x h =
        let e : [] ≡ found = cc in
        ((λ m. absurd (subst (λ z. In x z) (sym e) m)), λ (k, m, p, q). absurd m)
    where_rows_iff ((j, n) ∷ rows) found x h = elim (Bool-cases (passes n)) [
      | inr e ↦
          let (to, from) = where_rows_iff rows found x (rw (e, where_rows) at h) in
          (
            (λ m. let (k, i, p, w) = to m in (k, inr i, p, w)),
            (λ (k, i, p, q). elim i [
              | inl s ↦ let t = ap (λ z. passes z.1) s in absurd cc
              | inr i' ↦ from (k, i', p, q)
            ]),
          )
      | inl e ↦
          let rest = where_rows sd same parse_error pointer equals passes rows in
          let (before, b, cases) =
            add_node-Added n (sd.from_str n.raw) rest found refl (rw (e, where_rows) at h) in
          let (to, from) = where_rows_iff rows before x b in
          elim cases [
            | inl (p, none_here) ↦ (
              (λ m. let (k, i, q, w) = to (subst (λ z. In x z) p m) in (k, inr i, q, w)),
              (λ (k, i, q, holds).
                  subst (λ z. In x z) (sym p)
                    (elim i [
                      | inl s ↦
                          absurd (none_here x.1 (subst (λ z. Holds z x.1) (ap (λ z. z.1) s) holds))
                      | inr i' ↦ from (k, i', q, holds)
                    ])),
            )
            | inr (v, holds, only, p) ↦ (
              (λ m.
                  let m' : In x ((n, v) ∷ before) = subst (λ z. In x z) p m in
                  elim m' [
                    | inl s ↦ subst (λ z. Hit ((j, n) ∷ rows) z) (sym s) (j, inl refl, e, holds)
                    | inr i ↦ let (k, i', q, w) = to i in (k, inr i', q, w)
                  ]),
              (λ (k, i, q, here).
                  subst (λ z. In x z) (sym p)
                    (elim i [
                      | inl s ↦
                          let own = ap (λ z. z.1) s in
                          let value = only x.1 (subst (λ z. Holds z x.1) own here) in
                          inl (ap (λ z. (z, x.1)) own ∙ ap (λ z. (n, z)) value)
                      | inr i' ↦ inr (from (k, i', q, here))
                    ])),
            )
          ]
    ]

  -- Over readers as the pipeline feeds them, and unless there is an error, the nodes that are
  -- found are exactly the stored ones on the page, if one is given, and in the subtree below the
  -- given node, if one is, whose JSON has a value at the pointer, the wanted one if one is given;
  -- each is found with its value.
  pub where_found_lem :
      (r : Readers) (page under : Option Str) (found : List Found) (x : Found)
      → AreReaders r
      → where_found sd same parse_error r pointer equals page under ≡ ok found
      → In x found
        ↔ ((k : Str) × In (k, x.0) r.nodes × InPage page x.0 × InScope r under x.0 × Holds x.0 x.1)
  unfolding where_found
  where_found_lem r page under found x laws h = elim (Bool-cases (is_pointer pointer)) [
    | inr e ↦ let bad = rw (e, where_found) at h in absurd cc
    | inl e ↦ elim (resolve_under_lem r laws under) [
      | inr (msg, f, u) ↦ let bad = rw f at (rw (e, where_found) at h) in absurd cc
      | inl (scope, f, in_reach) ↦
          filtered scope in_reach
            (where_rows sd same parse_error pointer equals (passes_filters page scope) r.nodes) refl
            (rw f at (rw (e, where_found) at h))
    ]
  ]
    where
      filtered :
          (scope : Option (List Str))
          → ((n : NodeRec) → (in_scope scope n ≡ true) ↔ InScope r under n)
          → (rows : Result Str (List Found))
          → where_rows sd same parse_error pointer equals (passes_filters page scope) r.nodes ≡ rows
          → (rows >>= (λ rows. ok (sort found_leb rows))) ≡ ok found
          → In x found ↔ (
              (k : Str) × In (k, x.0) r.nodes
              × InPage page x.0
              × InScope r under x.0
              × Holds x.0 x.1)
      filtered scope in_reach (err msg) e h = absurd cc
      filtered scope in_reach (ok rows) e h =
          let sorted : sort found_leb rows ≡ found = cc in
          let (to, from) = where_rows_iff (passes_filters page scope) r.nodes rows x e in
          (
            (λ m.
                let (k, i, p, holds) =
                  to (In-sort found_leb x rows (subst (λ z. In x z) (sym sorted) m)) in
                let (a, b) =
                  (and-eq-true_iff (in_page (normal_page page) x.0) (in_scope scope x.0)).0 p in
                (k, i, (in_page_iff page x.0).0 a, (in_reach x.0).0 b, holds)),
            (λ (k, i, a, b, holds).
                subst (λ z. In x z) sorted
                  (sort-In found_leb x rows (
                    from (
                      k,
                      i,
                      (and-eq-true_iff (in_page (normal_page page) x.0) (in_scope scope x.0)).1
                          ((in_page_iff page x.0).1 a, (in_reach x.0).1 b),
                      holds,
                    )))),
          )
