-- ===== src/Vars/Inferred/Laws.antt =====
-- Which sites `infer_from_nodes` of src/vars.rs lists.
use mathlib.Core.Path.{subst}
use figmog.Prelude.{
  ◌≡◌, ◌⊎◌, ◌↔◌, inl, inr, refl, sym, ap, ◌∙◌, Bool, true, false, Option, none, some, List, [], ◌∷◌,
}
use figmog.Prelude.Tests.{◌==◌, if◌then◌else◌, Bool-cases}
use figmog.Prelude.Text.{Str, str_eq, str_beq_iff}
use figmog.Prelude.Members.{In, In-append_left, In-append_right, In-append}
use figmog.Prelude.Sorting.{sort, pair_leb, str_leb, In-sort, sort-In}
use figmog.Json.{Value, Serde}
use figmog.Model.{NodeRec}
use figmog.Store.Stream.{In-map, map-In}
use figmog.Vars.Inferred.{
  VarUsage, VarData, ByVar, add_site, add_sites, add_bindings, add_nodes, usage_of, seen_at,
  infer_from_nodes,
}

pair : {A B : Type 0} {a c : A} {b d : B} → a ≡ c → b ≡ d → ◌≡◌ {A = A × B} (a, b) (c, d)
pair p q = rw (p, q) refl

-- The map lists a site of a variable.
abbrev pub Listed : Str → Str × Str → ByVar → Type 0
Listed v site [] = ⊥
Listed v site ((k, (sites, observed)) ∷ rest) = ((k ≡ v) × In site sites) ⊎ Listed v site rest

Listed-add_site :
    (v k : Str) (site new : Str × Str) (seen : List Str) (by_var : ByVar)
    → Listed v site (add_site k new seen by_var) ↔ (((k ≡ v) × (site ≡ new)) ⊎ Listed v site by_var)
Listed-add_site v k site new seen [] = (
  (λ h. elim h [ inl (e, inl q) ↦ inl (e, q) | inl (e, inr q) ↦ absurd q | inr q ↦ absurd q ]),
  (λ h. elim h [ inl (e, q) ↦ inl (e, inl q) | inr q ↦ absurd q ]),
)
Listed-add_site v k site new seen ((j, (sites, observed)) ∷ rest) = elim (Bool-cases (j == k)) [
  | inl e ↦
      let same : j ≡ k = (str_beq_iff j k).0 e in
      rw e (
        (λ h. elim h [
          | inl (p, i) ↦ elim (In-append site sites (new ∷ []) i) [
            | inl i ↦ inr (inl (p, i))
            | inr (inl q) ↦ inl (sym same ∙ p, q)
            | inr (inr q) ↦ absurd q
          ]
          | inr later ↦ inr (inr later)
        ]),
        (λ h. elim h [
          | inl (p, q) ↦ inl (same ∙ p, In-append_right site sites (new ∷ []) (inl q))
          | inr (inl (p, i)) ↦ inl (p, In-append_left site sites (new ∷ []) i)
          | inr (inr later) ↦ inr later
        ]),
      )
  | inr e ↦ rw e (by_order (str_leb k j) (Listed-add_site v k site new seen rest))
]
  where
    by_order :
        (o : Bool)
        → Listed v site (add_site k new seen rest) ↔ (((k ≡ v) × (site ≡ new)) ⊎ Listed v site rest)
        → Listed v site (
            if o
            then (k, (new ∷ [], seen)) ∷ (j, (sites, observed)) ∷ rest
            else (j, (sites, observed)) ∷ add_site k new seen rest)
          ↔ (((k ≡ v) × (site ≡ new)) ⊎ Listed v site ((j, (sites, observed)) ∷ rest))
    by_order true ih = (
      (λ h. elim h [
        | inl (e, inl q) ↦ inl (e, q)
        | inl (e, inr q) ↦ absurd q
        | inr later ↦ inr later
      ]),
      (λ h. elim h [ inl (e, q) ↦ inl (e, inl q) | inr later ↦ inr later ]),
    )
    by_order false ih = (
      (λ h. elim h [
        | inl here ↦ inr (inl here)
        | inr later ↦ elim (ih.0 later) [ inl q ↦ inl q | inr l ↦ inr (inr l) ]
      ]),
      (λ h. elim h [
        | inl q ↦ inr (ih.1 (inl q))
        | inr (inl here) ↦ inl here
        | inr (inr l) ↦ inr (ih.1 (inr l))
      ]),
    )

-- The node is bound to the variable at the site, and its raw JSON parses.
abbrev pub Bound : Serde → Str → Str × Str → NodeRec → Type 0
Bound sd v site n =
    (raw : Value) × (sd.from_str n.raw ≡ some raw)
    × In (site.1, v) n.bound_variables
    × (site.0 ≡ n.id)

module _ (sd : Serde) (v : Str) (site : Str × Str) where
  Listed-add_sites :
      (n : NodeRec) (raw : Value) (bound : List (Str × Str)) (by_var : ByVar)
      → Listed v site (add_sites sd n raw bound by_var)
        ↔ ((In (site.1, v) bound × (site.0 ≡ n.id)) ⊎ Listed v site by_var)
  Listed-add_sites n raw [] by_var = (inr, λ h. elim h [ inl (i, _) ↦ absurd i | inr l ↦ l ])
  Listed-add_sites n raw ((pointer, k) ∷ rest) by_var =
      let seen = seen_at sd raw pointer in
      let ih = Listed-add_sites n raw rest (add_site k (n.id, pointer) seen by_var) in
      let one = Listed-add_site v k site (n.id, pointer) seen by_var in
      (
        (λ h. elim (ih.0 h) [
          | inl (i, q) ↦ inl (inr i, q)
          | inr l ↦ elim (one.0 l) [
            | inl (e, q) ↦ inl (inl (pair (ap (λ s. s.1) q) (sym e)), ap (λ s. s.0) q)
            | inr m ↦ inr m
          ]
        ]),
        (λ h. elim h [
          | inl (inl p, q) ↦
              ih.1 (inr (one.1 (inl (sym (ap (λ s. s.1) p), pair q (ap (λ s. s.0) p)))))
          | inl (inr i, q) ↦ ih.1 (inl (i, q))
          | inr l ↦ ih.1 (inr (one.1 (inr l)))
        ]),
      )

  Listed-add_bindings :
      (n : NodeRec) (by_var : ByVar)
      → Listed v site (add_bindings sd n by_var) ↔ (Bound sd v site n ⊎ Listed v site by_var)
  Listed-add_bindings n by_var = by_raw (sd.from_str n.raw) refl
    where
      by_raw :
          (o : Option Value)
          → sd.from_str n.raw ≡ o
          → Listed v site (add_bindings sd n by_var) ↔ (Bound sd v site n ⊎ Listed v site by_var)
      by_raw none e =
          rw (e, add_bindings) (inr, λ h. elim h [ inl (raw, q, _, _) ↦ cc | inr l ↦ l ])
      by_raw (some raw) e =
          let h = Listed-add_sites n raw n.bound_variables by_var in
          rw (e, add_bindings)
            (
              (λ l. elim (h.0 l) [ inl (i, q) ↦ inl (raw, refl, i, q) | inr m ↦ inr m ]),
              (λ l. elim l [ inl (raw', q, i, p) ↦ h.1 (inl (i, p)) | inr m ↦ h.1 (inr m) ]),
            )

  Listed-add_nodes :
      (ns : List NodeRec) (by_var : ByVar)
      → Listed v site (add_nodes sd ns by_var)
        ↔ (((n : NodeRec) × In n ns × Bound sd v site n) ⊎ Listed v site by_var)
  Listed-add_nodes [] by_var = (inr, λ h. elim h [ inl (_, i, _) ↦ absurd i | inr l ↦ l ])
  Listed-add_nodes (n ∷ ns) by_var =
      let ih = Listed-add_nodes ns (add_bindings sd n by_var) in
      let one = Listed-add_bindings n by_var in
      (
        (λ h. elim (ih.0 h) [
          | inl (m, i, b) ↦ inl (m, inr i, b)
          | inr l ↦ elim (one.0 l) [ inl b ↦ inl (n, inl refl, b) | inr l ↦ inr l ]
        ]),
        (λ h. elim h [
          | inl (m, inl e, b) ↦ ih.1 (inr (one.1 (inl (subst (Bound sd v site) e b))))
          | inl (m, inr i, b) ↦ ih.1 (inl (m, i, b))
          | inr l ↦ ih.1 (inr (one.1 (inr l)))
        ]),
      )

  Listed-In :
      (by_var : ByVar)
      → Listed v site by_var
        ↔ ((row : Str × VarData) × In row by_var × (row.0 ≡ v) × In site row.1.0)
  Listed-In [] = ((λ h. absurd h), λ h. absurd h.1)
  Listed-In ((k, (sites, observed)) ∷ rest) =
      let ih = Listed-In rest in
      (
        (λ h. elim h [
          | inl (e, i) ↦ ((k, (sites, observed)), inl refl, e, i)
          | inr l ↦ let (row, i, e, m) = ih.0 l in (row, inr i, e, m)
        ]),
        (λ (row, i, e, m). elim i [
          | inl q ↦ inl (ap (λ z. z.0) (sym q) ∙ e, subst (λ z. In site z.1.0) q m)
          | inr i ↦ inr (ih.1 (row, i, e, m))
        ]),
      )

  -- `infer_from_nodes` lists a site under a variable exactly if a node whose raw JSON parses is bound
  -- to this variable there.
  pub infer_from_nodes-sites :
      (nodes : List NodeRec)
      → ((u : VarUsage) × In u (infer_from_nodes sd nodes) × (u.variable_id ≡ v) × In site u.sites)
        ↔ ((n : NodeRec) × In n nodes × Bound sd v site n)
  unfolding infer_from_nodes
  infer_from_nodes-sites nodes =
      let by_var = add_nodes sd nodes [] in
      (
        (λ (u, i, e, m).
            let (row, j, q) = map-In usage_of u by_var i in
            let e' : row.0 ≡ v = ap (λ z. z.variable_id) (sym q) ∙ e in
            let m' : In site (sort pair_leb row.1.0) = subst (λ z. In site z.sites) q m in
            elim ((Listed-add_nodes nodes []).0
              ((Listed-In by_var).1 (row, j, e', In-sort pair_leb site row.1.0 m'))) [
                | inl found ↦ found
                | inr bad ↦ absurd bad
              ]),
        (λ found.
            let (row, j, e, m) = (Listed-In by_var).0 ((Listed-add_nodes nodes []).1 (inl found)) in
            (usage_of row, In-map usage_of row by_var j, e, sort-In pair_leb site row.1.0 m)),
      )
