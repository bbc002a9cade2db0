-- ===== src/Images/Ids.antt =====
-- `normalize_ids` of src/images.rs.
use figmog.Prelude.{◌≡◌, ◌↔◌, ◌⊎◌, inl, inr, refl, sym, ap, ◌∙◌, true, false, List, [], ◌∷◌}
use figmog.Prelude.Tests.{Bool-cases}
use figmog.Prelude.Text.{Str, str_eq}
use figmog.Prelude.Members.{In, Distinct, member, member_sound, member_complete}
use figmog.Ident.{normalize_node_ref}
use figmog.Images.{normalize_ids, normalize_from}

-- The id is that of one of the texts.
abbrev pub Names : List Str → Str → Type 0
Names ids id = (raw : Str) × In raw ids × (id ≡ normalize_node_ref raw)

normalize_from-In :
    (seen ids : List Str) (id : Str) → In id (normalize_from seen ids) → ¬ In id seen × Names ids id
unfolding normalize_from
normalize_from-In seen [] id h = absurd h
normalize_from-In seen (raw ∷ ids) id h = elim (Bool-cases (member (normalize_node_ref raw) seen)) [
  | inl m ↦
      let (n, (r, i, e)) = normalize_from-In seen ids id (rw (m, normalize_from) at h) in
      (n, (r, inr i, e))
  | inr m ↦
      let h' : In id (normalize_node_ref raw ∷ normalize_from (normalize_node_ref raw ∷ seen) ids) =
        rw (m, normalize_from) at h in
      elim h' [
        | inl e ↦ (
          λ s.
              let bad : true ≡ false =
                sym (member_complete (normalize_node_ref raw) seen (rw e at s)) ∙ m in
              cc,
          (raw, inl refl, e),
        )
        | inr k ↦
            let (n, (r, i, e)) = normalize_from-In (normalize_node_ref raw ∷ seen) ids id k in
            ((λ s. n (inr s)), (r, inr i, e))
      ]
]

-- The id of each text is there, unless it has been seen.
normalize_from-Names :
    (seen ids : List Str) (raw : Str)
    → In raw ids
    → In (normalize_node_ref raw) seen ⊎ In (normalize_node_ref raw) (normalize_from seen ids)
unfolding normalize_from
normalize_from-Names seen [] raw h = absurd h
normalize_from-Names seen (r ∷ ids) raw h = elim (Bool-cases (member (normalize_node_ref r) seen)) [
  | inl m ↦
      rw (m, normalize_from)
        (elim h [
          | inl e ↦ inl (rw e (member_sound (normalize_node_ref r) seen m))
          | inr k ↦ normalize_from-Names seen ids raw k
        ])
  | inr m ↦
      rw (m, normalize_from)
        (elim h [
          | inl e ↦ inr (inl (ap normalize_node_ref e))
          | inr k ↦ elim (normalize_from-Names (normalize_node_ref r ∷ seen) ids raw k) [
            | inl (inl e) ↦ inr (inl e)
            | inl (inr s) ↦ inl s
            | inr t ↦ inr (inr t)
          ]
        ])
]

normalize_from-Distinct : (seen ids : List Str) → Distinct (normalize_from seen ids)
unfolding normalize_from
normalize_from-Distinct seen [] = tt
normalize_from-Distinct seen (raw ∷ ids) =
    elim (Bool-cases (member (normalize_node_ref raw) seen)) [
      | inl m ↦ rw (m, normalize_from) (normalize_from-Distinct seen ids)
      | inr m ↦
          rw (m, normalize_from)
            (
              λ i.
                  (normalize_from-In (normalize_node_ref raw ∷ seen) ids (normalize_node_ref raw)
                      i).0
                    (inl refl),
              normalize_from-Distinct (normalize_node_ref raw ∷ seen) ids,
            )
    ]

-- The ids that a list of references means are those that each of them is normalized to, and none of
-- them stands twice.
pub normalize_ids_lem :
    (ids : List Str)
    → Distinct (normalize_ids ids) × ((id : Str) → In id (normalize_ids ids) ↔ Names ids id)
unfolding normalize_ids
normalize_ids_lem ids = (
  normalize_from-Distinct [] ids,
  λ id. (
    λ h. (normalize_from-In [] ids id h).1,
    λ (raw, i, e). elim (normalize_from-Names [] ids raw i) [
      | inl bad ↦ absurd bad
      | inr h ↦ rw e h
    ],
  ),
)
