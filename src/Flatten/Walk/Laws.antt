-- ===== src/Flatten/Walk/Laws.antt =====
-- The links between the records of `walk` in src/flatten.rs.
use mathlib.Core.Bool.{false≢true}
use mathlib.Core.Path.{subst}
use figmog.Prelude.{
  ℕ, ◌+◌, ◌≡◌, inl, inr, refl, sym, true, false, Option, none, some, List, [], ◌∷◌, ◌++◌, arith,
}
use figmog.Prelude.Tests.{◌==◌, Option-cases, Bool-cases}
use figmog.Prelude.Text.{Str, lit, str_eq}
use figmog.Prelude.Members.{In}
use figmog.Json.{Value, null, bool, num, str, arr, obj, Items, nil, cons, Fields, end, field, Serde}
use figmog.Model.{RecId, Rec, payload}
use figmog.Flatten.Walk.{
  walk, walk_children, walk_array, walk_items, node_rec, is_page_type, page_of, type_of, as_u32,
  str_field,
}

-- The parent, if there is one, is known.
abbrev pub Known : List Str → Option Str → Type 0
Known known none = Unit
Known known (some p) = In p known

-- A record under its own id, whose parent and page are known; a page is its own page.
abbrev pub Links : List Str → RecId × Rec → Type 0
Links known (RecId.node k, Rec.node n) =
    (k ≡ n.id)
    × Known known n.parent_id
    × In n.page_id (n.id ∷ known)
    × (is_page_type n.node_type ≡ true → n.page_id ≡ n.id)
Links known _ = ⊥

-- Each record links to ids that stand before it.
abbrev pub Linked : List Str → List (RecId × Rec) → Type 0
Linked known [] = Unit
Linked known (row ∷ rows) = Links known row × Linked (payload row.0 ∷ known) rows

abbrev Within : List Str → List Str → Type 0
Within xs ys = (a : Str) → In a xs → In a ys

Within-cons : (x : Str) (xs ys : List Str) → Within xs ys → Within (x ∷ xs) (x ∷ ys)
Within-cons x xs ys w a (inl e) = inl e
Within-cons x xs ys w a (inr h) = inr (w a h)

Known-mono : (xs ys : List Str) (p : Option Str) → Within xs ys → Known xs p → Known ys p
Known-mono xs ys none w h = tt
Known-mono xs ys (some p) w h = w p h

Links-mono : (xs ys : List Str) (row : RecId × Rec) → Within xs ys → Links xs row → Links ys row
Links-mono xs ys (RecId.node k, Rec.node n) w (e, p, q, r) =
    (e, Known-mono xs ys n.parent_id w p, Within-cons n.id xs ys w n.page_id q, r)
Links-mono xs ys _ w h = absurd h

Linked-mono :
    (xs ys : List Str) (rows : List (RecId × Rec)) → Within xs ys → Linked xs rows → Linked ys rows
Linked-mono xs ys [] w h = tt
Linked-mono xs ys (row ∷ rows) w (p, h) = (
  Links-mono xs ys row w p,
  Linked-mono (payload row.0 ∷ xs) (payload row.0 ∷ ys) rows (Within-cons (payload row.0) xs ys w)
      h,
)

Linked-append :
    (known : List Str) (xs ys : List (RecId × Rec))
    → Linked known xs
    → Linked known ys
    → Linked known (xs ++ ys)
Linked-append known [] ys h k = k
Linked-append known (row ∷ xs) ys (p, h) k = (
  p,
  Linked-append (payload row.0 ∷ known) xs ys h
      (Linked-mono known (payload row.0 ∷ known) ys (λ a m. inr m) k),
)

page_of-Known :
    (t id : Str) (known : List Str) (page : Option Str)
    → Known known page
    → In (page_of t id page) (id ∷ known) × (is_page_type t ≡ true → page_of t id page ≡ id)
page_of-Known t id known none h = elim (Bool-cases (is_page_type t)) [
  | inl e ↦ rw e (inl refl, λ _. refl)
  | inr e ↦ rw e (inl refl, λ b. refl)
]
page_of-Known t id known (some p) h = elim (Bool-cases (is_page_type t)) [
  | inl e ↦ rw e (inl refl, λ _. refl)
  | inr e ↦
      let m : page_of t id (some p) ≡ p = rw e in
      (subst (λ x. In x (id ∷ known)) (sym m) (inr h), λ b. absurd (false≢true (rw e at b)))
]

module _ (sd : Serde) where
  node_rec-Links :
      (fs : Fields) (id : Str) (parent : Option Str) (i : ℕ) (page : Option Str) (known : List Str)
      → Known known parent
      → Known known page
      → Links known (RecId.node id, Rec.node (node_rec sd fs id parent i page))
  unfolding node_rec
  node_rec-Links fs id parent i page known p q =
      let (a, b) = page_of-Known (type_of (obj fs)) id known page q in (refl, p, a, b)

  module _ (k : Str) (v : Value) (fs : Fields) (id page : Str) where
    pub walk_children_hit :
        (k == lit "children") ≡ true
        → walk_children sd (field k v fs) id page ≡ walk_array sd v id page
    unfolding walk
    walk_children_hit e = ground arith

    pub walk_children_miss :
        (k == lit "children") ≡ false
        → walk_children sd (field k v fs) id page ≡ walk_children sd fs id page
    unfolding walk
    walk_children_miss e = ground arith

  mutual
    unfolding walk

    walk-Linked' :
        (v : Value) (parent : Option Str) (i : ℕ) (page : Option Str) (known : List Str)
        → Known known parent
        → Known known page
        → Linked known (walk sd v parent i page)
    walk-Linked' (obj fs) parent i page known p q =
        elim (Option-cases (str_field (obj fs) (lit "id"))) [
          | inl e ↦ rw (e, walk) tt
          | inr (id, e) ↦
              rw (e, walk)
                (
                  node_rec-Links fs id parent i page known p q,
                  walk_children-Linked fs id (page_of (type_of (obj fs)) id page) (id ∷ known)
                      (inl refl) (page_of-Known (type_of (obj fs)) id known page q).0,
                )
        ]
    walk-Linked' null parent i page known p q = tt
    walk-Linked' (bool b) parent i page known p q = tt
    walk-Linked' (num n) parent i page known p q = tt
    walk-Linked' (str s) parent i page known p q = tt
    walk-Linked' (arr vs) parent i page known p q = tt

    walk_children-Linked :
        (fs : Fields) (id page : Str) (known : List Str)
        → In id known
        → In page known
        → Linked known (walk_children sd fs id page)
    walk_children-Linked end id page known p q = tt
    walk_children-Linked (field k v fs) id page known p q =
        elim (Bool-cases (k == lit "children")) [
          | inl e ↦
              subst (Linked known) (sym (walk_children_hit k v fs id page e))
                (walk_array-Linked v id page known p q)
          | inr e ↦
              subst (Linked known) (sym (walk_children_miss k v fs id page e))
                (walk_children-Linked fs id page known p q)
        ]

    walk_array-Linked :
        (v : Value) (id page : Str) (known : List Str)
        → In id known
        → In page known
        → Linked known (walk_array sd v id page)
    walk_array-Linked (arr vs) id page known p q = walk_items-Linked vs 0 id page known p q
    walk_array-Linked null id page known p q = tt
    walk_array-Linked (bool b) id page known p q = tt
    walk_array-Linked (num n) id page known p q = tt
    walk_array-Linked (str s) id page known p q = tt
    walk_array-Linked (obj fs) id page known p q = tt

    walk_items-Linked :
        (vs : Items) (i : ℕ) (id page : Str) (known : List Str)
        → In id known
        → In page known
        → Linked known (walk_items sd vs i id page)
    walk_items-Linked nil i id page known p q = tt
    walk_items-Linked (cons v vs) i id page known p q =
        Linked-append known (walk sd v (some id) (as_u32 i) (some page))
          (walk_items sd vs (i + 1) id page)
          (walk-Linked' v (some id) (as_u32 i) (some page) known p q)
          (walk_items-Linked vs (i + 1) id page known p q)

  -- In the walk over a document, each record stands under its own id, behind the record of its
  -- parent; its page is itself or a record before it, and a document or canvas is its own page.
  pub walk-Linked : (document : Value) → Linked [] (walk sd document none 0 none)
  walk-Linked document = walk-Linked' document none 0 none [] tt tt
