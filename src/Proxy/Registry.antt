-- ===== src/Proxy/Registry.antt =====
-- `merge_registry` of src/proxy.rs.
use mathlib.Core.Path.{subst}
use mathlib.Core.Option.{some-injective}
use mathlib.Core.List.{append_assoc, append-nil}
use figmog.Prelude.{
  ◌≡◌, ◌⊎◌, inl, inr, refl, sym, ap, ◌∙◌, Bool, true, false, ◌||◌, Option, none, some, List, [],
  ◌∷◌, ◌++◌, arith,
}
use figmog.Prelude.Tests.{Bool-cases, Option-cases}
use figmog.Prelude.Lists.{All, All-append}
use figmog.Prelude.Text.{Str, lit, str_eq}
use figmog.Prelude.Members.{
  In, Distinct, member, member_sound, member_complete, In-append_left, In-append_right,
}
use figmog.Json.{Value, get, as_str, ◌>>=◌}
use figmog.Proxy.{ToolDef, names, upstream_tool, is_local_tool, merge, merge_registry}

names-append : (a b : List ToolDef) → names (a ++ b) ≡ names a ++ names b
names-append [] b = refl
names-append (t ∷ a) b = ap (λ ns. t.name ∷ ns) (names-append a b)

Distinct-snoc : (ns : List Str) (n : Str) → Distinct ns → ¬ In n ns → Distinct (ns ++ (n ∷ []))
Distinct-snoc [] n d h = ((λ m. m), tt)
Distinct-snoc (x ∷ ns) n (f, d) h =
    (absent ns f (λ p. h (inl (sym p))), Distinct-snoc ns n d (λ m. h (inr m)))
  where
    absent : (ns : List Str) → ¬ In x ns → ¬ (x ≡ n) → ¬ In x (ns ++ (n ∷ []))
    absent [] f g (inl p) = g p
    absent [] f g (inr m) = m
    absent (y ∷ ns) f g (inl p) = f (inl p)
    absent (y ∷ ns) f g (inr m) = absent ns (λ k. f (inr k)) g m

-- A name is local, or taken by a tool of the list.
abbrev pub Taken : List ToolDef → Str → Type 0
Taken tools name = (is_local_tool name ≡ true) ⊎ In name (names tools)

-- What the loop makes of the tools so far and the names dropped so far.
pub record Merged (local : List ToolDef) (before : List Str) (upstream : List Value)
    (tools : List ToolDef) (dropped : List Str) : Type 0 where
  pub added : List ToolDef
  pub kept : tools ≡ local ++ added
  pub foreign : All (λ t. is_local_tool t.name ≡ false) added
  pub distinct : Distinct (names local) → Distinct (names tools)
  pub refused : All (Taken local) before → All (Taken tools) dropped
  pub listed :
      (tool : Value) (name : Str)
      → In tool upstream
      → (get tool (lit "name") >>= as_str) ≡ some name
      → Taken tools name

Taken-append :
    (tools more : List ToolDef) (name : Str) → Taken tools name → Taken (tools ++ more) name
Taken-append tools more name (inl e) = inl e
Taken-append tools more name (inr m) = inr (
    subst (λ ns. In name ns) (sym (names-append tools more))
      (In-append_left name (names tools) (names more) m))

All-Taken-append :
    (tools more : List ToolDef) (ns : List Str)
    → All (Taken tools) ns
    → All (Taken (tools ++ more)) ns
All-Taken-append tools more [] h = tt
All-Taken-append tools more (n ∷ ns) (p, h) =
    (Taken-append tools more n p, All-Taken-append tools more ns h)

-- A tool that adds nothing: one without a name, or one whose name is taken.
Merged-skip :
    (local tools : List ToolDef) (before before' dropped : List Str) (tool : Value)
    (rest : List Value)
    → (All (Taken local) before → All (Taken local) before')
    → ((name : Str) → (get tool (lit "name") >>= as_str) ≡ some name → Taken local name)
    → Merged local before' rest tools dropped
    → Merged local before (tool ∷ rest) tools dropped
Merged-skip local tools before before' dropped tool rest more taken m = record {
  added = m.added;
  kept = m.kept;
  foreign = m.foreign;
  distinct = m.distinct;
  refused = λ h. m.refused (more h);
  listed = λ t name i e. elim i [
    | inl p ↦
        subst (λ ts. Taken ts name) (sym m.kept)
          (Taken-append local m.added name
            (taken name (ap (λ z. get z (lit "name") >>= as_str) (sym p) ∙ e)))
    | inr i' ↦ m.listed t name i' e
  ];
}

-- A tool that is added under its name.
Merged-push :
    (local tools : List ToolDef) (before dropped : List Str) (tool : Value) (name : Str)
    (rest : List Value)
    → (get tool (lit "name") >>= as_str) ≡ some name
    → is_local_tool name ≡ false
    → member name (names local) ≡ false
    → Merged (local ++ (upstream_tool name tool ∷ [])) before rest tools dropped
    → Merged local before (tool ∷ rest) tools dropped
Merged-push local tools before dropped tool name rest e f n m =
    let new = upstream_tool name tool in
    record {
      added = new ∷ m.added;
      kept = m.kept ∙ append_assoc local (new ∷ []) m.added;
      foreign = (f, m.foreign);
      distinct = λ d. m.distinct (
          subst (λ ns. Distinct ns) (sym (names-append local (new ∷ [])))
            (Distinct-snoc (names local) name d
              (λ i. let t = member_complete name (names local) i in cc)));
      refused = λ h. m.refused (All-Taken-append local (new ∷ []) before h);
      listed = λ t k i e'. elim i [
        | inl p ↦
            let same =
              some-injective name k
                (sym e ∙ ap (λ z. get z (lit "name") >>= as_str) (sym p) ∙ e') in
            subst (λ ts. Taken ts k) (sym m.kept)
              (Taken-append (local ++ (new ∷ [])) m.added k (
                inr (
                  subst (λ ns. In k ns) (sym (names-append local (new ∷ [])))
                    (In-append_right k (names local) (name ∷ []) (inl (sym same))))))
        | inr i' ↦ m.listed t k i' e'
      ];
    }

-- One round of the loop, by the name that the tool has, and by whether that is refused.
unfoldable named :
    Value → List Value → List ToolDef → List Str → Str → Bool → List ToolDef × List Str
named tool rest local before name true = merge local (before ++ (name ∷ [])) rest
named tool rest local before name false =
    merge (local ++ (upstream_tool name tool ∷ [])) before rest

unfoldable next :
    Value → List Value → List ToolDef → List Str → Option Str → List ToolDef × List Str
unfolding named
next tool rest local before none = merge local before rest
next tool rest local before (some name) =
    named tool rest local before name (is_local_tool name || member name (names local))

Taken-of :
    (local : List ToolDef) (name : Str)
    → (is_local_tool name || member name (names local)) ≡ true
    → Taken local name
Taken-of local name h = elim (Bool-cases (is_local_tool name)) [
  | inl e ↦ inl e
  | inr e ↦ inr (member_sound name (names local) (rw e at h))
]

merge-Merged :
    (upstream : List Value) (local : List ToolDef) (before : List Str)
    → Merged local before upstream (merge local before upstream).0 (merge local before upstream).1
unfolding merge next
merge-Merged [] local before = record {
  added = [];
  kept = sym (append-nil local);
  foreign = tt;
  distinct = λ d. d;
  refused = λ h. h;
  listed = λ t name i e. absurd i;
}
merge-Merged (tool ∷ rest) local before = elim (Option-cases (get tool (lit "name") >>= as_str)) [
  | inl e ↦
      subst (λ (r : List ToolDef × List Str). Merged local before (tool ∷ rest) r.0 r.1)
        (sym (ap (next tool rest local before) e))
        (Merged-skip local (merge local before rest).0 before before (merge local before rest).1
          tool rest (λ h. h) (λ name f. let bad : none ≡ some name = sym e ∙ f in cc)
          (merge-Merged rest local before))
  | inr (name, e) ↦ elim (Bool-cases (is_local_tool name || member name (names local))) [
    | inl t ↦
        let before' = before ++ (name ∷ []) in
        let taken : Taken local name = Taken-of local name t in
        subst (λ (r : List ToolDef × List Str). Merged local before (tool ∷ rest) r.0 r.1)
          (sym (ap (next tool rest local before) e ∙ ap (named tool rest local before name) t))
          (Merged-skip local (merge local before' rest).0 before before'
            (merge local before' rest).1 tool rest
            (λ h. All-append (Taken local) before (name ∷ []) h (taken, tt))
            (λ k f. subst (λ z. Taken local z) (some-injective name k (sym e ∙ f)) taken)
            (merge-Merged rest local before'))
    | inr t ↦
        let local' = local ++ (upstream_tool name tool ∷ []) in
        subst (λ (r : List ToolDef × List Str). Merged local before (tool ∷ rest) r.0 r.1)
          (sym (ap (next tool rest local before) e ∙ ap (named tool rest local before name) t))
          (Merged-push local (merge local' before rest).0 before (merge local' before rest).1 tool
            name rest e (ground arith) (ground arith) (merge-Merged rest local' before))
  ]
]

-- The merged registry is the local one with further tools behind it. None of these has the prefix of
-- a local tool, and no name occurs twice if none does in the local registry. Every upstream tool that
-- has a name is found under it, or the name has that prefix; and so it is for every name dropped.
pub merge_registry_lem :
    (local : List ToolDef) (upstream : List Value)
    → Merged local [] upstream (merge_registry local upstream).0 (merge_registry local upstream).1
unfolding merge_registry
merge_registry_lem local upstream = merge-Merged upstream local []
