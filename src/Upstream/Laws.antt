-- ===== src/Upstream/Laws.antt =====
-- `parse_sse_last_event` of src/upstream.rs.
use figmog.Prelude.{
  ℕ, ◌≡◌, ◌⊎◌, inl, inr, refl, ap, ◌∙◌, false, Option, none, some, List, [], ◌∷◌, ◌++◌, map,
}
use figmog.Prelude.Tests.{◌==◌, nat_eq, Option-cases}
use figmog.Prelude.Lists.{All, All-append}
use figmog.Prelude.Text.{Str, lit, lines, push_first, join}
use figmog.Prelude.Splitting.{Without, split_missing}
use figmog.Json.{Value, Serde}
use figmog.Api.{ok, err}
use figmog.Upstream.{
  protocol, normalize, split_blank, data_lines, event_value, last_event, parse_sse_last_event,
}

module _ (sd : Serde) where
  abbrev pub Silent : Str → Type 0
  Silent event = event_value sd event ≡ none

  -- The event gives the value, and no later one gives any.
  abbrev pub LastSpeaks : List Str → Value → Type 0
  LastSpeaks events v =
      (before : List Str) × (event : Str) × (later : List Str) × (events
        ≡ before ++ (event ∷ later))
      × (event_value sd event ≡ some v)
      × All Silent later

  last_event-Silent :
      (last : Option Value) (event : Str) (events : List Str)
      → Silent event
      → last_event sd last (event ∷ events) ≡ last_event sd last events
  unfolding last_event
  last_event-Silent last event events h = rw (h, last_event) refl

  last_event_speaks :
      (last : Option Value) (event : Str) (events : List Str) (v : Value)
      → event_value sd event ≡ some v
      → last_event sd last (event ∷ events) ≡ last_event sd (some v) events
  unfolding last_event
  last_event_speaks last event events v h = rw (h, last_event) refl

  last_event_lem :
      (last : Option Value) (events : List Str)
      → (All Silent events × (last_event sd last events ≡ last))
        ⊎ ((v : Value) × (last_event sd last events ≡ some v) × LastSpeaks events v)
  unfolding last_event
  last_event_lem last [] = inl (tt, refl)
  last_event_lem last (event ∷ events) = elim (Option-cases (event_value sd event)) [
    | inl h ↦ elim (last_event_lem last events) [
      | inl (s, e) ↦ inl ((h, s), last_event-Silent last event events h ∙ e)
      | inr (v, e, (before, found, later, p, q, r)) ↦ inr (
        v,
        last_event-Silent last event events h ∙ e,
        (event ∷ before, found, later, ap (λ es. event ∷ es) p, q, r),
      )
    ]
    | inr (v, h) ↦ elim (last_event_lem (some v) events) [
      | inl (s, e) ↦
          inr (v, last_event_speaks last event events v h ∙ e, ([], event, events, refl, h, s))
      | inr (w, e, (before, found, later, p, q, r)) ↦ inr (
        w,
        last_event_speaks last event events v h ∙ e,
        (event ∷ before, found, later, ap (λ es. event ∷ es) p, q, r),
      )
    ]
  ]

  -- The answer of a stream is the value of its last event that has one, and an error exactly where no
  -- event has one.
  pub parse_sse_last_event_lem :
      (body : Str)
      → (All Silent (split_blank (normalize body))
          × (parse_sse_last_event sd body
              ≡ err (protocol (lit "no JSON-RPC event found in SSE stream"))))
        ⊎ ((v : Value) × (parse_sse_last_event sd body ≡ ok v)
            × LastSpeaks (split_blank (normalize body)) v)
  unfolding parse_sse_last_event
  parse_sse_last_event_lem body = elim (last_event_lem none (split_blank (normalize body))) [
    | inl (s, e) ↦ inl (s, rw (e, parse_sse_last_event) refl)
    | inr (v, e, speaks) ↦ inr (v, rw (e, parse_sse_last_event) refl, speaks)
  ]

normalize_same : (s : Str) → Without 13 s → normalize s ≡ s
unfolding normalize
normalize_same [] h = refl
normalize_same (c ∷ s) (p, h) = rw p (ap (λ t. c ∷ t) (normalize_same s h))

split_blank_step :
    (c d : ℕ) (s : Str)
    → (c == 10) ≡ false
    → split_blank (c ∷ d ∷ s) ≡ push_first c (split_blank (d ∷ s))
unfolding split_blank
split_blank_step c d s p = rw (p, split_blank) refl

split_blank-line :
    (e rest : Str) → Without 10 e → split_blank (e ++ (10 ∷ 10 ∷ rest)) ≡ e ∷ split_blank rest
unfolding split_blank
split_blank-line [] rest h = refl
split_blank-line (c ∷ []) rest (p, h) =
    split_blank_step c 10 (10 ∷ rest) p ∙ ap (push_first c) (split_blank-line [] rest tt)
split_blank-line (c ∷ d ∷ e) rest (p, h) =
    split_blank_step c d (e ++ (10 ∷ 10 ∷ rest)) p
    ∙ ap (push_first c) (split_blank-line (d ∷ e) rest h)

lines_one : (c : ℕ) (s : Str) → Without 10 (c ∷ s) → lines (c ∷ s) ≡ (c ∷ s) ∷ []
unfolding lines
lines_one c s h = rw (split_missing 10 (c ∷ s) h, lines) refl

-- A message on one line, as an event of a stream.
abbrev pub data_event : Str → Str
data_event message = lit "data: " ++ message

abbrev pub stream : List Str → Str
stream [] = []
stream (message ∷ messages) = data_event message ++ (10 ∷ 10 ∷ stream messages)

abbrev pub OneLine : Str → Type 0
OneLine message = Without 10 message × Without 13 message

data_event-OneLine : (message : Str) → OneLine message → OneLine (data_event message)
data_event-OneLine message (n, r) = (
  (refl, (refl, (refl, (refl, (refl, (refl, n)))))),
  (refl, (refl, (refl, (refl, (refl, (refl, r)))))),
)

stream-Without : (messages : List Str) → All OneLine messages → Without 13 (stream messages)
stream-Without [] h = tt
stream-Without (message ∷ messages) (o, h) =
    All-append (λ d. (d == 13) ≡ false) (data_event message) (10 ∷ 10 ∷ stream messages)
      (data_event-OneLine message o).1 (refl, (refl, stream-Without messages h))

split_blank-stream :
    (messages : List Str)
    → All OneLine messages
    → split_blank (stream messages) ≡ map data_event messages ++ ([] ∷ [])
unfolding split_blank
split_blank-stream [] h = refl
split_blank-stream (message ∷ messages) (o, h) =
    split_blank-line (data_event message) (stream messages) (data_event-OneLine message o).0
    ∙ ap (λ es. data_event message ∷ es) (split_blank-stream messages h)

module _ (sd : Serde) where
  event_value-data_event :
      (message : Str) → OneLine message → event_value sd (data_event message) ≡ sd.from_str message
  unfolding lines data_lines
  event_value-data_event message o =
      let one : lines (data_event message) ≡ data_event message ∷ [] =
        lines_one b'd' (lit "ata: " ++ message) (data_event-OneLine message o).0 in
      ap (λ ls. event_of (data_lines ls)) one
    where
      event_of : List Str → Option Value
      event_of [] = none
      event_of (d ∷ ds) = sd.from_str (join (10 ∷ []) (d ∷ ds))

  last_event-stream :
      (last : Option Value) (messages : List Str) (message : Str) (v : Value)
      → All OneLine messages
      → OneLine message
      → sd.from_str message ≡ some v
      → last_event sd last (map data_event (messages ++ (message ∷ [])) ++ ([] ∷ [])) ≡ some v
  unfolding last_event lines data_lines
  last_event-stream last [] message v h o p =
      last_event_speaks sd last (data_event message) ([] ∷ []) v
        (event_value-data_event message o ∙ p)
  last_event-stream last (m ∷ messages) message v (o', h) o p =
      let rest = map data_event (messages ++ (message ∷ [])) ++ ([] ∷ []) in
      elim (Option-cases (event_value sd (data_event m))) [
        | inl e ↦
            last_event-Silent sd last (data_event m) rest e
            ∙ last_event-stream last messages message v h o p
        | inr (w, e) ↦
            last_event_speaks sd last (data_event m) rest w e
            ∙ last_event-stream (some w) messages message v h o p
      ]

  -- Of a stream of messages, each on a line of its own, the answer is what the last message parses to,
  -- where it does, whatever the messages before it are.
  pub parse_sse_last_event-stream :
      (messages : List Str) (message : Str) (v : Value)
      → All OneLine messages
      → OneLine message
      → sd.from_str message ≡ some v
      → parse_sse_last_event sd (stream (messages ++ (message ∷ []))) ≡ ok v
  unfolding parse_sse_last_event
  parse_sse_last_event-stream messages message v h o p =
      let clean = All-append OneLine messages (message ∷ []) h (o, tt) in
      let text = stream (messages ++ (message ∷ [])) in
      let events : split_blank (normalize text)
          ≡ map data_event (messages ++ (message ∷ [])) ++ ([] ∷ []) =
        ap (λ t. split_blank t)
          (normalize_same text (stream-Without (messages ++ (message ∷ [])) clean))
        ∙ split_blank-stream (messages ++ (message ∷ [])) clean in
      rw
        (
          ap (λ es. last_event sd none es) events ∙ last_event-stream none messages message v h o p,
          parse_sse_last_event,
        )
        refl
