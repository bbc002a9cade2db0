-- ===== src/Upstream/Tests.antt =====
-- The client of src/upstream.rs against a small upstream, and its properties at it.
use figmog.Prelude.{ℕ, ◌+◌, ◌≡◌, refl, true, not, Option, none, some, [], ◌∷◌, ◌++◌}
use figmog.Prelude.Tests.{◌==◌, nat_eq, if◌then◌else◌}
use figmog.Prelude.Lists.{all}
use figmog.Prelude.Text.{Str, lit, str_beq, str_eq, lines, trim, split}
use figmog.Prelude.Splitting.{Without-of_all}
use figmog.Json.{Value, str, arr, nil, cons, object, Serde}
use figmog.Api.{ok}
use figmog.Upstream.{new, Posted, transport, answered, parse_sse_last_event, media_type}
use figmog.Upstream.Laws.{stream, OneLine, parse_sse_last_event-stream}
use figmog.Upstream.Client.{initialize}
use figmog.Upstream.Client.Laws.{recorded, Initialized, initialize_lem}

-- Texts parse to themselves, but for an empty one; the upstream below sends `tools`.
abbrev parse : Str → Option Value
parse [] = none
parse (c ∷ s) =
    if c ∷ s == lit "tools"
    then some (
        object
          ((lit "result", object ((lit "tools", arr (cons (str (lit "get_code")) nil)) ∷ [])) ∷ []))
    else some (str (c ∷ s))

abbrev serde : Serde
serde = record { to_string = λ v. []; from_str = parse; as_f64 = λ v. none; pointer = λ v p. none }

last_event_wins :
    parse_sse_last_event serde (
      lit "event: message"
      ++ (13 ∷ 10 ∷ lit "data: one"
          ++ (13 ∷ 10 ∷ 13 ∷ 10 ∷ lit "data:two" ++ (10 ∷ lit "data: three" ++ (10 ∷ 10 ∷ [])))))
    ≡ ok (str (lit "two" ++ (10 ∷ lit "three")))
unfolding parse_sse_last_event lines str_beq
last_event_wins = refl

media_types : media_type serde (lit " Text/Event-Stream ; charset=utf-8") ≡ lit "text/event-stream"
unfolding trim split
media_types = refl

plain :
    (s : Str) → all (λ d. not (d == 10)) s ≡ true → all (λ d. not (d == 13)) s ≡ true → OneLine s
plain s n r = (Without-of_all 10 s n, Without-of_all 13 s r)

parse_sse_last_event-stream_example :
    parse_sse_last_event serde (stream ((lit "one" ∷ []) ++ (lit "two" ∷ [])))
    ≡ ok (str (lit "two"))
unfolding str_beq
parse_sse_last_event-stream_example =
    parse_sse_last_event-stream serde (lit "one" ∷ []) (lit "two") (str (lit "two"))
      (plain (lit "one") refl refl, tt) (plain (lit "two") refl refl) refl

-- An upstream that counts the frames, names a session, and goes away after so many.
abbrev upstream : ℕ → ℕ → Option Str × Option Str → Value → ℕ × Posted
upstream limit n headers body =
    if limit == n
    then (n, transport (lit "refused"))
    else (n + 1, answered (some (lit "S")) (lit "application/json") (ok (lit "tools")))

shakes_hands : initialize serde (upstream 9) (lit "0.0.2") (0, new) ≡ (
  (3, record new { session_id = some (lit "S"); next_id = 3; tools = str (lit "get_code") ∷ [] }),
  ok tt,
)
unfolding initialize trim split str_beq
shakes_hands = refl

-- The last frame finds the upstream gone.
initialize_lem_example :
    Initialized serde
      (upstream 2)
      (lit "0.0.2")
      new
      (initialize serde (recorded (upstream 2)) (lit "0.0.2") ((0, []), new))
initialize_lem_example = initialize_lem serde (upstream 2) (lit "0.0.2") 0 new
