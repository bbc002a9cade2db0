-- ===== src/Api/Tests.antt =====
-- The answers of src/api.rs at a few responses.
use figmog.Prelude.{◌≡◌, ◌↔◌, refl, none, some, [], ◌∷◌}
use figmog.Prelude.Text.{lit, trim, str_beq}
use figmog.Json.{Value, str, object}
use figmog.Api.{ApiError, ok, err, rate_limited, parse}
use figmog.Api.Requests.{status, body, error_from_status, parse_meta_response, variables_local}
use figmog.Api.Laws.{Gates, Fails, variables_local_iff}

waits : error_from_status 429 (some (lit " 30 ")) [] ≡ rate_limited 30
unfolding error_from_status trim
waits = refl

waits_a_minute : error_from_status 429 (some (lit "soon")) [] ≡ rate_limited 60
unfolding error_from_status trim
waits_a_minute = refl

names_the_field :
    parse_meta_response (object ((lit "file", object ((lit "name", str (lit "F")) ∷ [])) ∷ []))
    ≡ err (parse (lit "meta missing `last_touched_at`"))
unfolding parse_meta_response str_beq
names_the_field = refl

variables_local_iff_example :
    ((variables_local (status 403 none []) ≡ ok none) ↔ Gates (status 403 none []))
    × ((v : Value)
        → (variables_local (status 403 none []) ≡ ok (some v)) ↔ (status 403 none [] ≡ body (ok v)))
    × ((e : ApiError)
        → (variables_local (status 403 none []) ≡ err e) ↔ Fails (status 403 none []) e)
variables_local_iff_example = variables_local_iff (status 403 none [])
