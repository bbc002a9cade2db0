-- ===== src/Api/Requests.antt =====
-- The requests of `UreqApi` in src/api.rs, and the errors that its answers become.
use figmog.Prelude.{
  ℕ, ◌+◌, ◌-◌, ◌*◌, ◌^◌, Bool, true, false, ◌&&◌, ◌||◌, Option, none, some, List, [], ◌∷◌, ◌++◌,
}
use figmog.Prelude.Tests.{◌==◌, ltb, nat_eq, if◌then◌else◌}
use figmog.Prelude.Text.{Str, lit, is_digit, trim, join}
use figmog.Json.{Value, get, as_str}
use figmog.Api.{
  Result, ok, err, ◌>>=◌, ApiError, rate_limited, auth, http, network, parse, FileMetaResp,
}

-- `ok_or_else(|| ApiError::Parse(..))`
abbrev present : {A : Type 0} → Str → Option A → Result ApiError A
present message none = err (parse message)
present message (some a) = ok a

abbrev text_at : Value → Str → Option Str
text_at file k = elim (get file k) [ none ↦ none | some v ↦ as_str v ]

unfoldable pub parse_meta_response : Value → Result ApiError FileMetaResp
parse_meta_response v = do
  file ← present (lit "no `file` object") (get v (lit "file"))
  name ← present (lit "meta missing `name`") (text_at file (lit "name"))
  last_touched_at ←
      present (lit "meta missing `last_touched_at`") (text_at file (lit "last_touched_at"))
  ok (record { name = name; last_touched_at = last_touched_at })

unfoldable pub file_url : Str → Bool → Str
file_url key geometry =
    if geometry then lit "/v1/files/" ++ (key ++ lit "?geometry=paths") else lit "/v1/files/" ++ key

-- `scale` is given as it is printed.
unfoldable pub images_render_url : Str → List Str → Str → Option Str → Str
images_render_url key ids format scale =
    lit "/v1/images/"
    ++ (key
        ++ (lit "?ids="
            ++ (join (lit ",") ids ++ (lit "&format=" ++ (format ++ scale_part scale)))))
  where
    scale_part : Option Str → Str
    scale_part none = []
    scale_part (some s) = lit "&scale=" ++ s

unfoldable pub file_image_fills_url : Str → Str
file_image_fills_url key = lit "/v1/files/" ++ (key ++ lit "/images")

-- The digits of a `u64`, which end in an error on another byte or past `2 ^ 64`.
abbrev digits_of : ℕ → Str → Option ℕ
digits_of n [] = some n
digits_of n (c ∷ s) =
    let longer = n * 10 + (c - b'0') in
    let rest = digits_of longer s in if is_digit c && ltb longer (2 ^ 64) then rest else none

-- `s.parse::<u64>()`: a leading `+` is allowed
abbrev pub parse_u64 : Str → Option ℕ
parse_u64 [] = none
parse_u64 (c ∷ []) = digits_of 0 (c ∷ [])
parse_u64 (c ∷ d ∷ s) = if c == b'+' then digits_of 0 (d ∷ s) else digits_of 0 (c ∷ d ∷ s)

abbrev pub wait_of : Option Str → ℕ
wait_of none = 60
wait_of (some s) = elim (parse_u64 (trim s)) [ none ↦ 60 | some n ↦ n ]

unfoldable pub error_from_status : ℕ → Option Str → Str → ApiError
error_from_status status retry_after msg =
    if status == 429
    then rate_limited (wait_of retry_after)
    else if status == 401 || status == 403
    then auth
    else http status msg

-- What a GET gives: a body, or why it does not parse; a status that is no success, with the
-- `Retry-After` header and the body; or no answer.
pub data Fetched : Type 0 where
  body : Result Str Value → Fetched
  status : ℕ → Option Str → Str → Fetched
  unreached : Str → Fetched

unfoldable pub get_json : Fetched → Result ApiError Value
unfolding error_from_status
get_json (body (ok v)) = ok v
get_json (body (err e)) = err (parse e)
get_json (status code retry msg) = err (error_from_status code retry msg)
get_json (unreached e) = err (network e)

abbrev pub variables_local_is_gated : ApiError → Bool
variables_local_is_gated auth = true
variables_local_is_gated (http code _) = code == 404
variables_local_is_gated _ = false

abbrev pub gated : Result ApiError Value → Result ApiError (Option Value)
gated (ok v) = ok (some v)
gated (err e) = if variables_local_is_gated e then ok none else err e

unfoldable pub variables_local : Fetched → Result ApiError (Option Value)
unfolding get_json
variables_local answer = gated (get_json answer)
