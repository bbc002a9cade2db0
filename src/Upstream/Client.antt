-- ===== src/Upstream/Client.antt =====
-- The handshake and the calls of `HttpUpstream` in src/upstream.rs.
pub mod Laws
use figmog.Prelude.{ℕ, ◌+◌, Option, none, some, List, ap}
use figmog.Prelude.Text.{Str, lit}
use figmog.Json.{Value, Serde, get, as_str, as_array, ◌>>=◌ as ◌>>=?◌}
use figmog.Api.{Result, ok, err}
use figmog.Upstream.{
  UpstreamError, protocol, unreachable, HttpUpstream, Posted, transport, answered, kept_session,
  body_of, parse_streamable_body, extract_result, init_request, initialized_note, list_request,
  call_request,
}

-- The upstream is a step on a state of its own; it is given the session, the negotiated version, and
-- the frame.
module _ {ℓ} {W : Type ℓ} (sd : Serde)
    (send_json : W → Option Str × Option Str → Value → W × Posted) where
  abbrev pub State : Type ℓ
  State = W × HttpUpstream

  abbrev pub Run : Type 0 → Type ℓ
  Run A = State → State × Result UpstreamError A

  abbrev pub on_result :
      {A B : Type 0} → State × Result UpstreamError A → (A → Run B) → State × Result UpstreamError B
  on_result (s, ok a) f = f a s
  on_result (s, err e) f = (s, err e)

  infixl 5 ◌>>=◌
  abbrev pub ◌>>=◌ : {A B : Type 0} → Run A → (A → Run B) → Run B
  (m >>= f) s = on_result (m s) f

  abbrev pub return : {A : Type 0} → A → Run A
  return a s = (s, ok a)

  abbrev pub lift : {A : Type 0} → Result UpstreamError A → Run A
  lift r s = (s, r)

  unfoldable pub next_request_id : Run ℕ
  next_request_id (w, u) = ((w, record u { next_id = u.next_id + 1 }), ok u.next_id)

  abbrev pub posted : W × Posted → HttpUpstream → State × Result UpstreamError (Str × Str)
  posted (w, transport e) u = ((w, u), err (unreachable e))
  posted (w, answered session content_type text) u =
      ((w, record u { session_id = kept_session session u.session_id }), body_of content_type text)

  unfoldable pub post : Value → Run (Str × Str)
  post body (w, u) = posted (send_json w (u.session_id, u.protocol_version) body) u

  unfoldable pub send_request : Value → Run Value
  unfolding post parse_streamable_body
  send_request body = do
    (content_type, text) ← post body
    lift (parse_streamable_body sd content_type text)

  unfoldable pub send_notification : Value → Run Unit
  unfolding post
  send_notification body = do (content_type, text) ← post body; return tt

  abbrev pub set_version : Value → Run Unit
  set_version result (w, u) =
      ((w, record u { protocol_version = get result (lit "protocolVersion") >>=? as_str }), ok tt)

  abbrev pub set_tools : Option (List Value) → Run Unit
  set_tools none s = (s, err (protocol (lit "tools/list result missing `tools` array")))
  set_tools (some tools) (w, u) = ((w, record u { tools = tools }), ok tt)

  -- What `initialize` does once the version is known.
  unfoldable pub finish_handshake : Run Unit
  unfolding next_request_id send_request send_notification extract_result
  finish_handshake = do
    _ ← send_notification initialized_note
    list_id ← next_request_id
    resp ← send_request (list_request list_id)
    result ← lift (extract_result resp)
    set_tools (get result (lit "tools") >>=? as_array)

  unfoldable pub initialize : Str → Run Unit
  unfolding next_request_id send_request extract_result finish_handshake
  initialize version = do
    id ← next_request_id
    resp ← send_request (init_request version id)
    result ← lift (extract_result resp)
    _ ← set_version result
    finish_handshake

  unfoldable pub call : Str → Value → Run Value
  unfolding next_request_id send_request extract_result
  call name args = do
    id ← next_request_id
    resp ← send_request (call_request id name args)
    lift (extract_result resp)
