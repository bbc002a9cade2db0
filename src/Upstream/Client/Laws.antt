-- ===== src/Upstream/Client/Laws.antt =====
-- What the calls of `HttpUpstream` in src/upstream.rs keep.
use figmog.Prelude.{
  [], ◌∷◌, ◌++◌, ap, ℕ, ◌+◌, ◌≡◌, ◌⊎◌, inl, inr, refl, ◌∙◌, Option, none, some, List, arith,
}
use figmog.Prelude.Text.{Str, lit}
use figmog.Json.{Value, Serde, get, as_str, as_array, ◌>>=◌ as ◌>>=?◌}
use figmog.Api.{Result, ok, err}
use figmog.Upstream.{
  UpstreamError, HttpUpstream, Posted, transport, answered, extract_result, init_request,
  initialized_note, list_request, call_request,
}
use figmog.Upstream.Client.{
  State, Run, on_result, next_request_id, posted, post, send_request, send_notification, set_tools,
  finish_handshake, initialize, call,
}

abbrev with_frame {ℓ} : {W : Type ℓ} → List Value → Value → W × Posted → (W × List Value) × Posted
with_frame frames body (w, p) = ((w, frames ++ (body ∷ [])), p)

-- An upstream that keeps the frames it was sent, the first at the front
abbrev pub recorded {ℓ} :
    {W : Type ℓ}
    → (W → Option Str × Option Str → Value → W × Posted)
    → W × List Value
    → Option Str × Option Str
    → Value
    → (W × List Value) × Posted
recorded send_json (w, frames) headers body = with_frame frames body (send_json w headers body)

module _ {ℓ} {W : Type ℓ} (sd : Serde)
    (send_json : W → Option Str × Option Str → Value → W × Posted) where
  -- The upstream of the section, its frames kept
  abbrev St : Type ℓ
  St = State sd (recorded send_json)

  -- What the first run leaves holds of the state that the second starts from.
  step :
      {A B : Type 0} (P : St × Result UpstreamError B → Type 0) (Q : St → Type 0)
      (r : St × Result UpstreamError A) (f : A → Run sd (recorded send_json) B)
      → Q r.0
      → ((a : A) (s : St) → Q s → P (f a s))
      → ((e : UpstreamError) (s : St) → Q s → P (s, err e))
      → P (on_result sd (recorded send_json) r f)
  step P Q (s, ok a) f q goes fails = goes a s q
  step P Q (s, err e) f q goes fails = fails e s q

  -- So many frames with an id have been sent, these are all the frames, and the tools are those
  -- from before.
  abbrev Sent : ℕ → List Value → HttpUpstream → St → Type 0
  Sent n frames u s = (s.1.next_id ≡ u.next_id + n) × (s.0.1 ≡ frames) × (s.1.tools ≡ u.tools)

  Sent-post :
      (n : ℕ) (frames : List Value) (body : Value) (u : HttpUpstream) (s : St)
      → Sent n frames u s
      → Sent n (frames ++ (body ∷ [])) u (post sd (recorded send_json) body s).0
  unfolding post
  Sent-post n frames body u ((w, log), v) (i, l, t) =
      by_answer (send_json w (v.session_id, v.protocol_version) body)
    where
      by_answer :
          (p : W × Posted)
          → Sent n
              (frames ++ (body ∷ []))
              u
              (posted sd (recorded send_json) (with_frame log body p) v).0
      by_answer (w', transport e) = (i, ap (λ fs. fs ++ (body ∷ [])) l, t)
      by_answer (w', answered session content_type text) = (i, ap (λ fs. fs ++ (body ∷ [])) l, t)

  Sent-send_request :
      (n : ℕ) (frames : List Value) (body : Value) (u : HttpUpstream) (s : St)
      → Sent n frames u s
      → Sent n (frames ++ (body ∷ [])) u (send_request sd (recorded send_json) body s).0
  unfolding send_request
  Sent-send_request n frames body u s q =
      step (λ r. Sent n (frames ++ (body ∷ [])) u r.0) (Sent n (frames ++ (body ∷ [])) u)
        (post sd (recorded send_json) body s) _ (Sent-post n frames body u s q) (λ a s q. q)
        (λ e s q. q)

  Sent-send_notification :
      (n : ℕ) (frames : List Value) (body : Value) (u : HttpUpstream) (s : St)
      → Sent n frames u s
      → Sent n (frames ++ (body ∷ [])) u (send_notification sd (recorded send_json) body s).0
  unfolding send_notification
  Sent-send_notification n frames body u s q =
      step (λ r. Sent n (frames ++ (body ∷ [])) u r.0) (Sent n (frames ++ (body ∷ [])) u)
        (post sd (recorded send_json) body s) _ (Sent-post n frames body u s q) (λ a s q. q)
        (λ e s q. q)

  -- A call sends one frame, under the id that is next, and whatever is answered, the tools stay as they
  -- are.
  pub call_lem :
      (name : Str) (args : Value) (w : W) (u : HttpUpstream)
      → Sent 1
          (call_request u.next_id name args ∷ [])
          u
          (call sd (recorded send_json) name args ((w, []), u)).0
  unfolding call next_request_id
  call_lem name args w u =
      let s₁ : St = ((w, []), record u { next_id = u.next_id + 1 }) in
      let body = call_request u.next_id name args in
      step (λ r. Sent 1 (body ∷ []) u r.0) (Sent 1 (body ∷ []) u)
        (send_request sd (recorded send_json) body s₁) _
        (Sent-send_request 1 [] body u s₁ (refl, refl, refl)) (λ a s q. q) (λ x s q. q)

  -- The frames of the handshake: `initialize` under the id that is next, the notification, and
  -- `tools/list` under the id after it.
  abbrev pub greeting : Str → HttpUpstream → List Value
  greeting version u = init_request version u.next_id ∷ []

  abbrev pub with_note : Str → HttpUpstream → List Value
  with_note version u = init_request version u.next_id ∷ initialized_note ∷ []

  abbrev pub handshake : Str → HttpUpstream → List Value
  handshake version u =
      init_request version u.next_id ∷ initialized_note ∷ list_request (u.next_id + 1) ∷ []

  abbrev pub Initialized : Str → HttpUpstream → St × Result {0, 0} UpstreamError Unit → Type 0
  Initialized version u (s, ok _) = (s.1.next_id ≡ u.next_id + 2) × (s.0.1 ≡ handshake version u)
  Initialized version u (s, err e) =
      Sent 1 (greeting version u) u s
      ⊎ (Sent 1 (with_note version u) u s ⊎ Sent 2 (handshake version u) u s)

  listed :
      (version : Str) (u : HttpUpstream) (tools : Option (List Value)) (s : St)
      → Sent 2 (handshake version u) u s
      → Initialized version u (set_tools sd (recorded send_json) tools s)
  listed version u none s q = inr (inr q)
  listed version u (some tools) s (i, l, t) = (i, l)

  -- The part of the handshake after the notification.
  asked :
      (version : Str) (u : HttpUpstream) (s : St)
      → Sent 1 (with_note version u) u s
      → Initialized version u (
          on_result sd
            (recorded send_json)
            (send_request sd
              (recorded send_json)
              (list_request s.1.next_id)
              (s.0, record s.1 { next_id = s.1.next_id + 1 }))
            (λ resp s'.
              on_result sd
                (recorded send_json)
                (s', extract_result resp)
                (λ result.
                  set_tools sd (recorded send_json) (get result (lit "tools") >>=? as_array))))
  asked version u s (i, l, t) =
      let s₂ : St = (s.0, record s.1 { next_id = s.1.next_id + 1 }) in
      let ready : Sent 2 (with_note version u) u s₂ = (omega (arith, i), l, t) in
      let sent = Sent-send_request 2 (with_note version u) (list_request s.1.next_id) u s₂ ready in
      step (Initialized version u) (Sent 2 (handshake version u) u)
        (send_request sd (recorded send_json) (list_request s.1.next_id) s₂) _
        (sent.0, sent.1 ∙ ap (λ n. with_note version u ++ (list_request n ∷ [])) i, sent.2)
        (λ resp s₃ q₃.
          step (Initialized version u) (Sent 2 (handshake version u) u) (s₃, extract_result resp) _
            q₃ (λ result s₄ q₄. listed version u (get result (lit "tools") >>=? as_array) s₄ q₄)
            (λ e s q. inr (inr q)))
        (λ e s q. inr (inr q))

  -- The part of the handshake after the answer to `initialize`.
  greeted :
      (version : Str) (u : HttpUpstream) (s : St)
      → Sent 1 (greeting version u) u s
      → Initialized version u (finish_handshake sd (recorded send_json) s)
  unfolding finish_handshake next_request_id
  greeted version u s q =
      step (Initialized version u) (Sent 1 (with_note version u) u)
        (send_notification sd (recorded send_json) initialized_note s) _
        (Sent-send_notification 1 (greeting version u) initialized_note u s q)
        (λ _ s₁ q₁. asked version u s₁ q₁) (λ e s q. inr (inl q))

  -- A handshake that succeeds has sent `initialize` under the id that was next, the notification, and
  -- `tools/list` under the id after it, in this order and nothing else, and has used the two ids. One
  -- that fails, at whatever step, has sent the frames up to that step and used the ids in them, and the
  -- tools are still those from before it.
  pub initialize_lem :
      (version : Str) (w : W) (u : HttpUpstream)
      → Initialized version u (initialize sd (recorded send_json) version ((w, []), u))
  unfolding initialize next_request_id finish_handshake
  initialize_lem version w u =
      let s₀ : St = ((w, []), record u { next_id = u.next_id + 1 }) in
      step (Initialized version u) (Sent 1 (greeting version u) u)
        (send_request sd (recorded send_json) (init_request version u.next_id) s₀) _
        (Sent-send_request 1 [] (init_request version u.next_id) u s₀ (refl, refl, refl))
        (λ resp s₁ q₁.
          step (Initialized version u) (Sent 1 (greeting version u) u) (s₁, extract_result resp) _
            q₁
            (λ result s₂ q₂.
              greeted version u
                (
                  s₂.0,
                  record s₂.1 { protocol_version = get result (lit "protocolVersion") >>=? as_str },
                )
                q₂)
            (λ e s q. inl q))
        (λ e s q. inl q)
