-- ===== src/Rewrite/Guarded/Streams.antt =====
-- Strict requests whose response is an event stream: the messages of gateway/responsefilter.go in the
-- events of gateway/sserewrite.go.
use mcp_gateway_lite.Base.{
  true, false, Bytes, List, [], ◌∷◌, ◌++◌, some, is_nil, concat, join, has_prefix, if◌then◌else◌,
  All, ◌≡◌, inl, inr, refl, ap, ◌∙◌,
}
use mcp_gateway_lite.Codec.{Codec}
use mcp_gateway_lite.Rewrite.{
  RewriteState, MsgOutcome, MsgVerdict, msg_pass, msg_rewrite, msg_block, handle_message,
}
use mcp_gateway_lite.Rewrite.Body.{
  action_of, sse_handler, event_stream_type, json_type, modify_with, rewrite_stream, Response,
}
use mcp_gateway_lite.Rewrite.Settings.{
  settings, Settings, handle_message-settings, note_once-settings,
}
use mcp_gateway_lite.Sse.{Action, keep, replace}
use mcp_gateway_lite.Sse.Streams.{PartsNoCrlf}
use mcp_gateway_lite.Sse.Events.{
  SseEvent, WithinCap, stream, payloads, rewritten, events_out, run-events,
}
use mcp_gateway_lite.Rewrite.Guarded.{Guarded, handler-Guarded}
use mcp_gateway_lite.Rewrite.Guarded.Kept.{Vetted-settings, scanned-settings}

-- The same of an event, by its payloads: one without data is kept.
abbrev pub GuardedEvent : Codec → RewriteState → List Bytes → Action → Type 0
GuardedEvent codec st [] a = a ≡ keep
GuardedEvent codec st (v ∷ vs) a = Guarded codec st (join 10 (v ∷ vs)) a

-- Every event of the list leaves as the text of the same place, in a guarded way.
abbrev pub EachGuarded : Codec → RewriteState → List SseEvent → List Bytes → Type 0
EachGuarded codec st [] [] = Unit
EachGuarded codec st [] (o ∷ os) = ⊥
EachGuarded codec st (e ∷ es) [] = ⊥
EachGuarded codec st (e ∷ es) (o ∷ os) =
    ((a : Action) × (o ≡ rewritten a e) × GuardedEvent codec st (payloads e.lines) a)
    × EachGuarded codec st es os

module _ (codec : Codec) where
  Guarded-settings :
      (s st : RewriteState) (m : Bytes) (a : Action)
      → settings s ≡ settings st
      → Guarded codec s m a
      → Guarded codec st m a
  Guarded-settings s st m keep e g = elim g [
    | inl a ↦ inl a
    | inr (inl b) ↦ inr (inl (scanned-settings codec s st (codec.decode_response m) e b))
    | inr (inr c) ↦ inr (inr (Vetted-settings codec s st (codec.decode_response m) e c))
  ]
  Guarded-settings s st m (replace out) e g =
      let policy : s.policy ≡ st.policy = ap (λ (q : Settings). q.policy) e in rw policy at g

  -- A message that the rewriter has of the payloads of an event, if there are any.
  abbrev decision : RewriteState → List Bytes → Action × RewriteState
  decision s vs = if is_nil vs then (keep, s) else (sse_handler codec).on_message s (join 10 vs)

  decision-Guarded :
      (s st : RewriteState) (vs : List Bytes)
      → st.strict ≡ true
      → settings s ≡ settings st
      → GuardedEvent codec st vs (decision s vs).0
  decision-Guarded s st [] on e = refl
  decision-Guarded s st (v ∷ vs) on e =
      let strict : s.strict ≡ st.strict = ap (λ (q : Settings). q.strict) e in
      Guarded-settings s st (join 10 (v ∷ vs)) _ e
        (handler-Guarded codec s (join 10 (v ∷ vs)) (strict ∙ on))

  action_of-settings :
      (o : MsgOutcome) (s : RewriteState) (v : MsgVerdict)
      → o.verdict ≡ v
      → settings (action_of codec (o, s)).1 ≡ settings s
  action_of-settings o s msg_pass e = rw e refl
  action_of-settings o s msg_rewrite e = rw e refl
  action_of-settings o s msg_block e = rw e (note_once-settings o.reason s)

  decision-settings : (s : RewriteState) (vs : List Bytes) → settings (decision s vs).1 ≡ settings s
  decision-settings s [] = refl
  decision-settings s (v ∷ vs) =
      action_of-settings (handle_message codec (join 10 (v ∷ vs)) s).0
        (handle_message codec (join 10 (v ∷ vs)) s).1 _ refl
      ∙ handle_message-settings codec (join 10 (v ∷ vs)) s

  events_out-Guarded :
      (s st : RewriteState) (es : List SseEvent)
      → st.strict ≡ true
      → settings s ≡ settings st
      → (outs : List Bytes) × (events_out (sse_handler codec) s es ≡ concat outs)
        × EachGuarded codec st es outs
  unfolding concat
  events_out-Guarded s st [] on e = ([], refl, tt)
  events_out-Guarded s st (v ∷ vs) on e =
      let d = decision s (payloads v.lines) in
      let (outs, same_text, each) =
        events_out-Guarded d.1 st vs on (decision-settings s (payloads v.lines) ∙ e) in
      (
        rewritten d.0 v ∷ outs,
        ap (rewritten d.0 v ++◌) same_text,
        ((d.0, refl, decision-Guarded s st (payloads v.lines) on e), each),
      )

  -- An event stream that answers a strict request, of events within the cap, comes out as one text per
  -- event. An event stays as it is only if it has no data, or its data cannot be decoded, goes to the
  -- scanner, or is a message that has no id of a tools/list request, or is an error, or lists tools
  -- that all have a name and are visible, without a drift that an enforced lock finds. In every other
  -- event the data are replaced, by the list of the visible tools alone or by a JSON-RPC error. The
  -- chunks are any that part no carriage return from its newline.
  pub modify_with-Guarded :
      (st : RewriteState) (resp : Response) (es : List SseEvent) (a : Bytes) (rest : List Bytes)
      → st.strict ≡ true
      → resp.status_code ≡ 200
      → has_prefix json_type resp.content_type ≡ false
      → has_prefix event_stream_type resp.content_type ≡ true
      → resp.chunks ≡ a ∷ rest
      → All WithinCap es
      → PartsNoCrlf a rest
      → a ++ concat rest ≡ stream es
      → (r : Response) × (outs : List Bytes) × ((modify_with codec st resp).0 ≡ some r)
        × (r.chunks ≡ concat outs ∷ [])
        × EachGuarded codec st es outs
  unfolding modify_with rewrite_stream
  modify_with-Guarded st resp es a rest on ok no_json stream_type cut fits parts whole =
      let (outs, same_text, each) = events_out-Guarded st st es on refl in
      let (out, final) = run-events (sse_handler codec) st es a rest fits parts whole in
      (
        (rewrite_stream codec resp st).0,
        outs,
        rw (ok, no_json, stream_type) refl,
        rw cut (ap (λ (x : Bytes). x ∷ []) (out ∙ same_text)),
        each,
      )
