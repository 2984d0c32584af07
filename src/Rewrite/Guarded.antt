-- ===== src/Rewrite/Guarded.antt =====
-- What a strict request lets become of the messages of a response, by gateway/responsefilter.go.
pub mod Kept
pub mod Streams
pub mod Bodies
pub mod Replies
use mcp_gateway_lite.Base.{
  ℕ, zero, suc, true, false, not, ◌||◌, ◌==◌, Bool, Bytes, List, [], ◌∷◌, ◌++◌, Option, none, some,
  is_nil, concat, join, has_prefix, same, if◌then◌else◌, All, ◌≡◌, ◌≢◌, ◌⊎◌, inl, inr, refl, sym,
  ap, ◌∙◌, Bool-cases,
}
use mcp_gateway_lite.Base.Dict.{Dict, lookup}
use mcp_gateway_lite.Base.Int.{ℤ}
use mcp_gateway_lite.Codec.{Codec, RpcResponseProbe}
use mcp_gateway_lite.Rpc.{is_present}
use mcp_gateway_lite.Policy.{ToolPolicy}
use mcp_gateway_lite.PromptProof.{Scanner, ScanReply, report, scan_error, triggers}
use mcp_gateway_lite.Rewrite.{
  RewriteState, MsgOutcome, MsgVerdict, msg_pass, msg_rewrite, msg_block, refuse, has_id, tools_key,
  new_result, rebuilt, flag_action, scanned_content, after_scan, scan_probe, scan_message,
  examine_tools, with_tools, with_tools_raw, with_result, with_probe, examine_message, has_scan_id,
  has_scanned_id, handle_message, jsonrpc_error,
}
use mcp_gateway_lite.Rewrite.Body.{
  action_of, sse_handler, event_stream_type, json_type, modify_with, rewrite_stream, Response,
}
use mcp_gateway_lite.Rewrite.Filter.{visible, select}
use mcp_gateway_lite.Rewrite.Examine.{Lists, ShowsVisible, examine_tools-ShowsVisible}
use mcp_gateway_lite.Rewrite.Strict.{Passed, Vetted, Cleared, with_probe-Vetted}
use mcp_gateway_lite.Rewrite.Settings.{
  settings, Settings, Examined, handle_message-Examined, handle_message-settings,
  note_once-settings,
}
use mcp_gateway_lite.Sse.{Action, keep, replace, run, new_sse_rewriter}
use mcp_gateway_lite.Sse.Streams.{PartsNoCrlf}
use mcp_gateway_lite.Sse.Events.{
  SseEvent, WithinCap, stream, payloads, rewritten, decide, events_out, run-events,
}

-- The text is the message with its list of tools cut down to the visible ones.
abbrev pub Filtered : Codec → Option ToolPolicy → Option RpcResponseProbe → Bytes → Type 0
Filtered codec policy none out = ⊥
Filtered codec policy (some probe) out =
    (result : Dict Bytes) × (els : List Bytes) × Lists codec probe result els
    × ShowsVisible codec policy probe result els msg_rewrite out

module _ (codec : Codec) (st : RewriteState) where
  refuse-stays : (id reason : Bytes) → (refuse st id reason).verdict ≢ msg_rewrite
  unfolding refuse
  refuse-stays id reason e = elim (Bool-cases st.strict) [
    | inl s ↦ absurd (cc (rw s at e))
    | inr s ↦ absurd (cc (rw s at e))
  ]

  module _ (probe : RpcResponseProbe) where
    with_tools-Filtered :
        (result : Dict Bytes) (raw : Bytes) (o : Option (List Bytes))
        → codec.decode_object probe.result ≡ some (some result)
        → lookup tools_key result ≡ some raw
        → codec.decode_array raw ≡ o
        → (with_tools codec probe result o st).0.verdict ≡ msg_rewrite
        → Filtered codec st.policy (some probe) (with_tools codec probe result o st).0.out
    with_tools-Filtered result raw none is_object has_tools e p = absurd (refuse-stays probe.id _ p)
    with_tools-Filtered result raw (some els) is_object has_tools e p = (
      result,
      els,
      record { raw = raw; is_object = is_object; has_tools = has_tools; is_array = e },
      rw p at (examine_tools-ShowsVisible codec [] st probe result els _ refl),
    )

    with_tools_raw-Filtered :
        (result : Dict Bytes) (o : Option Bytes)
        → codec.decode_object probe.result ≡ some (some result)
        → lookup tools_key result ≡ o
        → (with_tools_raw codec probe result o st).0.verdict ≡ msg_rewrite
        → Filtered codec st.policy (some probe) (with_tools_raw codec probe result o st).0.out
    with_tools_raw-Filtered result none is_object e p = absurd (refuse-stays probe.id _ p)
    with_tools_raw-Filtered result (some raw) is_object e p =
        with_tools-Filtered result raw (codec.decode_array raw) is_object e refl p

    with_result-Filtered :
        (o : Option (Option (Dict Bytes)))
        → codec.decode_object probe.result ≡ o
        → (with_result codec probe o st).0.verdict ≡ msg_rewrite
        → Filtered codec st.policy (some probe) (with_result codec probe o st).0.out
    with_result-Filtered none e p = absurd (refuse-stays probe.id _ p)
    with_result-Filtered (some none) e p = absurd (refuse-stays probe.id _ p)
    with_result-Filtered (some (some result)) e p =
        with_tools_raw-Filtered result (lookup tools_key result) e refl p

  -- Only a list of tools is rewritten.
  with_probe-Filtered :
      (o : Option RpcResponseProbe)
      → (with_probe codec o st).0.verdict ≡ msg_rewrite
      → Filtered codec st.policy o (with_probe codec o st).0.out
  with_probe-Filtered none p = absurd (cc p)
  with_probe-Filtered (some probe) p =
      elim (Bool-cases (is_nil probe.id || not (has_id st probe.id))) [
        | inl e ↦ absurd (cc (rw e at p))
        | inr e ↦ elim (Bool-cases (is_present probe.error)) [
          | inl f ↦ absurd (cc (rw (e, f) at p))
          | inr f ↦
              rw (e, f)
                (with_result-Filtered probe (codec.decode_object probe.result) refl
                  (rw (e, f) at p))
        ]
      ]

  after_scan-stays :
      (sc : Scanner) (probe : RpcResponseProbe) (r : ScanReply)
      → (after_scan sc probe r st).0.verdict ≢ msg_rewrite
  unfolding after_scan
  after_scan-stays sc probe (scan_error x) e = absurd (cc e)
  after_scan-stays sc probe (report res) e = elim (Bool-cases (triggers sc res.verdict)) [
    | inr x ↦ absurd (cc (rw x at e))
    | inl x ↦ elim (Bool-cases (same sc.action flag_action)) [
      | inl y ↦ absurd (cc (rw (x, y) at e))
      | inr y ↦ absurd (cc (rw (x, y) at e))
    ]
  ]

  scan_probe-stays :
      (sc : Scanner) (o : Option RpcResponseProbe)
      → (scan_probe codec sc o st).0.verdict ≢ msg_rewrite
  scan_probe-stays sc none e = absurd (cc e)
  scan_probe-stays sc (some probe) e = elim (Bool-cases (is_present probe.error)) [
    | inl x ↦ absurd (cc (rw x at e))
    | inr x ↦ elim (Bool-cases (is_nil probe.result)) [
      | inl y ↦ absurd (cc (rw (x, y) at e))
      | inr y ↦
          after_scan-stays sc probe (sc.reply (scanned_content codec probe.result)) (rw (x, y) at e)
    ]
  ]

-- The text is a JSON-RPC error.
abbrev pub IsRefusal : Codec → Bytes → Type 0
IsRefusal codec out =
    (id : Bytes) × (code : ℤ) × (reason : Bytes) × (out ≡ jsonrpc_error codec id code reason)

-- What a strict request lets become of a message. It is kept only if it cannot be decoded, or goes to
-- the scanner, or is vetted; and it is replaced only by the same message with the visible tools alone,
-- or by an error.
abbrev pub Guarded : Codec → RewriteState → Bytes → Action → Type 0
Guarded codec st m keep =
    (codec.decode_response m ≡ none)
    ⊎ (has_scanned_id (codec.decode_response m) st ≡ true)
    ⊎ Vetted codec st (codec.decode_response m)
Guarded codec st m (replace out) =
    Filtered codec st.policy (codec.decode_response m) out ⊎ IsRefusal codec out

module _ (codec : Codec) where
  by_verdict :
      (G : Action → Type 0) (o : MsgOutcome) (s : RewriteState) (v : MsgVerdict)
      → o.verdict ≡ v
      → (v ≡ msg_pass → G keep)
      → (v ≡ msg_rewrite → G (replace o.out))
      → G (replace (jsonrpc_error codec o.id o.code o.reason))
      → G (action_of codec (o, s)).0
  by_verdict G o s msg_pass e p r b = rw e (p refl)
  by_verdict G o s msg_rewrite e p r b = rw e (r refl)
  by_verdict G o s msg_block e p r b = rw e b

  with_probe-Guarded :
      (st : RewriteState) (m : Bytes) (o : Option RpcResponseProbe)
      → st.strict ≡ true
      → Passed (with_probe codec o st).0
      → (o ≡ none) ⊎ (has_scanned_id o st ≡ true) ⊎ Vetted codec st o
  with_probe-Guarded st m none on p = inl refl
  with_probe-Guarded st m (some probe) on p = inr (inr (with_probe-Vetted codec st on probe p))

  -- Only a list of tools is rewritten, and not for a scanner.
  pub handle_message-Filtered :
      (m : Bytes) (st : RewriteState)
      → (handle_message codec m st).0.verdict ≡ msg_rewrite
      → Filtered codec st.policy (codec.decode_response m) (handle_message codec m st).0.out
  unfolding examine_message scan_message
  handle_message-Filtered m st p = elim (handle_message-Examined codec m st) [
    | inl e ↦ rw e (with_probe-Filtered codec st (codec.decode_response m) (rw e at p))
    | inr (sc, e, f, g) ↦
        absurd (scan_probe-stays codec st sc (codec.decode_response m) (rw g at p))
  ]

  -- A strict request guards what it lets become of a message.
  pub handler-Guarded :
      (st : RewriteState) (m : Bytes)
      → st.strict ≡ true
      → Guarded codec st m (action_of codec (handle_message codec m st)).0
  unfolding examine_message scan_message
  handler-Guarded st m on =
      by_verdict (Guarded codec st m) (handle_message codec m st).0 (handle_message codec m st).1
        (handle_message codec m st).0.verdict refl passes
        (λ p. inl (handle_message-Filtered m st p)) (inr (_, _, _, refl))
    where
      examined : Examined codec m st
      examined = handle_message-Examined codec m st

      passes : (handle_message codec m st).0.verdict ≡ msg_pass → Guarded codec st m keep
      passes p = elim examined [
        | inl e ↦ with_probe-Guarded st m (codec.decode_response m) on (rw e at p)
        | inr (sc, e, f, g) ↦ inr (inl f)
      ]
