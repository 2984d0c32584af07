-- ===== src/Rewrite/Body.antt =====
-- gateway/responsefilter.go: whole response bodies, JSON and event streams. Of a response the model
-- keeps the status, the headers that the gateway reads or writes, and the body with the fault that a
-- read of it may meet; the status text and the transfer encoding are left out.
use mcp_gateway_lite.Base.{
  ℕ, Bool, true, false, not, ◌&&◌, ◌||◌, Bytes, codes, has_prefix, trim_space, List, [], ◌∷◌, ◌++◌,
  Option, none, some, is_nil, ltb, ◌==◌, length, concat, if◌then◌else◌,
}
use mcp_gateway_lite.Codec.{Codec}
use mcp_gateway_lite.Base.Int.{ℤ}
use mcp_gateway_lite.Rewrite.{
  RewriteState, MsgOutcome, msg_pass, msg_rewrite, msg_block, note_once, strict_code,
  handle_message, jsonrpc_error,
}
use mcp_gateway_lite.Sse.{Handler, Action, keep, replace, new_sse_rewriter, run, max_rpc_peek}

-- `content_length` is `none` where the length is unknown. `chunks` is the body as reads deliver it,
-- and `read_error` the error that its first bytes end in, if they do.
pub record Response : Type 0 where
  pub status_code : ℕ
  pub content_type : Bytes
  pub content_encoding : Bytes
  pub content_length : Option ℕ
  pub verdict_header : Bytes
  pub chunks : List Bytes
  pub read_error : Option Bytes

abbrev pub body_of : Response → Bytes
body_of resp = concat resp.chunks

unfoldable pub json_type : Bytes
unfolding codes
json_type = codes "application/json"

unfoldable pub event_stream_type : Bytes
unfolding codes
event_stream_type = codes "text/event-stream"

unfoldable pub swap_body : ℕ → Bytes → Response → Response
swap_body status body resp = record resp {
  status_code = status;
  content_type = json_type;
  content_encoding = [];
  content_length = some (length body);
  chunks = body ∷ [];
  read_error = none;
}

-- What a body becomes: it stays, it is replaced, or the response is blocked with a code.
pub data Decision : Type 0 where
  unchanged : Decision
  changed : Bytes → Decision
  refused : ℤ → Bytes → Decision
  failed : Decision

-- The loop over a batch: the messages that go out, and whether one was rewritten; or a refusal.
pub data Batch : Type 0 where
  sent : List Bytes → Bool → Batch
  stopped : ℤ → Bytes → Batch

module _ (codec : Codec) where
  unfoldable pub block_response_code : ℤ → Bytes → Response → RewriteState → Response × RewriteState
  unfolding swap_body
  block_response_code code reason resp st =
      (swap_body 403 (jsonrpc_error codec [] code reason ++ 10 ∷ []) resp, note_once reason st)

  unfoldable pub block_response : Bytes → Response → RewriteState → Response × RewriteState
  unfolding block_response_code
  block_response reason resp st = block_response_code (strict_code st) reason resp st

  abbrev pub put_first : Bytes → Bool → Batch → Batch
  put_first m rewritten (sent ms b) = sent (m ∷ ms) (rewritten || b)
  put_first m rewritten (stopped code reason) = stopped code reason

  unfoldable pub entry_reason : Bytes
  unfolding codes
  entry_reason = codes "tools/list response batch entry is not an object"

  unfoldable pub process_batch : List Bytes → RewriteState → Batch × RewriteState
  unfolding entry_reason
  process_batch [] st = (sent [] false, st)
  process_batch (m ∷ ms) st =
      let (o, st') = handle_message codec m st in
      let rest = process_batch ms st' in
      elim o.verdict [
        | msg_block ↦ (stopped o.code o.reason, st')
        | msg_rewrite ↦ (put_first o.out true rest.0, rest.1)
        | msg_pass ↦
            if o.invalid && st'.strict
            then (stopped (strict_code st') entry_reason, st')
            else (put_first m false rest.0, rest.1)
      ]

  abbrev pub decide_batch : Batch → Decision
  decide_batch (stopped code reason) = refused code reason
  decide_batch (sent ms false) = unchanged
  decide_batch (sent ms true) = elim (codec.encode_array ms) [
    | none ↦ failed
    | some text ↦ changed text
  ]

  unfoldable pub unparseable_reason : Bytes
  unfolding codes
  unparseable_reason = codes "tools/list response is not parseable JSON"

  unfoldable pub process_array : Option (List Bytes) → RewriteState → Decision × RewriteState
  unfolding process_batch unparseable_reason
  process_array none st =
      (if st.strict then refused (strict_code st) unparseable_reason else unchanged, st)
  process_array (some ms) st = let (b, st') = process_batch ms st in (decide_batch b, st')

  unfoldable pub process_single : Bytes → RewriteState → Decision × RewriteState
  unfolding unparseable_reason
  process_single body st =
      let (o, st') = handle_message codec body st in
      elim o.verdict [
        | msg_block ↦ (refused o.code o.reason, st')
        | msg_rewrite ↦ (changed o.out, st')
        | msg_pass ↦ (
          if o.invalid && st'.strict
              then refused (strict_code st') unparseable_reason
              else unchanged,
          st',
        )
      ]

  unfoldable pub process_trimmed : Bytes → RewriteState → Decision × RewriteState
  unfolding process_array process_single
  process_trimmed [] st = (unchanged, st)
  process_trimmed (c ∷ body) st =
      if c == b'['
      then process_array (codec.decode_array (c ∷ body)) st
      else process_single (c ∷ body) st

  -- `none` for the response is an error of ModifyResponse, which the proxy answers with a 502.
  abbrev pub carry_out : Response → Decision × RewriteState → Option Response × RewriteState
  carry_out resp (unchanged, st) = (some resp, st)
  carry_out resp (changed body, st) = (some (swap_body 200 body resp), st)
  carry_out resp (refused code reason, st) =
      let (r, st') = block_response_code code reason resp st in (some r, st')
  carry_out resp (failed, st) = (none, st)

  unfoldable pub too_large_reason : Bytes
  unfolding codes
  too_large_reason = codes "tools/list response exceeded the processing cap"

  unfoldable pub process_json_body : Response → RewriteState → Option Response × RewriteState
  unfolding process_trimmed block_response too_large_reason trim_space
  process_json_body resp st = elim resp.read_error [
    | some e ↦ (none, st)
    | none ↦
        if ltb max_rpc_peek (length (body_of resp))
        then (if st.strict
            then (let (r, st') = block_response too_large_reason resp st in (some r, st'))
            else (some resp, st))
        else carry_out resp (process_trimmed (trim_space (body_of resp)) st)
  ]

  -- The rewriter's view of the rewrite state: finishEvent's use of a message, and emitCapError.
  abbrev pub action_of : MsgOutcome × RewriteState → Action × RewriteState
  action_of (o, st) = elim o.verdict [
    | msg_pass ↦ (keep, st)
    | msg_rewrite ↦ (replace o.out, st)
    | msg_block ↦ (replace (jsonrpc_error codec o.id o.code o.reason), note_once o.reason st)
  ]

  unfoldable pub cap_reason : Bytes
  unfolding codes
  cap_reason = codes "tools/list SSE event exceeded the processing cap"

  abbrev pub sse_handler : Handler RewriteState
  sse_handler = record {
    strict = λ st. st.strict;
    on_message = λ st m. action_of (handle_message codec m st);
    cap_error = λ st. jsonrpc_error codec [] (strict_code st) cap_reason;
    note_cap = note_once cap_reason;
  }

  -- The whole stream, as it comes out in the end.
  unfoldable pub rewrite_stream : Response → RewriteState → Response × RewriteState
  rewrite_stream resp st =
      let r = run sse_handler (new_sse_rewriter st) resp.chunks in
      (record resp { content_length = none; chunks = r.out ∷ [] }, r.st)

  -- The header X-PromptProof-Verdict of a flagged JSON response.
  unfoldable pub annotate : Option Response × RewriteState → Option Response × RewriteState
  annotate (none, st) = (none, st)
  annotate (some resp, st) = (
    some (
        if st.scan_flagged && not (is_nil st.scan_verdict)
        then record resp { verdict_header = st.scan_verdict }
        else resp),
    st,
  )

  unfoldable pub content_type_reason : Bytes → Bytes
  unfolding codes
  content_type_reason ct =
      codes "tools/list response has unexpected content type " ++ codec.quote ct

  unfoldable pub modify_with : RewriteState → Response → Option Response × RewriteState
  unfolding annotate process_json_body rewrite_stream block_response content_type_reason
  modify_with st resp =
      if not (resp.status_code == 200)
      then (some resp, st)
      else if has_prefix json_type resp.content_type
      then annotate (process_json_body resp st)
      else if has_prefix event_stream_type resp.content_type
      then (let (r, st') = rewrite_stream resp st in (some r, st'))
      else if st.strict
      then (let (r, st') = block_response (content_type_reason resp.content_type) resp st in
          (some r, st'))
      else (some resp, st)

  -- A request without a rewrite state keeps its response.
  unfoldable pub modify_response :
      Option RewriteState → Response → Option Response × Option RewriteState
  unfolding modify_with
  modify_response none resp = (some resp, none)
  modify_response (some st) resp = let (r, st') = modify_with st resp in (r, some st')
