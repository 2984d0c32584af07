-- ===== src/Rewrite/Observed.antt =====
-- Whole responses to requests that are only observed, by gateway/responsefilter.go.
use mcp_gateway_lite.Base.{
  false, not, ◌&&◌, Bytes, has_prefix, trim_space, List, [], ◌∷◌, append-nil, concat, Option, none,
  some, is_nil, ltb, ◌==◌, length, ◌≡◌, inl, inr, refl, ◌∙◌, Bool-cases, and-false,
}
use mcp_gateway_lite.Codec.{Codec}
use mcp_gateway_lite.Rewrite.{RewriteState, handle_message}
use mcp_gateway_lite.Rewrite.Body.{
  Response, body_of, Decision, unchanged, sent, process_batch, process_array, process_single,
  process_trimmed, process_json_body, carry_out, action_of, sse_handler, rewrite_stream, annotate,
  modify_with, json_type, event_stream_type,
}
use mcp_gateway_lite.Rewrite.Observing.{Observes, handle_message-Watched}
use mcp_gateway_lite.Sse.{keep, max_rpc_peek}
use mcp_gateway_lite.Sse.Transparency.{out-run}

-- A response that comes through with its status and its body.
abbrev pub SameResponse : Response → Option Response → Type 0
SameResponse resp none = ⊥
SameResponse resp (some r) = (r.status_code ≡ resp.status_code) × (body_of r ≡ body_of resp)

module _ (codec : Codec) where
  -- A decision that leaves the body, in an observed request.
  abbrev Left : Decision × RewriteState → Type 0
  Left (d, st) = (d ≡ unchanged) × Observes st

  process_batch-sent :
      (ms : List Bytes) (st : RewriteState)
      → Observes st
      → ((process_batch codec ms st).0 ≡ sent ms false) × Observes (process_batch codec ms st).1
  unfolding process_batch
  process_batch-sent [] st w = (refl, w)
  process_batch-sent (m ∷ ms) st w =
      let (passed, v) = handle_message-Watched codec m st w in
      let (rest, u) = process_batch-sent ms (handle_message codec m st).1 v in
      rw (process_batch, passed, v.lax, rest, and-false (handle_message codec m st).0.invalid)
        (refl, u)

  process_array-Left :
      (o : Option (List Bytes)) (st : RewriteState) → Observes st → Left (process_array codec o st)
  unfolding process_array
  process_array-Left none st w = (rw w.lax refl, w)
  process_array-Left (some ms) st w = let (e, v) = process_batch-sent ms st w in rw (e) (refl, v)

  process_single-Left :
      (m : Bytes) (st : RewriteState) → Observes st → Left (process_single codec m st)
  unfolding process_single
  process_single-Left m st w =
      let (passed, v) = handle_message-Watched codec m st w in
      rw (process_single, passed, v.lax, and-false (handle_message codec m st).0.invalid) (refl, v)

  process_trimmed-Left :
      (m : Bytes) (st : RewriteState) → Observes st → Left (process_trimmed codec m st)
  unfolding process_trimmed
  process_trimmed-Left [] st w = (refl, w)
  process_trimmed-Left (c ∷ m) st w = elim (Bool-cases (c == b'[')) [
    | inl e ↦ rw e (process_array-Left (codec.decode_array (c ∷ m)) st w)
    | inr e ↦ rw e (process_single-Left (c ∷ m) st w)
  ]

  sse-keep :
      (st : RewriteState) (m : Bytes)
      → Observes st
      → (((sse_handler codec).on_message st m).0 ≡ keep)
        × Observes ((sse_handler codec).on_message st m).1
  sse-keep st m w =
      let (passed, v) = handle_message-Watched codec m st w in rw (action_of, passed) (refl, v)

  carry_out-same :
      (resp : Response) (d : Decision × RewriteState)
      → Left d
      → SameResponse resp (carry_out codec resp d).0
  carry_out-same resp (d, st) (e, v) = rw e (refl, refl)

  process_json_body-same :
      (resp : Response) (st : RewriteState)
      → Observes st
      → resp.read_error ≡ none
      → SameResponse resp (process_json_body codec resp st).0
  unfolding process_json_body
  process_json_body-same resp st w e =
      elim (Bool-cases (ltb max_rpc_peek (length (body_of resp)))) [
        | inl long ↦ rw (process_json_body, e, long, w.lax) (refl, refl)
        | inr short ↦
            rw (process_json_body, e, short)
              (carry_out-same resp (process_trimmed codec (trim_space (body_of resp)) st)
                (process_trimmed-Left (trim_space (body_of resp)) st w))
      ]

  annotate-same :
      (resp : Response) (o : Option Response × RewriteState)
      → SameResponse resp o.0
      → SameResponse resp (annotate codec o).0
  unfolding annotate
  annotate-same resp (none, st) e = e
  annotate-same resp (some r, st) e =
      elim (Bool-cases (st.scan_flagged && not (is_nil st.scan_verdict))) [
        | inl flagged ↦ rw flagged e
        | inr plain ↦ rw plain e
      ]

  rewrite_stream-same :
      (resp : Response) (st : RewriteState)
      → Observes st
      → body_of (rewrite_stream codec resp st).0 ≡ body_of resp
  unfolding rewrite_stream concat
  rewrite_stream-same resp st w =
      append-nil _
      ∙ out-run (sse_handler codec) Observes (λ s v. v.lax) (λ s m v. sse-keep s m v) st resp.chunks
          w

  -- A request that is only observed, with no filter, with a lock that warns or none, and a scanner
  -- that flags or none, gets every response with the status and the body that the upstream sent,
  -- whatever the body's type, size and contents, if the first bytes of a JSON body can be read.
  pub modify_with-observed :
      (resp : Response) (st : RewriteState)
      → Observes st
      → resp.read_error ≡ none
      → SameResponse resp (modify_with codec st resp).0
  unfolding modify_with
  modify_with-observed resp st w e = elim (Bool-cases (resp.status_code == 200)) [
    | inr other ↦ rw other (refl, refl)
    | inl ok ↦ elim (Bool-cases (has_prefix json_type resp.content_type)) [
      | inl json ↦
          rw (ok, json)
            (annotate-same resp (process_json_body codec resp st)
              (process_json_body-same resp st w e))
      | inr not_json ↦ elim (Bool-cases (has_prefix event_stream_type resp.content_type)) [
        | inl stream ↦ rw (ok, not_json, stream) (refl, rewrite_stream-same resp st w)
        | inr neither ↦ rw (ok, not_json, neither, w.lax) (refl, refl)
      ]
    ]
  ]
