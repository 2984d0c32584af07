-- ===== src/Rewrite/Refusal.antt =====
-- Blocked messages in whole JSON responses, by gateway/responsefilter.go.
use mcp_gateway_lite.Base.{
  true, false, Bytes, List, [], ◌∷◌, ◌++◌, Option, none, some, ◌==◌, ◌≡◌, ◌⊎◌,
}
use mcp_gateway_lite.Base.Int.{ℤ}
use mcp_gateway_lite.Codec.{Codec}
use mcp_gateway_lite.Rewrite.{RewriteState, msg_block, handle_message, jsonrpc_error}
use mcp_gateway_lite.Rewrite.Body.{
  Response, body_of, Decision, refused, Batch, sent, stopped, json_type,
}

-- The response is a 403, and its whole body is a JSON-RPC error and a newline.
abbrev pub Forbidden : Codec → Option Response → Type 0
Forbidden codec none = ⊥
Forbidden codec (some r) =
    (r.status_code ≡ 403)
    × (r.content_type ≡ json_type)
    × (r.read_error ≡ none)
    × (code : ℤ) × (reason : Bytes) × (body_of r ≡ jsonrpc_error codec [] code reason ++ 10 ∷ [])

abbrev Stopped : Batch → Type 0
Stopped (sent ms b) = ⊥
Stopped (stopped code reason) = Unit

abbrev Refused : Decision → Type 0
Refused (refused code reason) = Unit
Refused _ = ⊥

module _ (codec : Codec) where
  -- Some message of the batch is blocked, each taken in the state that those before it leave.
  abbrev pub BlockedIn : RewriteState → List Bytes → Type 0
  BlockedIn st [] = ⊥
  BlockedIn st (m ∷ ms) =
      ((handle_message codec m st).0.verdict ≡ msg_block)
      ⊎ BlockedIn (handle_message codec m st).1 ms

  abbrev pub BlockedArray : RewriteState → Option (List Bytes) → Type 0
  BlockedArray st none = ⊥
  BlockedArray st (some ms) = BlockedIn st ms

  -- The body holds a blocked message, alone or in a batch.
  abbrev pub BlockedBody : RewriteState → Bytes → Type 0
  BlockedBody st [] = ⊥
  BlockedBody st (c ∷ body) =
      (((c == b'[') ≡ true) × BlockedArray st (codec.decode_array (c ∷ body)))
      ⊎ (((c == b'[') ≡ false) × ((handle_message codec (c ∷ body) st).0.verdict ≡ msg_block))
