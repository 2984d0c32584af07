-- ===== src/Gateway/Types.antt =====
-- gateway/gateway.go and gateway/audit.go: a gateway, what it reads of a request, what it answers, and
-- the entry of the audit log.
use mcp_gateway_lite.Base.{ℕ, Bool, Bytes, List, Option}
use mcp_gateway_lite.Base.Dict.{Dict}
use mcp_gateway_lite.Base.Int.{ℤ}
use mcp_gateway_lite.Config.Types.{Upstream}
use mcp_gateway_lite.Policy.{ToolPolicy}
use mcp_gateway_lite.Lock.{PreparedLock}
use mcp_gateway_lite.PromptProof.{Scanner}
use mcp_gateway_lite.Ratelimit.{TokenBucket, SessionLimiter}
use mcp_gateway_lite.Rewrite.Body.{Response}

-- Entry, without the time and the duration, which the gateway reads off the clock.
pub record Entry : Type 0 where
  pub upstream : Bytes
  pub remote : Bytes
  pub http_method : Bytes
  pub path : Bytes
  pub session_id : Bytes
  pub protocol_version : Bytes
  pub rpc_methods : List Bytes
  pub rpc_ids : List Bytes
  pub tools : List Bytes
  pub rpc_batch : Bool
  pub rpc_invalid : Bool
  pub tools_filtered : ℕ
  pub tools_drift : Bool
  pub prompt_proof_verdict : Bytes
  pub prompt_proof_score : ℤ
  pub prompt_proof_categories : List Bytes
  pub prompt_proof_blocked : Bool
  pub prompt_proof_error : Bytes
  pub status : ℕ
  pub sse : Bool
  pub bytes_in : ℕ
  pub bytes_out : ℕ
  pub error : Bytes

-- `body` is what a read of the body gives, and `body_error` the error that the first bytes end in.
pub record Request : Type 0 where
  pub path : Bytes
  pub host : Bytes
  pub remote : Bytes
  pub http_method : Bytes
  pub session_id : Bytes
  pub protocol_version : Bytes
  pub body : Option Bytes
  pub body_error : Option Bytes

-- What the client gets: the informational codes before the status, and whether the body came to its end
-- or was broken off.
pub record Reply : Type 0 where
  pub informational : List ℕ
  pub status : ℕ
  pub content_type : Bytes
  pub retry_after : Option ℤ
  pub body : Bytes
  pub whole : Bool

-- The maps of a gateway that do not change. Its routes have the keys of `upstreams`.
pub record Gateway (F : Type 0) : Type 0 where
  pub public_base_url : Bytes
  pub upstreams : Dict (Upstream F)
  pub policies : Dict ToolPolicy
  pub locks : Dict PreparedLock
  pub scanners : Dict Scanner

-- The limiters, the entries that the auditor has logged, and the names of the upstreams that were
-- called, each in the order of the calls.
pub record State (F : Type 0) : Type 0 where
  pub limits : Dict (TokenBucket F)
  pub session_limits : Dict (SessionLimiter F)
  pub log : List Entry
  pub called : List Bytes

-- What the reverse proxy gets of an upstream.
pub data Forwarded : Type 0 where
  unreachable : Bytes → Forwarded
  responded : Response → Forwarded

-- The number of body bytes that the transport reads past the peeked ones, the informational codes that
-- the upstream sends first, whether the client leaves while the body is copied, and the outcome.
pub record Exchange : Type 0 where
  pub extra_in : ℕ
  pub informational : List ℕ
  pub client_left : Bool
  pub outcome : Forwarded

-- The readings of the clock that a rate limit takes.
pub record Clock : Type 0 where
  pub made : ℕ
  pub seen : ℕ
  pub t : ℕ
