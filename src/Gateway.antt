-- ===== src/Gateway.antt =====
-- gateway/gateway.go: the handler of a proxied request, from the route to the audit entry. The
-- upstream and the transport are the parameter `forward`: what they give for an upstream's name, a
-- path and a body. A handled request is one step; a response is what it is once it has been read.
pub mod Types
pub mod Handler
pub mod Build
pub mod Steps
pub mod Policies
pub mod Enforcement
pub mod Processes
pub mod Audit
pub mod Routes
use mcp_gateway_lite.Base.{
  ℕ, zero, suc, ◌+◌, Bool, true, false, not, ◌&&◌, ◌||◌, Bytes, codes, has_prefix, trim_prefix,
  trim_last, List, [], ◌∷◌, ◌++◌, Option, none, some, is_nil, leb, ltb, ◌==◌, length, if◌then◌else◌,
}
use mcp_gateway_lite.Base.Dict.{Dict, lookup, insert}
use mcp_gateway_lite.Base.Int.{ℤ, pos, negsuc, is_non_positive}
use mcp_gateway_lite.Codec.{Codec}
use mcp_gateway_lite.Config.Types.{Upstream}
use mcp_gateway_lite.Rpc.{RpcSummary, empty_summary, summarize_rpc}
use mcp_gateway_lite.Policy.{ToolPolicy, block_reason}
use mcp_gateway_lite.Lock.{PreparedLock}
use mcp_gateway_lite.PromptProof.{Scanner}
use mcp_gateway_lite.Ratelimit.{Float64, allow_bucket, allow}
use mcp_gateway_lite.Sse.{max_rpc_peek}
use mcp_gateway_lite.Rewrite.{RewriteState, has_allow, enforces, jsonrpc_error, policy_code}
use mcp_gateway_lite.Rewrite.Body.{Response, body_of, json_type, event_stream_type, modify_response}
use mcp_gateway_lite.Gateway.Types.{
  Entry, Request, Reply, Gateway, State, Forwarded, unreachable, responded, Exchange, Clock,
}

-- joinPath
unfoldable pub join_path : Bytes → Bytes → Bytes
unfolding trim_last has_prefix
join_path base suffix =
    let front = trim_last b'/' base in
    if is_nil suffix || is_nil (trim_prefix (b'/' ∷ []) suffix)
    then (if is_nil front then b'/' ∷ [] else front)
    else front ++ (if has_prefix (b'/' ∷ []) suffix then suffix else b'/' ∷ suffix)

-- The part of a path before the first slash.
unfoldable pub before_slash : Bytes → Bytes
before_slash [] = []
before_slash (c ∷ s) = let rest = before_slash s in if c == b'/' then [] else c ∷ rest

unfoldable pub mcp_prefix : Bytes
unfolding codes
mcp_prefix = codes "/mcp/"

-- The upstream that a path names.
unfoldable pub name_of : Request → Bytes
unfolding before_slash trim_prefix mcp_prefix
name_of r = before_slash (trim_prefix mcp_prefix r.path)

abbrev pub blank_entry : Entry
blank_entry = record {
  upstream = [];
  remote = [];
  http_method = [];
  path = [];
  session_id = [];
  protocol_version = [];
  rpc_methods = [];
  rpc_ids = [];
  tools = [];
  rpc_batch = false;
  rpc_invalid = false;
  tools_filtered = 0;
  tools_drift = false;
  prompt_proof_verdict = [];
  prompt_proof_score = pos 0;
  prompt_proof_categories = [];
  prompt_proof_blocked = false;
  prompt_proof_error = [];
  status = 0;
  sse = false;
  bytes_in = 0;
  bytes_out = 0;
  error = [];
}

-- The fields that every entry of a request to a known upstream has.
abbrev pub entry_for : Bytes → Request → Entry
entry_for name r = record blank_entry {
  upstream = name;
  remote = r.remote;
  http_method = r.http_method;
  path = r.path;
  session_id = r.session_id;
  protocol_version = r.protocol_version;
}

abbrev pub with_summary : RpcSummary → Entry → Entry
with_summary sum e = record e {
  rpc_methods = sum.methods;
  rpc_ids = sum.ids;
  tools = sum.tools;
  rpc_batch = sum.batch;
  rpc_invalid = sum.invalid;
}

-- The rewrite state's part of an entry.
abbrev pub with_rewrite : Option RewriteState → Entry → Entry
with_rewrite none e = e
with_rewrite (some rw) e = record e {
  tools_filtered = rw.filtered;
  tools_drift = rw.drift;
  prompt_proof_verdict = rw.scan_verdict;
  prompt_proof_score = rw.scan_score;
  prompt_proof_categories = rw.scan_categories;
  prompt_proof_blocked = rw.scan_blocked;
  prompt_proof_error = rw.scan_err;
  error = if not (is_nil rw.note) && is_nil e.error then rw.note else e.error;
}

-- The summary of the peeked body, and the number of the peeked bytes.
unfoldable pub peek : Codec → Option Bytes → RpcSummary × ℕ
unfolding summarize_rpc
peek codec none = (empty_summary, 0)
peek codec (some body) =
    if ltb max_rpc_peek (length body)
    then (record empty_summary { invalid = true }, suc max_rpc_peek)
    else (summarize_rpc codec body, length body)

abbrev pub new_rewrite_state : Bool → RewriteState
new_rewrite_state strict = record {
  ids = [];
  policy = none;
  lock = none;
  strict = strict;
  filtered = 0;
  drift = false;
  note = [];
  scanner = none;
  scan_ids = [];
  scan_verdict = [];
  scan_score = pos 0;
  scan_categories = [];
  scan_blocked = false;
  scan_flagged = false;
  scan_err = [];
}

abbrev pub is_some {ℓ} : {A : Type ℓ} → Option A → Bool
is_some none = false
is_some (some a) = true

-- The rewrite state of a request, if its response has to be looked at.
unfoldable pub rewrite_state :
    Option ToolPolicy → Option PreparedLock → Option Scanner → RpcSummary → Option RewriteState
rewrite_state pol lk sc sum =
    let need_list = (is_some pol || is_some lk) && not (is_nil sum.tools_list_ids) in
    let need_scan = is_some sc && not (is_nil sum.tools_call_ids) in
    let strict = has_allow pol || enforces lk in
    if need_list || need_scan
    then some (record (new_rewrite_state strict) {
      ids = if need_list then sum.tools_list_ids else [];
      policy = if need_list then pol else none;
      lock = if need_list then lk else none;
      scanner = if need_scan then sc else none;
      scan_ids = if need_scan then sum.tools_call_ids else [];
    })
    else none
