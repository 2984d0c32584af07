-- ===== src/Gateway/Handler.antt =====
-- gateway/gateway.go and gateway/wellknown.go: ServeHTTP and its handlers.
use mcp_gateway_lite.Base.{
  ℕ, ◌+◌, Bool, true, Bytes, codes, same, has_prefix, trim_prefix, trim_last, List, [], ◌∷◌, ◌++◌,
  Option, none, some, is_nil, length, if◌then◌else◌, ◌==◌, not, false,
}
use mcp_gateway_lite.Base.Dict.{lookup, insert}
use mcp_gateway_lite.Base.Int.{ℤ, pos, negsuc, is_non_positive, itoa}
use mcp_gateway_lite.Codec.{Codec}
use mcp_gateway_lite.Config.Types.{Upstream}
use mcp_gateway_lite.Rpc.{RpcSummary}
use mcp_gateway_lite.Policy.{block_reason}
use mcp_gateway_lite.Ratelimit.{Float64, allow_bucket, allow}
use mcp_gateway_lite.Rewrite.{RewriteState, jsonrpc_error, policy_code}
use mcp_gateway_lite.Rewrite.Body.{Response, body_of, json_type, event_stream_type, modify_response}
use mcp_gateway_lite.Gateway.{
  name_of, join_path, mcp_prefix, entry_for, with_summary, with_rewrite, peek, rewrite_state,
}
use mcp_gateway_lite.Gateway.Types.{
  Entry, Request, Reply, Gateway, State, Forwarded, unreachable, responded, Exchange, Clock,
}

-- resourceMetadata
pub record ResourceMetadata : Type 0 where
  pub resource : Bytes
  pub authorization_servers : List Bytes
  pub bearer_methods_supported : List Bytes
  pub resource_name : Bytes

-- What surrounds the handlers: the upstreams with the transport, by name, path and body; the path of a
-- URL; the encoding of the metadata; the text of an error of json.Marshal; and the seconds to wait,
-- math.Ceil(retry.Seconds()).
pub record Backend : Type 0 where
  pub forward : Bytes → Bytes → Option Bytes → Exchange
  pub path_of_url : Bytes → Bytes
  pub encode_metadata : ResourceMetadata → Bytes
  pub marshal_error : Bytes
  pub ceil_seconds : ℤ → ℤ

abbrev pub rate_code : ℤ
rate_code = negsuc 32001

abbrev pub unknown_code : ℤ
unknown_code = negsuc 32000

unfoldable pub unknown_upstream : Bytes
unfolding codes
unknown_upstream = codes "unknown upstream"

unfoldable pub rate_limited : Bytes
unfolding codes
rate_limited = codes "rate limited"

unfoldable pub upstream_unavailable : Bytes
unfolding codes
upstream_unavailable =
    codes
      "{\"jsonrpc\":\"2.0\",\"id\":null,\"error\":{\"code\":-32001,\"message\":\"upstream unavailable\"}}"

unfoldable pub read_failed : Bytes → Bytes
unfolding codes
read_failed e = codes "request body read: " ++ e

-- The whole seconds of a Retry-After header, one at least.
abbrev pub at_least_one : ℤ → ℤ
at_least_one n = if is_non_positive n then pos 1 else n

-- countingWriter.WriteHeader: the first code stays.
unfoldable pub write_header : ℕ → ℕ → ℕ
write_header status code = if status == 0 then code else status

unfoldable pub write_headers : ℕ → List ℕ → ℕ
unfolding write_header
write_headers status [] = status
write_headers status (c ∷ cs) = write_headers (write_header status c) cs

-- The status of the entry of a forwarded request.
unfoldable pub recorded_status : Reply → ℕ
unfolding write_headers write_header
recorded_status reply =
    let status = write_header (write_headers 0 reply.informational) reply.status in
    if status == 0 then 200 else status

-- The end of a request: the reply and its entry in the log.
abbrev pub logged : {F : Type 0} → Entry → Reply → State F → Reply × State F
logged e reply s = (reply, record s { log = s.log ++ e ∷ [] })

module _ {F : Type 0} (codec : Codec) (num : Float64 F) (back : Backend) where
  unfoldable pub write_json_error : ℕ → ℤ → Bytes → Reply
  unfolding jsonrpc_error
  write_json_error status code msg = record {
    informational = [];
    status = status;
    content_type = json_type;
    retry_after = none;
    body = jsonrpc_error codec [] code msg ++ 10 ∷ [];
    whole = true;
  }

  -- The rate limit of an upstream: the limiter by sessions where there is one, else the bucket.
  unfoldable pub limited : Bytes → Request → Clock → State F → (Bool × ℤ) × State F
  limited name r clock s = elim (lookup name s.session_limits) [
    | some l ↦
        let (answer, after) = allow num l r.session_id clock.made clock.seen clock.t in
        (answer, record s { session_limits = insert name after s.session_limits })
    | none ↦ elim (lookup name s.limits) [
      | some b ↦
          let (answer, after) = allow_bucket num b clock.t in
          (answer, record s { limits = insert name after s.limits })
      | none ↦ ((true, pos 0), s)
    ]
  ]

  -- The reply of the error handler, which writes nothing behind an informational code: the server then
  -- sends an empty body with status 200.
  abbrev pub failed_reply : List ℕ → Reply
  failed_reply codes_sent =
      if write_headers 0 codes_sent == 0
      then record {
        informational = codes_sent;
        status = 502;
        content_type = json_type;
        retry_after = none;
        body = upstream_unavailable ++ 10 ∷ [];
        whole = true;
      }
      else record {
        informational = codes_sent;
        status = 200;
        content_type = [];
        retry_after = none;
        body = [];
        whole = true;
      }

  -- The copying of a body is broken off where the body ends in an error or the client leaves.
  abbrev pub comes_whole : Option Bytes → Bool → Bool
  comes_whole none client_left = not client_left
  comes_whole (some e) client_left = false

  -- What the client gets for an exchange, the error of the proxy, and the rewrite state in the end.
  abbrev pub finished :
      Exchange
      → Response
      → Option Response × Option RewriteState
      → Reply × Bytes × Option RewriteState
  finished x resp (some out, rw) = (
    record {
      informational = x.informational;
      status = out.status_code;
      content_type = out.content_type;
      retry_after = none;
      body = body_of out;
      whole = comes_whole out.read_error x.client_left;
    },
    [],
    rw,
  )
  finished x resp (none, rw) = (
    failed_reply x.informational,
    elim resp.read_error [ some e ↦ e | none ↦ back.marshal_error ],
    rw,
  )

  abbrev pub concluded :
      Exchange → Forwarded → Option RewriteState → Reply × Bytes × Option RewriteState
  concluded x (unreachable e) rw = (failed_reply x.informational, e, rw)
  concluded x (responded resp) rw = finished x resp (modify_response codec rw resp)

  unfoldable pub proxied : Exchange → Option RewriteState → Reply × Bytes × Option RewriteState
  unfolding modify_response upstream_unavailable write_headers
  proxied x rw = concluded x x.outcome rw

  -- The entry of a forwarded request.
  unfoldable pub proxied_entry :
      Entry → RpcSummary → ℕ → Reply × Bytes × Option RewriteState → Entry
  unfolding recorded_status
  proxied_entry e sum bytes_in (reply, proxy_err, rw) =
      with_rewrite rw (record (with_summary sum e) {
        status = recorded_status reply;
        sse = has_prefix event_stream_type reply.content_type;
        bytes_in = bytes_in;
        bytes_out = length reply.body;
        error = if is_nil proxy_err then e.error else proxy_err;
      })

  -- The upstream's path for the request's.
  unfoldable pub target_path : Bytes → Bytes → Bytes → Bytes
  unfolding join_path mcp_prefix
  target_path base name path = join_path base (trim_prefix (mcp_prefix ++ name) path)

  -- Behind ServeHTTP of the proxy, which panics with ErrAbortHandler where the copying is broken off:
  -- the rest of handleProxy is then skipped, and with it the entry.
  abbrev pub ended : Entry → Reply → State F → Reply × State F
  ended e reply s = if reply.whole then logged e reply s else (reply, s)

  unfoldable pub forward_request :
      Gateway F → Bytes → Upstream F → Request → Entry → RpcSummary → ℕ → State F → Reply × State F
  unfolding proxied proxied_entry rewrite_state target_path
  forward_request g name u r e sum buffered s =
      let x = back.forward name (target_path (back.path_of_url u.url) name r.path) r.body in
      let done = proxied x (
        rewrite_state (lookup name g.policies) (lookup name g.locks) (lookup name g.scanners)
          sum) in
      ended (proxied_entry e sum (buffered + x.extra_in) done) done.0
        (record s { called = s.called ++ name ∷ [] })

  -- The entry once the body has been peeked at.
  abbrev pub peeked_entry : Bytes → Request → Entry
  peeked_entry name r = record (entry_for name r) {
    error = elim r.body_error [ none ↦ [] | some e ↦ read_failed e ];
  }

  unfoldable pub admit : Gateway F → Bytes → Upstream F → Request → State F → Reply × State F
  unfolding peek block_reason forward_request write_json_error read_failed
  admit g name u r s =
      let (sum, buffered) = peek codec r.body in
      let reason = block_reason (lookup name g.policies) sum in
      if is_nil reason
      then forward_request g name u r (peeked_entry name r) sum buffered s
      else logged
          (record (with_summary sum (peeked_entry name r)) {
            status = 403;
            bytes_in = buffered;
            error = reason;
          })
          (write_json_error 403 policy_code reason) s

  unfoldable pub handle_proxy : Gateway F → Request → Clock → State F → Reply × State F
  unfolding name_of limited admit write_json_error unknown_upstream rate_limited
  handle_proxy g r clock s =
      let name = name_of r in
      elim (lookup name g.upstreams) [
        | none ↦
            logged
              (record (entry_for [] r) {
                session_id = [];
                protocol_version = [];
                status = 404;
                error = unknown_upstream;
              })
              (write_json_error 404 unknown_code unknown_upstream) s
        | some u ↦
            let ((allowed, retry), after) = limited name r clock s in
            if allowed
            then admit g name u r after
            else logged (record (entry_for name r) { status = 429; error = rate_limited })
                (record (write_json_error 429 rate_code rate_limited) {
                  retry_after = some (at_least_one (back.ceil_seconds retry));
                })
                after
      ]

  unfoldable pub well_known_prefix : Bytes
  unfolding codes
  well_known_prefix = codes "/.well-known/oauth-protected-resource/mcp/"

  unfoldable pub metadata_of : Gateway F → Request → Bytes → Upstream F → ResourceMetadata
  unfolding codes trim_last mcp_prefix
  metadata_of g r name u =
      let base =
        if is_nil g.public_base_url then codes "http://" ++ r.host else g.public_base_url in
      record {
        resource = trim_last b'/' base ++ (mcp_prefix ++ name);
        authorization_servers = u.authorization_servers;
        bearer_methods_supported = codes "header" ∷ [];
        resource_name = u.resource_name;
      }

  unfoldable pub handle_well_known : Gateway F → Request → Reply
  unfolding well_known_prefix metadata_of write_json_error
  handle_well_known g r =
      let name = trim_prefix well_known_prefix r.path in
      elim (lookup name g.upstreams) [
        | none ↦ write_json_error 404 unknown_code (codes "unknown resource")
        | some u ↦ record {
          informational = [];
          status = 200;
          content_type = json_type;
          retry_after = none;
          body = back.encode_metadata (metadata_of g r name u);
          whole = true;
        }
      ]

  unfoldable pub handle_health : Gateway F → Reply
  unfolding codes itoa
  handle_health g = record {
    informational = [];
    whole = true;
    status = 200;
    content_type = json_type;
    retry_after = none;
    body =
        codes "{\"status\":\"ok\",\"upstreams\":"
        ++ (itoa (pos (length g.upstreams)) ++ codes "}\n");
  }

  -- ServeHTTP
  unfoldable pub serve_http : Gateway F → Request → Clock → State F → Reply × State F
  unfolding handle_health handle_well_known handle_proxy codes same has_prefix
  serve_http g r clock s =
      if same r.path (codes "/healthz")
      then (handle_health g, s)
      else if has_prefix well_known_prefix r.path
      then (handle_well_known g r, s)
      else if has_prefix mcp_prefix r.path
      then handle_proxy g r clock s
      else (write_json_error 404 unknown_code (codes "not found"), s)
