-- ===== src/Tests/Requests.antt =====
-- Requests: the summary, the policy, the rate limit, the configuration and the gateway.
use mcp_gateway_lite.Base.{
  true, Bytes, codes, same, trim_space, List, [], ◌∷◌, ◌++◌, none, ◌==◌, All, ◌≡◌, ◌≢◌, ◌↔◌, ◌⊎◌,
  inl, refl, arith,
}
use mcp_gateway_lite.Base.Dict.{lookup, insert}
use mcp_gateway_lite.Base.Int.{pos}
use mcp_gateway_lite.Rpc.{RpcSummary, empty_summary, summarize_rpc}
use mcp_gateway_lite.Rpc.Summary.{
  Collects, flagged, is_batch, is_refused, messages, summarize_rpc-Collects,
}
use mcp_gateway_lite.Policy.{policy_of, add_all, new_tool_policy, block_reason}
use mcp_gateway_lite.Policy.Decisions.{Permits, block_reason-Permits}
use mcp_gateway_lite.Canonical.Runes.{runes}
use mcp_gateway_lite.Canonical.Strings.{python_string-injective}
use mcp_gateway_lite.Config.{
  validate, check_upstreams, check_upstream, check_servers, validate_http_url, matches_name,
  all_name_chars, to_lower, any_blank,
}
use mcp_gateway_lite.PromptProof.{contains_string}
use mcp_gateway_lite.Config.Names.{DistinctNames, validate-names}
use mcp_gateway_lite.Ratelimit.{allow, new_session_limiter}
use mcp_gateway_lite.Ratelimit.Oldest.{SeenFirst}
use mcp_gateway_lite.Ratelimit.Table.{WellFormed, Full, allow-others}
use mcp_gateway_lite.Ratelimit.Runs.{Arrival, serve, new-serve-WellFormed}
use mcp_gateway_lite.Gateway.{name_of, mcp_prefix, peek}
use mcp_gateway_lite.Gateway.Handler.{handle_proxy}
use mcp_gateway_lite.Gateway.Audit.{Logged, Calls, handle_proxy-Logged, handle_proxy-Calls}
use mcp_gateway_lite.Gateway.Build.{
  built, new_gateway, add_upstreams, add_upstream, add_route, add_limit, add_policy, add_lock,
  add_scanner,
}
use mcp_gateway_lite.Lock.Prepare.{prepare_lock}
use mcp_gateway_lite.Gateway.Policies.{Served, new_gateway-Served}
use mcp_gateway_lite.Gateway.Enforcement.{new_gateway-Permits}
use mcp_gateway_lite.Gateway.Routes.{name_of-path}
use mcp_gateway_lite.Tests.Toy.{
  toy, whole, full_table, upstream_u, one_upstream, parse_any, gateway_u, guarded_config,
  guarded_upstream, guarded_building, quiet_world, idle, call_a, noon, echo,
}

-- A summary of a call of the tool a.
abbrev calls_a : RpcSummary
calls_a = record empty_summary { tools = (b'a' ∷ []) ∷ []; tool_calls = 1 }

summarize_rpc-Collects_example :
    Collects toy
      (flagged (is_batch toy (trim_space (14 ∷ []))) (is_refused toy (trim_space (14 ∷ []))))
      (messages toy (trim_space (14 ∷ [])))
      (summarize_rpc toy (14 ∷ []))
summarize_rpc-Collects_example = summarize_rpc-Collects toy (14 ∷ [])

block_reason-Permits_example :
    (block_reason (new_tool_policy (record upstream_u { tools_allow = (b'a' ∷ []) ∷ [] })) calls_a
      ≡ [])
    ↔ Permits ((b'a' ∷ []) ∷ []) [] calls_a
block_reason-Permits_example =
    block_reason-Permits (record upstream_u { tools_allow = (b'a' ∷ []) ∷ [] }) calls_a

-- The letter é, in UTF-8, with different texts behind it.
python_string-injective_example :
    (runes (195 ∷ 169 ∷ []) ≡ runes (195 ∷ 169 ∷ [])) × (Path Bytes (b'!' ∷ []) (b'!' ∷ []))
python_string-injective_example =
    python_string-injective (195 ∷ 169 ∷ []) (195 ∷ 169 ∷ []) (b'!' ∷ []) (b'!' ∷ []) refl

full_table-WellFormed : WellFormed full_table
unfolding lookup
full_table-WellFormed = record {
  room = omega arith;
  bound = omega arith;
  timed = λ k. ground arith;
}

allow-others_example :
    (lookup (b'p' ∷ []) (allow whole full_table (b'q' ∷ []) 7 8 9).1.buckets
      ≡ lookup (b'p' ∷ []) full_table.buckets)
    ⊎ ((lookup (b'q' ∷ []) full_table.buckets ≡ none)
        × Full full_table
        × SeenFirst (b'p' ∷ []) full_table.last_seen)
allow-others_example =
    allow-others whole full_table (b'q' ∷ []) 7 8 9 (b'p' ∷ []) full_table-WellFormed
      (λ e. ground arith)

abbrev two_requests : List Arrival
two_requests =
    record { session = b'p' ∷ []; made = 1; seen = 1; t = 1 }
    ∷ record { session = b'q' ∷ []; made = 2; seen = 2; t = 2 }
    ∷ []

new-serve-WellFormed_example :
    WellFormed (serve whole two_requests (new_session_limiter whole 1 (pos 2) (pos 1)))
new-serve-WellFormed_example = new-serve-WellFormed whole 1 (pos 2) (pos 1) two_requests

accepted : (validate (λ n. n == 0) parse_any one_upstream).0 ≡ none
unfolding validate check_upstreams check_upstream check_servers validate_http_url matches_name
    all_name_chars to_lower any_blank contains_string same codes
accepted = refl

validate-names_example :
    (one_upstream.upstreams ≢ [])
    × All (λ u. matches_name u.name ≡ true) one_upstream.upstreams
    × DistinctNames one_upstream.upstreams
validate-names_example = validate-names (λ n. n == 0) parse_any one_upstream accepted

u_matches : matches_name (b'u' ∷ []) ≡ true
unfolding matches_name all_name_chars
u_matches = refl

u_path : call_a.path ≡ mcp_prefix ++ ((b'u' ∷ []) ++ [])
unfolding mcp_prefix codes
u_path = refl

name_of-path_example : name_of call_a ≡ b'u' ∷ []
name_of-path_example = name_of-path call_a (b'u' ∷ []) [] u_matches tt u_path

handle_proxy-Logged_example :
    Logged toy whole echo gateway_u
      (name_of call_a)
      call_a
      idle
      (handle_proxy toy whole echo gateway_u call_a noon idle)
handle_proxy-Logged_example = handle_proxy-Logged toy whole echo gateway_u call_a noon idle

handle_proxy-Calls_example :
    Calls toy whole echo gateway_u
      (name_of call_a)
      call_a
      idle
      (handle_proxy toy whole echo gateway_u call_a noon idle).1
handle_proxy-Calls_example = handle_proxy-Calls toy whole echo gateway_u call_a noon idle

guarded_built : new_gateway whole quiet_world (λ n. n == 0) guarded_config ≡ built guarded_building
unfolding new_gateway validate check_upstreams check_upstream check_servers validate_http_url
    matches_name all_name_chars to_lower any_blank trim_space contains_string same codes
    add_upstreams add_upstream add_route add_limit add_policy add_lock add_scanner prepare_lock
    new_tool_policy policy_of add_all insert
guarded_built = refl

new_gateway-Served_example :
    All (Served whole quiet_world guarded_building) guarded_config.upstreams
new_gateway-Served_example =
    new_gateway-Served whole quiet_world (λ n. n == 0) guarded_config guarded_building guarded_built

u_named : name_of call_a ≡ b'u' ∷ []
u_named = name_of-path call_a (b'u' ∷ []) [] u_matches tt u_path

new_gateway-Permits_example :
    ((handle_proxy toy whole echo guarded_building.gateway call_a noon idle).1.called ≡ [])
    ⊎ (((handle_proxy toy whole echo guarded_building.gateway call_a noon idle).1.called
          ≡ (b'u' ∷ []) ∷ [])
        × Permits ((b'a' ∷ []) ∷ []) [] (peek toy call_a.body).0)
new_gateway-Permits_example =
    new_gateway-Permits toy whole echo quiet_world (λ n. n == 0) guarded_config guarded_building
      guarded_upstream call_a noon idle guarded_built (inl refl) u_named
