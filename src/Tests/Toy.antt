-- ===== src/Tests/Toy.antt =====
-- A codec of one-byte tokens, an upstream and a float64 of whole numbers, to run the definitions on.
use mcp_gateway_lite.Base.{
  ℕ, suc, ◌+◌, ◌-◌, ◌*◌, ◌/◌, Bool, true, false, Bytes, List, [], ◌∷◌, Option, none, some, leb, ltb,
  ◌==◌, concat, if◌then◌else◌,
}
use mcp_gateway_lite.Base.Dict.{Dict}
use mcp_gateway_lite.Base.Int.{pos, to_ℕ}
use mcp_gateway_lite.Codec.{Codec, RpcProbe, RpcResponseProbe, ToolProbe}
use mcp_gateway_lite.Config.Types.{Upstream, Config}
use mcp_gateway_lite.Config.{ParsedUrl}
use mcp_gateway_lite.PromptProof.{Scanner, ScanResult, report}
use mcp_gateway_lite.Policy.{ToolPolicy}
use mcp_gateway_lite.Lock.{PreparedLock}
use mcp_gateway_lite.Rewrite.{RewriteState}
use mcp_gateway_lite.Rewrite.Body.{Response}
use mcp_gateway_lite.Ratelimit.{Float64, SessionLimiter}
use mcp_gateway_lite.Sse.{Handler, SseRewriter, keep, max_rpc_peek}
use mcp_gateway_lite.Gateway.Types.{Gateway, State, Request, responded, Clock}
use mcp_gateway_lite.Gateway.Handler.{Backend}
use mcp_gateway_lite.Gateway.Build.{World, Building}
use mcp_gateway_lite.Lock.Prepare.{missing}

-- The answer to a tools/list with id 1 that lists the tools a and b, and the answer to a tools/call
-- with id 2 whose text is dangerous.
abbrev pub list_answer : Bytes
list_answer = 1 ∷ []

abbrev pub call_answer : Bytes
call_answer = 2 ∷ []

abbrev pub list_probe : RpcResponseProbe
list_probe = record { jsonrpc = []; id = b'1' ∷ []; result = 3 ∷ []; error = [] }

abbrev pub call_probe : RpcResponseProbe
call_probe = record { jsonrpc = []; id = b'2' ∷ []; result = 4 ∷ []; error = [] }

abbrev pub tool_list : List Bytes
tool_list = (6 ∷ []) ∷ (7 ∷ []) ∷ []

abbrev pub list_result : Dict Bytes
list_result = ((b't' ∷ b'o' ∷ b'o' ∷ b'l' ∷ b's' ∷ []), 5 ∷ []) ∷ []

-- The token that a text begins with.
abbrev token : Bytes → ℕ
token [] = 0
token (c ∷ s) = c

abbrev response_of : Bytes → Option RpcResponseProbe
response_of s =
    if token s == 1 then some list_probe else if token s == 2 then some call_probe else none

abbrev object_of : Bytes → Option (Option (Dict Bytes))
object_of s = if token s == 3 then some (some list_result) else none

abbrev array_of : Bytes → Option (List Bytes)
array_of s =
    if token s == 5
    then some tool_list
    else if token s == b'['
    then some (list_answer ∷ call_answer ∷ [])
    else none

abbrev toy_name : Bytes → Option Bytes
toy_name s =
    if token s == 6 then some (b'a' ∷ []) else if token s == 7 then some (b'b' ∷ []) else none

abbrev toy_tool : Bytes → Option ToolProbe
toy_tool s =
    if token s == 6
    then some
        (record { name = b'a' ∷ []; description = []; input_schema = []; input_schema_alt = [] })
    else none

abbrev string_of : Bytes → Option Bytes
string_of s = if token s == 4 then some (b'x' ∷ []) else none

-- The token 14 is a tools/call of the tool a, with id 2.
abbrev request_of : Bytes → Option RpcProbe
request_of s =
    if token s == 14
    then some (record {
      method = b't' ∷ b'o' ∷ b'o' ∷ b'l' ∷ b's' ∷ b'/' ∷ b'c' ∷ b'a' ∷ b'l' ∷ b'l' ∷ [];
      id = b'2' ∷ [];
      params = 6 ∷ [];
    })
    else none

abbrev pub toy : Codec
toy = record {
  decode_request = request_of;
  decode_batch = λ s. none;
  decode_name = toy_name;
  decode_response = response_of;
  decode_object = object_of;
  decode_array = array_of;
  decode_string = string_of;
  decode_tool = toy_tool;
  decode_value = λ s. none;
  decode_report = λ s. none;
  encode_string = λ s. s;
  encode_array = λ els. some (concat els);
  encode_object = λ m. some (20 ∷ []);
  error_text = λ s. b'e' ∷ s;
  sha256 = λ s. s;
  quote = λ s. s;
}

abbrev pub dangerous_result : ScanResult
dangerous_result = record {
  verdict = b'd' ∷ b'a' ∷ b'n' ∷ b'g' ∷ b'e' ∷ b'r' ∷ b'o' ∷ b'u' ∷ b's' ∷ [];
  score = pos 9;
  categories = (b'c' ∷ []) ∷ [];
}

-- A scanner that finds every text dangerous, with the action `action`.
abbrev pub alarm : Bytes → Scanner
alarm action = record {
  bin = [];
  args = [];
  threshold = 2;
  action = action;
  size = 1;
  reply = λ s. report dangerous_result;
}

abbrev pub flag : Bytes
flag = b'f' ∷ b'l' ∷ b'a' ∷ b'g' ∷ []

abbrev pub blank : RewriteState
blank = record {
  ids = (b'1' ∷ []) ∷ [];
  policy = none;
  lock = none;
  strict = false;
  filtered = 0;
  drift = false;
  note = [];
  scanner = none;
  scan_ids = [];
  scan_verdict = [];
  scan_score = pos 0;
  scan_categories = [];
  scan_blocked = false;
  scan_flagged = false;
  scan_err = [];
}

-- Only the tool a is allowed.
abbrev pub only_a : ToolPolicy
only_a = record { allow = some ((b'a' ∷ [], true) ∷ []); deny = none }

abbrev pub lock_a : PreparedLock
lock_a = record {
  file = [];
  server = [];
  enforce = true;
  whole_hash = [];
  detail = (b'z' ∷ [], []) ∷ [];
}

abbrev pub with_scanner : Bytes → RewriteState
with_scanner action = record blank { scanner = some (alarm action); scan_ids = (b'2' ∷ []) ∷ [] }

abbrev pub json_response : Bytes → Response
json_response body = record {
  status_code = 200;
  content_type =
      b'a' ∷ b'p' ∷ b'p' ∷ b'l' ∷ b'i' ∷ b'c' ∷ b'a' ∷ b't' ∷ b'i' ∷ b'o' ∷ b'n' ∷ b'/' ∷ b'j'
      ∷ b's' ∷ b'o' ∷ b'n' ∷ [];
  content_encoding = [];
  content_length = none;
  verdict_header = [];
  chunks = body ∷ [];
  read_error = none;
}

-- Numbers that stop at zero; a second is a unit, as a nanosecond is.
abbrev pub whole : Float64 ℕ
whole = record {
  of_int = to_ℕ;
  seconds = λ a b. a - b;
  nanoseconds = pos;
  plus = λ a b. a + b;
  minus = λ a b. a - b;
  times = λ a b. a * b;
  over = λ a b. a / b;
  min = λ a b. if leb a b then a else b;
  less = ltb;
  at_most = leb;
}

-- A limiter of two sessions, which is full.
abbrev pub full_table : SessionLimiter ℕ
full_table = record {
  rps = 1;
  burst = pos 2;
  max = 1;
  buckets = (b'p' ∷ [], record { rps = 1; burst = 2; tokens = 0; last = 5 }) ∷ [];
  last_seen = (b'p' ∷ [], 5) ∷ [];
}

-- A handler that counts the messages, lax or strict.
abbrev pub counting : Bool → Handler ℕ
counting strict = record {
  strict = λ n. strict;
  on_message = λ n m. (keep, suc n);
  cap_error = λ n. [];
  note_cap = λ n. n;
}

abbrev pub full_event : SseRewriter ℕ
full_event = record {
  st = 0;
  out = [];
  line = [];
  ev_lines = [];
  ev_is_data = [];
  ev_data = [];
  ev_size = max_rpc_peek;
  raw = false;
  discard = false;
  bstate = 0;
}

abbrev pub upstream_u : Upstream ℕ
upstream_u = record {
  name = b'u' ∷ [];
  url = b'h' ∷ [];
  header_timeout_seconds = pos 0;
  rate_limit = none;
  tools_allow = [];
  tools_deny = [];
  tools_lock = none;
  prompt_proof = none;
  authorization_servers = [];
  resource_name = [];
}

abbrev pub one_upstream : Config ℕ
one_upstream = record {
  listen = [];
  public_base_url = [];
  audit = record { path = [] };
  upstreams = upstream_u ∷ [];
}

abbrev pub parse_any : Bytes → Option ParsedUrl
parse_any raw =
    some (record {
      scheme = b'h' ∷ b't' ∷ b't' ∷ b'p' ∷ [];
      host = raw;
      raw_query = [];
      fragment = [];
    })

abbrev pub gateway_u : Gateway ℕ
gateway_u = record {
  public_base_url = [];
  upstreams = (b'u' ∷ [], upstream_u) ∷ [];
  policies = (b'u' ∷ [], only_a) ∷ [];
  locks = [];
  scanners = [];
}

abbrev pub idle : State ℕ
idle = record { limits = []; session_limits = []; log = []; called = [] }

-- A tools/call of the tool a at /mcp/u.
abbrev pub call_a : Request
call_a = record {
  path = b'/' ∷ b'm' ∷ b'c' ∷ b'p' ∷ b'/' ∷ b'u' ∷ [];
  host = [];
  remote = [];
  http_method = [];
  session_id = [];
  protocol_version = [];
  body = some (14 ∷ []);
  body_error = none;
}

abbrev pub noon : Clock
noon = record { made = 12; seen = 12; t = 12 }

abbrev pub echo : Backend
echo = record {
  forward = λ name path body. record {
    extra_in = 0;
    informational = [];
    client_left = false;
    outcome = responded (json_response call_answer);
  };
  path_of_url = λ u. [];
  encode_metadata = λ m. [];
  marshal_error = [];
  ceil_seconds = λ n. n;
}

-- The upstream with an allowlist, and the gateway that is built for it.
abbrev pub guarded_upstream : Upstream ℕ
guarded_upstream = record upstream_u { tools_allow = (b'a' ∷ []) ∷ [] }

abbrev pub guarded_config : Config ℕ
guarded_config = record one_upstream { upstreams = guarded_upstream ∷ [] }

abbrev pub quiet_world : World
quiet_world = record {
  parse = parse_any;
  read = λ path. missing;
  decode_server = λ raw. none;
  start = λ c. none;
  now = 0;
}

abbrev pub guarded_building : Building ℕ
guarded_building = record {
  gateway = record gateway_u { upstreams = (b'u' ∷ [], guarded_upstream) ∷ [] };
  state = idle;
  cache = [];
}
