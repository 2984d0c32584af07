-- ===== src/Rpc.antt =====
-- gateway/jsonrpc.go: the metadata-only summary of a request body.
pub mod Summary
use mcp_gateway_lite.Base.{
  ℕ, ◌+◌, Bool, true, false, not, ◌&&◌, Bytes, codes, same, trim_space, List, [], ◌∷◌, ◌++◌, Option,
  none, some, is_nil, ◌==◌, if◌then◌else◌,
}
use mcp_gateway_lite.Codec.{Codec, RpcProbe}

pub record RpcSummary : Type 0 where
  pub methods : List Bytes
  pub ids : List Bytes
  pub tools : List Bytes
  pub tool_calls : ℕ
  pub tools_list_ids : List Bytes
  pub tools_call_ids : List Bytes
  pub batch : Bool
  pub invalid : Bool

abbrev pub empty_summary : RpcSummary
empty_summary = record {
  methods = [];
  ids = [];
  tools = [];
  tool_calls = 0;
  tools_list_ids = [];
  tools_call_ids = [];
  batch = false;
  invalid = false;
}

unfoldable pub null_literal : Bytes
unfolding codes
null_literal = codes "null"

unfoldable pub tools_list : Bytes
unfolding codes
tools_list = codes "tools/list"

unfoldable pub tools_call : Bytes
unfolding codes
tools_call = codes "tools/call"

-- len(raw) > 0 && string(raw) != "null"
abbrev pub is_present : Bytes → Bool
is_present raw = not (is_nil raw) && not (same raw null_literal)

-- An append that a test guards.
abbrev pub append_if : Bool → List Bytes → Bytes → List Bytes
append_if b xs x = if b then xs ++ x ∷ [] else xs

-- The tool name that a tools/call message shows, if it can be extracted.
unfoldable pub tool_of : Codec → Bytes → Option Bytes
tool_of codec params = if is_nil params then none else elim (codec.decode_name params) [
  | none ↦ none
  | some name ↦ if is_nil name then none else some name
]

unfoldable pub append_tool : List Bytes → Option Bytes → List Bytes
append_tool tools none = tools
append_tool tools (some t) = tools ++ t ∷ []

unfoldable pub add_probe : Codec → RpcSummary → RpcProbe → RpcSummary
unfolding tool_of append_tool
add_probe codec s p =
    let has_id = is_present p.id in
    let is_call = same p.method tools_call in
    record s {
      methods = append_if (not (is_nil p.method)) s.methods p.method;
      ids = append_if has_id s.ids p.id;
      tools_list_ids = append_if (same p.method tools_list && has_id) s.tools_list_ids p.id;
      tool_calls = if is_call then s.tool_calls + 1 else s.tool_calls;
      tools_call_ids = append_if (is_call && has_id) s.tools_call_ids p.id;
      tools = if is_call then append_tool s.tools (tool_of codec p.params) else s.tools;
    }

unfoldable pub add_probes : Codec → RpcSummary → List RpcProbe → RpcSummary
unfolding add_probe
add_probes codec s [] = s
add_probes codec s (p ∷ ps) = add_probes codec (add_probe codec s p) ps

abbrev invalid_summary : RpcSummary
invalid_summary = record empty_summary { invalid = true }

summarize_object : Codec → Option RpcProbe → RpcSummary
summarize_object codec none = invalid_summary
summarize_object codec (some p) = add_probe codec empty_summary p

summarize_batch : Codec → Option (List RpcProbe) → RpcSummary
summarize_batch codec none = invalid_summary
summarize_batch codec (some []) = invalid_summary
summarize_batch codec (some (p ∷ ps)) =
    add_probes codec (record empty_summary { batch = true }) (p ∷ ps)

summarize_trimmed : Codec → Bytes → RpcSummary
unfolding summarize_object summarize_batch add_probes
summarize_trimmed codec [] = empty_summary
summarize_trimmed codec (c ∷ s) =
    if c == b'{'
    then summarize_object codec (codec.decode_request (c ∷ s))
    else if c == b'['
    then summarize_batch codec (codec.decode_batch (c ∷ s))
    else invalid_summary

unfoldable pub summarize_rpc : Codec → Bytes → RpcSummary
unfolding summarize_trimmed trim_space
summarize_rpc codec body = summarize_trimmed codec (trim_space body)
