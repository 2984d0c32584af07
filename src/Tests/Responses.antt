-- ===== src/Tests/Responses.antt =====
-- Responses to tools/list and tools/call requests.
use mcp_gateway_lite.Base.{
  ◌≤◌, true, Bytes, codes, same, [], ◌∷◌, none, some, All, ◌≡◌, ◌↔◌, ◌⊎◌, refl,
}
use mcp_gateway_lite.Base.Dict.{lookup}
use mcp_gateway_lite.Lock.{verify, PreparedLock}
use mcp_gateway_lite.Lock.Verify.{Locked, verify-Locked}
use mcp_gateway_lite.Policy.{allows}
use mcp_gateway_lite.PromptProof.{verdict_rank, contains_string, suspicious, dangerous, triggers}
use mcp_gateway_lite.Rewrite.{
  msg_pass, msg_block, RewriteState, examine_tools, finish_filter, scan_message, after_scan,
  drift_reason, examine_message, handle_message, filter_tools, has_id, has_scan_id, flag_action,
  tools_key,
}
use mcp_gateway_lite.Rewrite.Strict.{Passes, Vetted, examine-Vetted}
use mcp_gateway_lite.Rewrite.Scan.{
  Result, Below, Reaches, rank_of, record_scans, record_scans-Bounds, unguarded,
  handle_message-shared_id,
}
use mcp_gateway_lite.Rewrite.Body.{modify_with}
use mcp_gateway_lite.Rewrite.Observing.{Observes}
use mcp_gateway_lite.Rewrite.Observed.{SameResponse, modify_with-observed}
use mcp_gateway_lite.Tests.Toy.{
  toy, list_answer, call_answer, list_probe, tool_list, blank, only_a, lock_a, with_scanner, alarm,
  flag, json_response, dangerous_result,
}

-- A state that filters.
abbrev filtering : RewriteState
filtering = record blank { policy = some only_a; strict = true }

error_free : (filter_tools toy true none tool_list ≡ some (tool_list, 0))
unfolding filter_tools allows
error_free = refl

abbrev vetting : RewriteState
vetting = record blank { strict = true }

list_passing : Passes (examine_message toy list_answer vetting).0
unfolding examine_message has_id contains_string same codes tools_key lookup examine_tools
    drift_reason filter_tools finish_filter allows
list_passing = (refl, refl)

examine-Vetted_example : Vetted toy vetting (some list_probe)
examine-Vetted_example = examine-Vetted toy vetting refl list_answer list_passing

verify-Locked_example :
    (verify toy lock_a tool_list ≡ []) ↔ All (Locked toy lock_a.detail) tool_list
verify-Locked_example = verify-Locked toy lock_a tool_list refl

abbrev whole_lock : PreparedLock
whole_lock = record lock_a { detail = [] }

-- A request with one id for a tools/list and a tools/call, of an upstream with an allowlist, an enforced
-- lock and a scanner that flags.
abbrev shared : RewriteState
shared = record (with_scanner flag) {
  scan_ids = (b'1' ∷ []) ∷ [];
  policy = some only_a;
  lock = some lock_a;
  strict = true;
}

shared-Result : Result toy list_answer shared (alarm flag) list_probe
unfolding has_scan_id contains_string same codes
shared-Result = record {
  scanning = refl;
  decoded = refl;
  has_an_id = refl;
  asked = refl;
  no_error = refl;
  has_result = refl;
}

-- The list of tools goes through, where without the scanner it is blocked for its drift.
shared_passes :
    ((handle_message toy list_answer shared).0.verdict ≡ msg_pass)
    × ((handle_message toy list_answer (record shared { scanner = none })).0.verdict ≡ msg_block)
unfolding handle_message scan_message after_scan examine_message examine_tools drift_reason verify
    has_id has_scan_id contains_string same codes tools_key lookup triggers verdict_rank suspicious
    dangerous flag_action
shared_passes = (refl, refl)

handle_message-shared_id_example :
    (handle_message toy list_answer shared).0
    ≡ (handle_message toy list_answer (unguarded shared)).0
handle_message-shared_id_example =
    handle_message-shared_id toy list_answer shared (alarm flag) list_probe shared-Result

record_scans-Bounds_example :
    (rank_of blank ≤ rank_of (record_scans (dangerous_result ∷ []) blank))
    × All (Below (rank_of (record_scans (dangerous_result ∷ []) blank))) (dangerous_result ∷ [])
    × ((rank_of (record_scans (dangerous_result ∷ []) blank) ≡ rank_of blank)
        ⊎ Reaches (rank_of (record_scans (dangerous_result ∷ []) blank)) (dangerous_result ∷ []))
record_scans-Bounds_example = record_scans-Bounds (dangerous_result ∷ []) blank

flagging_Observes : Observes (with_scanner flag)
unfolding flag_action same codes
flagging_Observes = record { lax = refl; unfiltered = refl; unlocked = refl; flags = refl }

modify_with-observed_example :
    SameResponse
      (json_response call_answer)
      (modify_with toy (with_scanner flag) (json_response call_answer)).0
modify_with-observed_example =
    modify_with-observed toy (json_response call_answer) (with_scanner flag) flagging_Observes refl

-- A batch whose second message is blocked.
abbrev batch : Bytes
batch = b'[' ∷ []
