-- ===== src/Rewrite.antt =====
-- gateway/responsefilter.go: what becomes of the response to a request with tools/list or tools/call.
-- Messages are examined here; whole bodies are in Rewrite/Body.
pub mod Body
pub mod Filter
pub mod Examine
pub mod Scan
pub mod Strict
pub mod Observing
pub mod Refusal
pub mod Observed
pub mod Settings
pub mod Guarded
use mcp_gateway_lite.Base.{
  ℕ, zero, suc, ◌+◌, Bool, true, false, not, ◌&&◌, ◌||◌, Bytes, codes, same, List, [], ◌∷◌, ◌++◌,
  Option, none, some, is_nil, leb, ltb, ◌==◌, length, join, if◌then◌else◌,
}
use mcp_gateway_lite.Base.Dict.{Dict, lookup, insert}
use mcp_gateway_lite.Base.Int.{ℤ, pos, negsuc, itoa}
use mcp_gateway_lite.Codec.{Codec, RpcResponseProbe}
use mcp_gateway_lite.Rpc.{is_present, null_literal}
use mcp_gateway_lite.Policy.{ToolPolicy, allows}
use mcp_gateway_lite.Lock.{PreparedLock, verify}
use mcp_gateway_lite.PromptProof.{
  Scanner, ScanResult, ScanReply, report, scan_error, verdict_rank, triggers, contains_string,
  collect_strings,
}

pub record RewriteState : Type 0 where
  pub ids : List Bytes
  pub policy : Option ToolPolicy
  pub lock : Option PreparedLock
  pub strict : Bool
  pub filtered : ℕ
  pub drift : Bool
  pub note : Bytes
  pub scanner : Option Scanner
  pub scan_ids : List Bytes
  pub scan_verdict : Bytes
  pub scan_score : ℤ
  pub scan_categories : List Bytes
  pub scan_blocked : Bool
  pub scan_flagged : Bool
  pub scan_err : Bytes

unfoldable pub note_once : Bytes → RewriteState → RewriteState
note_once reason st = if is_nil st.note then record st { note = reason } else st

-- The JSON-RPC error codes -32003, -32004 and -32005.
abbrev pub policy_code : ℤ
policy_code = negsuc 32002

abbrev pub lock_code : ℤ
lock_code = negsuc 32003

abbrev pub promptproof_block_code : ℤ
promptproof_block_code = negsuc 32004

abbrev pub has_allow : Option ToolPolicy → Bool
has_allow none = false
has_allow (some p) = elim p.allow [ none ↦ false | some m ↦ true ]

abbrev pub enforces : Option PreparedLock → Bool
enforces none = false
enforces (some l) = l.enforce

unfoldable pub strict_code : RewriteState → ℤ
strict_code st =
    if has_allow st.policy then policy_code else if enforces st.lock then lock_code else policy_code

unfoldable pub has_id : RewriteState → Bytes → Bool
unfolding contains_string
has_id st raw = contains_string st.ids raw

unfoldable pub has_scan_id : RewriteState → Bytes → Bool
unfolding contains_string
has_scan_id st raw = contains_string st.scan_ids raw

pub data MsgVerdict : Type 0 where
  msg_pass msg_rewrite msg_block : MsgVerdict

pub record MsgOutcome : Type 0 where
  pub verdict : MsgVerdict
  pub out : Bytes
  pub id : Bytes
  pub code : ℤ
  pub reason : Bytes
  pub invalid : Bool

abbrev pub pass : MsgOutcome
pass = record { verdict = msg_pass; out = []; id = []; code = pos 0; reason = []; invalid = false }

abbrev pub pass_invalid : MsgOutcome
pass_invalid = record pass { invalid = true }

abbrev pub blocked : Bytes → ℤ → Bytes → MsgOutcome
blocked id code reason = record pass { verdict = msg_block; id = id; code = code; reason = reason }

abbrev pub rewritten : Bytes → MsgOutcome
rewritten out = record pass { verdict = msg_rewrite; out = out }

-- What a strict state refuses, and a lax one passes.
unfoldable pub refuse : RewriteState → Bytes → Bytes → MsgOutcome
unfolding strict_code
refuse st id reason = if st.strict then blocked id (strict_code st) reason else pass

-- The loop over the tools: the elements kept and the number removed; `none` is a strict refusal of
-- an element without a name.
abbrev pub keep_tool : Bytes → Option (List Bytes × ℕ) → Option (List Bytes × ℕ)
keep_tool el none = none
keep_tool el (some (kept, removed)) = some (el ∷ kept, removed)

abbrev pub drop_tool : Option (List Bytes × ℕ) → Option (List Bytes × ℕ)
drop_tool none = none
drop_tool (some (kept, removed)) = some (kept, suc removed)

-- The name that an element shows: none if it cannot be decoded or is empty.
unfoldable pub element_name : Codec → Bytes → Option Bytes
element_name codec el = elim (codec.decode_name el) [
  | none ↦ none
  | some name ↦ if is_nil name then none else some name
]

unfoldable pub filter_tools :
    Codec → Bool → Option ToolPolicy → List Bytes → Option (List Bytes × ℕ)
unfolding element_name
filter_tools codec strict policy [] = some ([], 0)
filter_tools codec strict policy (el ∷ els) =
    let rest = filter_tools codec strict policy els in
    elim (element_name codec el) [
      | none ↦ if strict then none else keep_tool el rest
      | some name ↦ if allows policy name then keep_tool el rest else drop_tool rest
    ]

-- The message with its filtered result.
unfoldable pub rebuilt : RpcResponseProbe → Bytes → Bytes
unfolding codes
rebuilt probe new_result =
    codes "{\"jsonrpc\":"
    ++ ((if is_nil probe.jsonrpc then codes "\"2.0\"" else probe.jsonrpc)
        ++ (codes ",\"id\":" ++ (probe.id ++ (codes ",\"result\":" ++ (new_result ++ codes "}")))))

unfoldable pub rebuild_reason : Bytes
unfolding codes
rebuild_reason = codes "tools/list result could not be rebuilt"

unfoldable pub tools_key : Bytes
unfolding codes
tools_key = codes "tools"

unfoldable pub new_result : Codec → Dict Bytes → List Bytes → Option Bytes
unfolding tools_key
new_result codec result kept = elim (codec.encode_array kept) [
  | none ↦ none
  | some new_tools ↦ codec.encode_object (insert tools_key new_tools result)
]

abbrev pub emit_result : RpcResponseProbe → RewriteState → Option Bytes → MsgOutcome × RewriteState
emit_result probe st none = (blocked probe.id (strict_code st) rebuild_reason, st)
emit_result probe st (some text) = (rewritten (rebuilt probe text), st)

unfoldable pub nameless_reason : Bytes
unfolding codes
nameless_reason = codes "tools/list entry without a tool name"

-- The end of examineMessage, from the elements that the loop has kept.
unfoldable pub finish_filter :
    Codec
    → RpcResponseProbe
    → Dict Bytes
    → Option (List Bytes × ℕ)
    → RewriteState
    → MsgOutcome × RewriteState
finish_filter codec probe result none st = (blocked probe.id (strict_code st) nameless_reason, st)
finish_filter codec probe result (some (kept, zero)) st = (pass, st)
finish_filter codec probe result (some (kept, suc n)) st =
    emit_result probe (record st { filtered = st.filtered + suc n }) (new_result codec result kept)

-- The lock check: the reason of a drift, or the empty string.
unfoldable pub drift_reason : Codec → Option PreparedLock → List Bytes → Bytes
drift_reason codec none els = []
drift_reason codec (some l) els = verify codec l els

unfoldable pub examine_tools :
    Codec → RpcResponseProbe → Dict Bytes → List Bytes → RewriteState → MsgOutcome × RewriteState
examine_tools codec probe result els st =
    let reason = drift_reason codec st.lock els in
    let drifted = note_once reason (record st { drift = true }) in
    let filtered = filter_tools codec st.strict st.policy els in
    if is_nil reason
    then finish_filter codec probe result filtered st
    else if enforces st.lock
    then (blocked probe.id lock_code reason, drifted)
    else finish_filter codec probe result filtered drifted

abbrev pub with_tools :
    Codec
    → RpcResponseProbe
    → Dict Bytes
    → Option (List Bytes)
    → RewriteState
    → MsgOutcome × RewriteState
with_tools codec probe result none st =
    (refuse st probe.id (codes "tools/list result tools is not an array"), st)
with_tools codec probe result (some els) st = examine_tools codec probe result els st

abbrev pub with_tools_raw :
    Codec → RpcResponseProbe → Dict Bytes → Option Bytes → RewriteState → MsgOutcome × RewriteState
with_tools_raw codec probe result none st =
    (refuse st probe.id (codes "tools/list result has no tools array"), st)
with_tools_raw codec probe result (some raw) st =
    with_tools codec probe result (codec.decode_array raw) st

abbrev pub with_result :
    Codec
    → RpcResponseProbe
    → Option (Option (Dict Bytes))
    → RewriteState
    → MsgOutcome × RewriteState
with_result codec probe (some (some result)) st =
    with_tools_raw codec probe result (lookup tools_key result) st
with_result codec probe _ st = (refuse st probe.id (codes "tools/list result is not an object"), st)

abbrev pub with_probe : Codec → Option RpcResponseProbe → RewriteState → MsgOutcome × RewriteState
with_probe codec none st = (pass_invalid, st)
with_probe codec (some probe) st =
    if is_nil probe.id || not (has_id st probe.id)
    then (pass, st)
    else if is_present probe.error
    then (pass, st)
    else with_result codec probe (codec.decode_object probe.result) st

unfoldable pub examine_message : Codec → Bytes → RewriteState → MsgOutcome × RewriteState
examine_message codec m st = with_probe codec (codec.decode_response m) st

-- The loop of recordScan over the categories.
unfoldable pub add_new : List Bytes → List Bytes → List Bytes
unfolding contains_string
add_new seen [] = seen
add_new seen (c ∷ cs) = add_new (if contains_string seen c then seen else seen ++ c ∷ []) cs

unfoldable pub record_scan : ScanResult → RewriteState → RewriteState
unfolding verdict_rank add_new
record_scan res st =
    let worse = ltb (verdict_rank st.scan_verdict) (verdict_rank res.verdict) in
    if verdict_rank res.verdict == 0 then st else record st {
      scan_verdict = if worse then res.verdict else st.scan_verdict;
      scan_score = if worse then res.score else st.scan_score;
      scan_categories = add_new st.scan_categories res.categories;
    }

unfoldable pub scan_block_reason : ScanResult → Bytes
unfolding codes itoa
scan_block_reason res =
    codes "tool result blocked by promptproof: "
    ++ (res.verdict ++ (codes " (score " ++ (itoa res.score ++ codes ")")))

unfoldable pub flag_action : Bytes
unfolding codes
flag_action = codes "flag"

-- What follows the scanner's reply.
unfoldable pub after_scan :
    Scanner → RpcResponseProbe → ScanReply → RewriteState → MsgOutcome × RewriteState
after_scan sc probe (scan_error e) st =
    let failed = if is_nil st.scan_err then record st { scan_err = e } else st in
    (pass, note_once (codes "promptproof scan error: " ++ e) failed)
after_scan sc probe (report res) st =
    let seen = record_scan res st in
    if not (triggers sc res.verdict)
    then (pass, seen)
    else if same sc.action flag_action
    then (pass, record seen { scan_flagged = true })
    else (
      blocked probe.id promptproof_block_code (scan_block_reason res),
      note_once (scan_block_reason res) (record seen { scan_blocked = true }),
    )

-- The scanned text of a result: its strings, a line each.
unfoldable pub scanned_content : Codec → Bytes → Bytes
unfolding collect_strings join
scanned_content codec result = join 10 (collect_strings codec (length result) result)

abbrev pub scan_probe :
    Codec → Scanner → Option RpcResponseProbe → RewriteState → MsgOutcome × RewriteState
scan_probe codec sc none st = (pass_invalid, st)
scan_probe codec sc (some probe) st =
    if is_present probe.error
    then (pass, st)
    else if is_nil probe.result
    then (pass, st)
    else after_scan sc probe (sc.reply (scanned_content codec probe.result)) st

unfoldable pub scan_message : Codec → Scanner → Bytes → RewriteState → MsgOutcome × RewriteState
scan_message codec sc m st = scan_probe codec sc (codec.decode_response m) st

-- Whether a message is a result that this request has to have scanned.
abbrev pub has_scanned_id : Option RpcResponseProbe → RewriteState → Bool
has_scanned_id none st = false
has_scanned_id (some probe) st = not (is_nil probe.id) && has_scan_id st probe.id

unfoldable pub handle_message : Codec → Bytes → RewriteState → MsgOutcome × RewriteState
handle_message codec m st = elim st.scanner [
  | none ↦ examine_message codec m st
  | some sc ↦
      if not (is_nil st.scan_ids) && has_scanned_id (codec.decode_response m) st
      then scan_message codec sc m st
      else examine_message codec m st
]

-- A JSON-RPC error message.
unfoldable pub jsonrpc_error : Codec → Bytes → ℤ → Bytes → Bytes
unfolding codes itoa null_literal
jsonrpc_error codec id code msg =
    codes "{\"jsonrpc\":\"2.0\",\"id\":"
    ++ ((if is_nil id then null_literal else id)
        ++ (codes ",\"error\":{\"code\":"
            ++ (itoa code ++ (codes ",\"message\":" ++ (codec.encode_string msg ++ codes "}}")))))
