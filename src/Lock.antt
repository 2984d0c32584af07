-- ===== src/Lock.antt =====
-- gateway/lock.go: tool fingerprints, their digests, and the check of a tools/list result against a
-- lockfile entry.
pub mod Verify
pub mod Prepare
pub mod Capture
pub mod Recorded
pub mod Client
pub mod Init
pub mod Written
pub mod Merged
use mcp_gateway_lite.Base.{
  ℕ, Bool, true, false, not, ◌&&◌, Bytes, codes, same, List, [], ◌∷◌, ◌++◌, Option, none, some,
  is_nil, if◌then◌else◌, map,
}
use mcp_gateway_lite.Base.Dict.{Dict, lookup}
use mcp_gateway_lite.Codec.{
  Codec, ToolProbe, Value, Values, Fields, string, array, object, nil, cons, end, field,
}
use mcp_gateway_lite.Canonical.{canonical, sentinel_hash, decode_use_number, sort_by_key}

-- A result with the text of its error.
pub data Checked {ℓ} (A : Type ℓ) : Type ℓ where
  ok : A → Checked A
  err : Bytes → Checked A

pub record RawTool : Type 0 where
  pub raw : Bytes
  pub name : Bytes
  pub hash : Bytes

unfoldable pub replacement_char_error : Bytes
unfolding codes
replacement_char_error =
    codes
      "canonical: string contains U+FFFD (invalid UTF-8 or an unpaired surrogate escape); cannot guarantee a hash matching mcp-sentinel"

unfoldable pub fingerprint_object : Bytes → Bytes → Value → Value
unfolding codes
fingerprint_object name description schema = object (
    field (codes "name") (string name)
      (field (codes "description") (string description) (field (codes "inputSchema") schema end)))

-- The schema of a tool: input_schema where inputSchema is absent, and {} where both are.
unfoldable pub tool_schema : Codec → ToolProbe → Checked Value
unfolding decode_use_number
tool_schema codec probe =
    let raw = if is_nil probe.input_schema then probe.input_schema_alt else probe.input_schema in
    if is_nil raw
    then ok (object end)
    else elim (decode_use_number codec raw) [ none ↦ err (codec.error_text raw) | some v ↦ ok v ]

abbrev with_schema : ToolProbe → Checked Value → Checked (Value × Bytes)
with_schema probe (err e) = err e
with_schema probe (ok schema) =
    ok (fingerprint_object probe.name probe.description schema, probe.name)

unfoldable pub tool_fingerprint : Codec → Bytes → Checked (Value × Bytes)
unfolding fingerprint_object tool_schema
tool_fingerprint codec raw = elim (codec.decode_tool raw) [
  | none ↦ err (codec.error_text raw)
  | some probe ↦ with_schema probe (tool_schema codec probe)
]

unfoldable pub unparseable_prefix : Bytes
unfolding codes
unparseable_prefix = codes "tool entry unparseable: "

abbrev hashed : Codec → Bytes → Bytes → Option Bytes → Checked RawTool
hashed codec raw name none = err replacement_char_error
hashed codec raw name (some text) =
    ok (record { raw = raw; name = name; hash = sentinel_hash codec text })

abbrev raw_tool_of : Codec → Bytes → Checked (Value × Bytes) → Checked RawTool
raw_tool_of codec raw (err e) = err (unparseable_prefix ++ e)
raw_tool_of codec raw (ok (fp, name)) = hashed codec raw name (canonical fp)

-- One round of the loop of parseLockTools.
unfoldable pub parse_lock_tool : Codec → Bytes → Checked RawTool
unfolding tool_fingerprint unparseable_prefix replacement_char_error
parse_lock_tool codec raw = raw_tool_of codec raw (tool_fingerprint codec raw)

abbrev pub add_tool : Checked RawTool → Checked (List RawTool) → Checked (List RawTool)
add_tool (err e) rest = err e
add_tool (ok t) (err e) = err e
add_tool (ok t) (ok ts) = ok (t ∷ ts)

unfoldable pub parse_lock_tools : Codec → List Bytes → Checked (List RawTool)
unfolding parse_lock_tool
parse_lock_tools codec [] = ok []
parse_lock_tools codec (el ∷ els) = add_tool (parse_lock_tool codec el) (parse_lock_tools codec els)

abbrev add_fingerprint :
    Checked (Value × Bytes) → Checked (List (Bytes × Value)) → Checked (List (Bytes × Value))
add_fingerprint (err e) rest = err e
add_fingerprint (ok (fp, name)) (err e) = err e
add_fingerprint (ok (fp, name)) (ok fps) = ok ((name, fp) ∷ fps)

-- The fingerprints of a list, each behind its name.
unfoldable pub fingerprints : Codec → List Bytes → Checked (List (Bytes × Value))
unfolding tool_fingerprint
fingerprints codec [] = ok []
fingerprints codec (el ∷ els) = add_fingerprint (tool_fingerprint codec el) (fingerprints codec els)

unfoldable pub values_of : List (Bytes × Value) → Values
values_of [] = nil
values_of ((k, v) ∷ l) = cons v (values_of l)

abbrev hash_text : Codec → Option Bytes → Checked Bytes
hash_text codec none = err replacement_char_error
hash_text codec (some text) = ok (sentinel_hash codec text)

abbrev hash_sorted : Codec → Checked (List (Bytes × Value)) → Checked Bytes
hash_sorted codec (err e) = err e
hash_sorted codec (ok fps) = hash_text codec (canonical (array (values_of (sort_by_key fps))))

unfoldable pub tools_list_hash : Codec → List Bytes → Checked Bytes
unfolding fingerprints values_of sort_by_key canonical replacement_char_error
tools_list_hash codec els = hash_sorted codec (fingerprints codec els)

pub record PreparedLock : Type 0 where
  pub file : Bytes
  pub server : Bytes
  pub enforce : Bool
  pub whole_hash : Bytes
  pub detail : Dict Bytes

unfoldable pub check_failed : Bytes → Bytes
unfolding codes
check_failed e = codes "tools drift check failed: " ++ e

unfoldable pub not_in_lock : Bytes → Bytes
unfolding codes
not_in_lock name = codes "tool not in lock: " ++ name

unfoldable pub schema_drifted : Bytes → Bytes
unfolding codes
schema_drifted name = codes "tool schema drifted from lock: " ++ name

unfoldable pub list_drifted : Bytes → Bytes → Bytes
unfolding codes
list_drifted locked got =
    codes "tools/list drifted from locked hash (locked "
    ++ (locked ++ (codes ", got " ++ (got ++ codes ")")))

-- The loop of `verify` over the parsed tools.
unfoldable pub verify_tools : Dict Bytes → List RawTool → Bytes
unfolding not_in_lock schema_drifted lookup
verify_tools detail [] = []
verify_tools detail (t ∷ ts) =
    let rest = verify_tools detail ts in
    elim (lookup t.name detail) [
      | none ↦ not_in_lock t.name
      | some locked ↦ if same locked t.hash then rest else schema_drifted t.name
    ]

abbrev pub verify_detail : Dict Bytes → Checked (List RawTool) → Bytes
verify_detail detail (err e) = check_failed e
verify_detail detail (ok tools) = verify_tools detail tools

abbrev pub verify_whole : Bytes → Checked Bytes → Bytes
verify_whole locked (err e) = check_failed e
verify_whole locked (ok h) = if same h locked then [] else list_drifted locked h

-- The empty string where everything matches, or a description of the drift.
unfoldable pub verify : Codec → PreparedLock → List Bytes → Bytes
unfolding parse_lock_tools tools_list_hash verify_tools check_failed list_drifted
verify codec l els =
    if is_nil l.detail
    then verify_whole l.whole_hash (tools_list_hash codec els)
    else verify_detail l.detail (parse_lock_tools codec els)
