-- ===== src/Lock/Capture.antt =====
-- gateway/lockinit.go: what LockInit records of an upstream's tools.
use mcp_gateway_lite.Base.{Bytes, codes, List, [], ◌∷◌, ◌++◌, none, some, is_nil, if◌then◌else◌}
use mcp_gateway_lite.Base.Dict.{Dict, lookup, insert}
use mcp_gateway_lite.Codec.{Codec}
use mcp_gateway_lite.Lock.{Checked, ok, err, RawTool, parse_lock_tools, tools_list_hash}
use mcp_gateway_lite.Lock.Prepare.{LockServer}

unfoldable pub nameless_tool : Bytes
unfolding codes
nameless_tool = codes "tools/list entry without a name"

unfoldable pub duplicate_tool : Codec → Bytes → Bytes
unfolding codes
duplicate_tool codec name = codes "duplicate tool name " ++ codec.quote name

-- The loop over the tools: the hash of each under its name.
unfoldable pub add_details : Codec → List RawTool → Dict Bytes → Checked (Dict Bytes)
unfolding nameless_tool duplicate_tool
add_details codec [] detail = ok detail
add_details codec (t ∷ ts) detail =
    let rest = add_details codec ts (insert t.name t.hash detail) in
    if is_nil t.name
    then err nameless_tool
    else elim (lookup t.name detail) [ some h ↦ err (duplicate_tool codec t.name) | none ↦ rest ]

abbrev pub capture_hash : Dict Bytes → Checked Bytes → Checked LockServer
capture_hash detail (err e) = err e
capture_hash detail (ok whole) = ok (record { tools_hash = some whole; tools_detail = detail })

abbrev pub capture_details : Codec → List Bytes → Checked (Dict Bytes) → Checked LockServer
capture_details codec els (err e) = err e
capture_details codec els (ok detail) = capture_hash detail (tools_list_hash codec els)

abbrev pub capture_tools : Codec → List Bytes → Checked (List RawTool) → Checked LockServer
capture_tools codec els (err e) = err e
capture_tools codec els (ok ts) = capture_details codec els (add_details codec ts [])

-- The record of an upstream with these tools.
unfoldable pub capture : Codec → List Bytes → Checked LockServer
unfolding parse_lock_tools add_details tools_list_hash
capture codec els = capture_tools codec els (parse_lock_tools codec els)
