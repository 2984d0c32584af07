-- ===== src/Policy.antt =====
-- gateway/policy.go: allow and deny lists for tools/call, and what they block.
pub mod Decisions
use mcp_gateway_lite.Base.{
  ℕ, Bool, true, false, not, ◌&&◌, ◌||◌, Bytes, codes, List, [], ◌∷◌, ◌++◌, Option, none, some,
  is_nil, ltb, length, if◌then◌else◌,
}
use mcp_gateway_lite.Base.Dict.{Dict, lookup, insert}
use mcp_gateway_lite.Config.Types.{Upstream}
use mcp_gateway_lite.Rpc.{RpcSummary}

-- A set as `map[string]bool`; `none` is a nil map. A nil policy is a `none` of `Option ToolPolicy`.
pub record ToolPolicy : Type 0 where
  pub allow : Option (Dict Bool)
  pub deny : Option (Dict Bool)

unfoldable pub add_all : Dict Bool → List Bytes → Dict Bool
add_all m [] = m
add_all m (t ∷ ts) = add_all (insert t true m) ts

-- m[name] of a `map[string]bool`: false on a missing key.
unfoldable pub member : Bytes → Dict Bool → Bool
unfolding lookup
member name m = elim (lookup name m) [ none ↦ false | some b ↦ b ]

-- A nil map reads as empty.
abbrev pub set_of : Option (Dict Bool) → Dict Bool
set_of none = []
set_of (some m) = m

set_if_any : List Bytes → Option (Dict Bool)
unfolding add_all insert
set_if_any [] = none
set_if_any (t ∷ ts) = some (add_all [] (t ∷ ts))

unfoldable pub policy_of : List Bytes → List Bytes → Option ToolPolicy
unfolding set_if_any
policy_of allow deny =
    if is_nil allow && is_nil deny
    then none
    else some (record { allow = set_if_any allow; deny = set_if_any deny })

unfoldable pub new_tool_policy : {F : Type 0} → Upstream F → Option ToolPolicy
unfolding policy_of
new_tool_policy u = policy_of u.tools_allow u.tools_deny

unfoldable pub default_deny_reason : Bytes
unfolding codes
default_deny_reason = codes "tool policy: body not parseable, allowlist mode is default-deny"

unfoldable pub no_name_reason : Bytes
unfolding codes
no_name_reason = codes "tool policy: tools/call without a parseable tool name"

unfoldable pub blocked_reason : Bytes → Bytes
unfolding codes
blocked_reason tool = codes "tool blocked by policy: " ++ tool

-- The loop over the called tools: the first one outside the allowlist is the reason.
unfoldable pub first_outside : Dict Bool → List Bytes → Bytes
unfolding blocked_reason member
first_outside m [] = []
first_outside m (t ∷ ts) = if not (member t m) then blocked_reason t else first_outside m ts

-- The loop over the called tools: the first one on the deny list is the reason.
unfoldable pub first_denied : Dict Bool → List Bytes → Bytes
unfolding blocked_reason member
first_denied m [] = []
first_denied m (t ∷ ts) = if member t m then blocked_reason t else first_denied m ts

-- The empty string lets the request through.
unfoldable pub block_reason : Option ToolPolicy → RpcSummary → Bytes
unfolding first_outside first_denied default_deny_reason no_name_reason
block_reason none sum = []
block_reason (some p) sum = elim p.allow [
  | some m ↦
      if sum.invalid
      then default_deny_reason
      else if ltb (length sum.tools) sum.tool_calls
      then no_name_reason
      else first_outside m sum.tools
  | none ↦ first_denied (set_of p.deny) sum.tools
]

unfoldable pub allows : Option ToolPolicy → Bytes → Bool
unfolding member
allows none name = true
allows (some p) name = elim p.allow [
  | some m ↦ member name m
  | none ↦ not (member name (set_of p.deny))
]
