-- ===== src/Policy/Decisions.antt =====
-- What the policy of gateway/policy.go lets through.
use mcp_gateway_lite.Base.{
  ◌≤◌, Bool, true, false, not, ◌||◌, Bytes, same, List, [], ◌∷◌, Option, none, some, ltb, length,
  All, ◌≡◌, ◌≢◌, ◌↔◌, inl, inr, refl, sym, ◌∙◌, arith, Bool-cases,
}
use mcp_gateway_lite.Base.Dict.{Dict, lookup, insert, lookup-insert}
use mcp_gateway_lite.Config.Types.{Upstream}
use mcp_gateway_lite.Rpc.{RpcSummary}
use mcp_gateway_lite.Policy.{
  ToolPolicy, add_all, member, set_of, policy_of, new_tool_policy, default_deny_reason,
  no_name_reason, blocked_reason, first_outside, first_denied, block_reason, allows,
}

-- Whether a name stands in a list of the configuration.
unfoldable pub listed : Bytes → List Bytes → Bool
listed name [] = false
listed name (t ∷ ts) = same t name || listed name ts

member-add_all :
    (name : Bytes) (ts : List Bytes) (m : Dict Bool)
    → member name (add_all m ts) ≡ (listed name ts || member name m)
unfolding add_all listed
member-add_all name [] m = refl
member-add_all name (t ∷ ts) m =
    ground (arith, member-add_all name ts (insert t true m), member-insert t m name)
  where
    member-insert :
        (t : Bytes) (m : Dict Bool) (name : Bytes)
        → member name (insert t true m) ≡ (same t name || member name m)
    member-insert t m name = unfold member in ground (arith, lookup-insert t name true m)

reasons_ne_nil :
    (t : Bytes) → (default_deny_reason ≢ []) × (no_name_reason ≢ []) × (blocked_reason t ≢ [])
unfolding default_deny_reason no_name_reason blocked_reason
reasons_ne_nil t = (λ h. cc, λ h. cc, λ h. cc)

first_outside_iff :
    (m : Dict Bool) (ts : List Bytes) → (first_outside m ts ≡ []) ↔ All (λ t. member t m ≡ true) ts
unfolding first_outside
first_outside_iff m [] = (λ h. tt, λ h. refl)
first_outside_iff m (t ∷ ts) = ground (arith, (reasons_ne_nil t).2, first_outside_iff m ts)

first_denied_iff :
    (m : Dict Bool) (ts : List Bytes) → (first_denied m ts ≡ []) ↔ All (λ t. member t m ≡ false) ts
unfolding first_denied
first_denied_iff m [] = (λ h. tt, λ h. refl)
first_denied_iff m (t ∷ ts) = ground (arith, (reasons_ne_nil t).2, first_denied_iff m ts)

-- What an allowlist and a deny list say of a request: with an allowlist the body is readable,
-- every tools/call shows its tool, and every tool is on the list; else no tool is on the deny list.
abbrev pub Permits : List Bytes → List Bytes → RpcSummary → Type 0
Permits [] deny sum = All (λ t. listed t deny ≡ false) sum.tools
Permits (a ∷ allow) deny sum =
    (sum.invalid ≡ false)
    × (sum.tool_calls ≤ length sum.tools)
    × All (λ t. listed t (a ∷ allow) ≡ true) sum.tools

All-cong :
    {P Q : Bytes → Type 0} (f : (t : Bytes) → P t ↔ Q t) (ts : List Bytes) → All P ts ↔ All Q ts
All-cong f [] = (λ h. h, λ h. h)
All-cong f (t ∷ ts) =
    let rest = All-cong f ts in (λ h. ((f t).0 h.0, rest.0 h.1), λ h. ((f t).1 h.0, rest.1 h.1))

member-set : (name : Bytes) (ts : List Bytes) → member name (add_all [] ts) ≡ listed name ts
member-set name ts = unfold member lookup in ground (arith, member-add_all name ts [])

first_outside-listed :
    (list ts : List Bytes)
    → (first_outside (add_all [] list) ts ≡ []) ↔ All (λ t. listed t list ≡ true) ts
first_outside-listed list ts =
    let step = first_outside_iff (add_all [] list) ts in
    let same_test =
      All-cong {P = λ t. member t (add_all [] list) ≡ true} {Q = λ t. listed t list ≡ true}
        (λ t. (λ h. sym (member-set t list) ∙ h, λ h. member-set t list ∙ h)) ts in
    (λ h. same_test.0 (step.0 h), λ h. step.1 (same_test.1 h))

first_denied-listed :
    (list ts : List Bytes)
    → (first_denied (add_all [] list) ts ≡ []) ↔ All (λ t. listed t list ≡ false) ts
first_denied-listed list ts =
    let step = first_denied_iff (add_all [] list) ts in
    let same_test =
      All-cong {P = λ t. member t (add_all [] list) ≡ false} {Q = λ t. listed t list ≡ false}
        (λ t. (λ h. sym (member-set t list) ∙ h, λ h. member-set t list ∙ h)) ts in
    (λ h. same_test.0 (step.0 h), λ h. step.1 (same_test.1 h))

All-nothing_listed : (ts : List Bytes) → All (λ t. listed t [] ≡ false) ts
unfolding listed
All-nothing_listed [] = tt
All-nothing_listed (t ∷ ts) = (refl, All-nothing_listed ts)

policy_of-Permits :
    (allow deny : List Bytes) (sum : RpcSummary)
    → (block_reason (policy_of allow deny) sum ≡ []) ↔ Permits allow deny sum
unfolding block_reason policy_of
policy_of-Permits [] [] sum = (λ h. All-nothing_listed sum.tools, λ h. refl)
policy_of-Permits [] (d ∷ deny) sum = first_denied-listed (d ∷ deny) sum.tools
policy_of-Permits (a ∷ allow) deny sum = elim (Bool-cases sum.invalid) [
  | inl bad ↦ (λ h. absurd ((reasons_ne_nil []).0 (rw bad at h)), λ h. absurd (cc (bad, h.0)))
  | inr good ↦ elim (Bool-cases (ltb (length sum.tools) sum.tool_calls)) [
    | inl short ↦
        (λ h. absurd ((reasons_ne_nil []).1 (rw (good, short) at h)), λ h. absurd (ground arith))
    | inr full ↦
        let rest = first_outside-listed (a ∷ allow) sum.tools in
        (
          λ h. (good, ground arith, rest.0 (rw (good, full) at h)),
          λ h. rw (good, full) (rest.1 h.2),
        )
  ]
]

-- A request passes the policy that is built from an upstream's configuration exactly if its
-- allowlist, or without one its deny list, permits the request.
pub block_reason-Permits :
    {F : Type 0} (u : Upstream F) (sum : RpcSummary)
    → (block_reason (new_tool_policy u) sum ≡ []) ↔ Permits u.tools_allow u.tools_deny sum
unfolding new_tool_policy
block_reason-Permits u sum = policy_of-Permits u.tools_allow u.tools_deny sum

All-true : (ts : List Bytes) → All (λ t. ◌≡◌ {A = Bool} true true) ts
All-true [] = tt
All-true (t ∷ ts) = (refl, All-true ts)

lists-allows :
    (allow deny : Option (Dict Bool)) (sum : RpcSummary)
    → sum.invalid ≡ false
    → sum.tool_calls ≤ length sum.tools
    → (block_reason (some (record { allow = allow; deny = deny })) sum ≡ [])
      ↔ All (λ t. allows (some (record { allow = allow; deny = deny })) t ≡ true) sum.tools
unfolding block_reason allows
lists-allows none deny sum good full =
    let step = first_denied_iff (set_of deny) sum.tools in
    let flip =
      All-cong {P = λ t. member t (set_of deny) ≡ false}
        {Q = λ t. not (member t (set_of deny)) ≡ true} (λ t. (λ h. rw h, λ h. ground arith))
        sum.tools in
    (λ h. flip.0 (step.0 h), λ h. step.1 (flip.1 h))
lists-allows (some m) deny sum good full =
    let short : ltb (length sum.tools) sum.tool_calls ≡ false = ground arith in
    rw (good, short) (first_outside_iff m sum.tools)

-- If the body is readable and every tools/call shows its tool, a request passes a policy exactly
-- if the policy allows each called tool. (The same test filters the tools/list responses.)
block_reason-allows :
    (pol : Option ToolPolicy) (sum : RpcSummary)
    → sum.invalid ≡ false
    → sum.tool_calls ≤ length sum.tools
    → (block_reason pol sum ≡ []) ↔ All (λ t. allows pol t ≡ true) sum.tools
unfolding block_reason allows
block_reason-allows none sum good full = (λ h. All-true sum.tools, λ h. refl)
block_reason-allows (some p) sum good full = lists-allows p.allow p.deny sum good full
