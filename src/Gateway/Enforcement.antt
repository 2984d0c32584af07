-- ===== src/Gateway/Enforcement.antt =====
-- The policy of the configuration at the upstream: from gateway/config.go and `New` of
-- gateway/gateway.go to the calls of handleProxy.
use mcp_gateway_lite.Base.{Bool, List, [], ◌∷◌, ◌++◌, All, ◌≡◌, ◌⊎◌, inl, inr, sym, ap, subst, ◌∙◌}
use mcp_gateway_lite.Base.Dict.{lookup}
use mcp_gateway_lite.Codec.{Codec}
use mcp_gateway_lite.Config.Types.{Upstream, Config}
use mcp_gateway_lite.Policy.{block_reason}
use mcp_gateway_lite.Policy.Decisions.{Permits, block_reason-Permits}
use mcp_gateway_lite.Ratelimit.{Float64}
use mcp_gateway_lite.Gateway.{name_of, peek}
use mcp_gateway_lite.Gateway.Types.{Request, State, Clock}
use mcp_gateway_lite.Gateway.Handler.{Backend, handle_proxy}
use mcp_gateway_lite.Gateway.Audit.{handle_proxy-Calls}
use mcp_gateway_lite.Gateway.Build.{World, Building, built, new_gateway}
use mcp_gateway_lite.Gateway.Policies.{Served, new_gateway-Served}

-- The upstream is one of the list.
abbrev pub In : {F : Type 0} → Upstream F → List (Upstream F) → Type 0
In u [] = ⊥
In u (v ∷ us) = (u ≡ v) ⊎ In u us

All-In :
    {F : Type 0} (P : Upstream F → Type 0) (u : Upstream F) (us : List (Upstream F))
    → All P us
    → In u us
    → P u
All-In P u [] a i = absurd i
All-In P u (v ∷ us) a (inl e) = subst P (sym e) a.0
All-In P u (v ∷ us) a (inr i) = All-In P u us a.1 i

-- Where a gateway is built from a configuration, a request that names an upstream of it calls that
-- upstream only if the allowlist that the configuration gives the upstream, or without one its
-- deny list, permits what the summary of the request's body shows, in every state of the limiters.
pub new_gateway-Permits :
    {F : Type 0} (codec : Codec) (num : Float64 F) (back : Backend) (w : World)
    (not_positive : F → Bool) (c : Config F) (b : Building F) (u : Upstream F) (r : Request)
    (clock : Clock) (s : State F)
    → new_gateway num w not_positive c ≡ built b
    → In u c.upstreams
    → name_of r ≡ u.name
    → ((handle_proxy codec num back b.gateway r clock s).1.called ≡ s.called)
      ⊎ (((handle_proxy codec num back b.gateway r clock s).1.called ≡ s.called ++ u.name ∷ [])
          × Permits u.tools_allow u.tools_deny (peek codec r.body).0)
new_gateway-Permits codec num back w not_positive c b u r clock s made listed named =
    elim (handle_proxy-Calls codec num back b.gateway r clock s) [
      | inl quiet ↦ inl quiet
      | inr called ↦
          let served =
            All-In (Served num w b) u c.upstreams (new_gateway-Served num w not_positive c b made)
              listed in
          let policy = ap (λ name. lookup name b.gateway.policies) named ∙ served.0 in
          inr (
            called.0 ∙ ap (λ name. s.called ++ name ∷ []) named,
            (block_reason-Permits u (peek codec r.body).0).0
                (sym (ap (λ p. block_reason p (peek codec r.body).0) policy) ∙ called.1),
          )
    ]
