-- ===== src/Gateway/Policies.antt =====
-- The policies and the routes of a gateway that `New` of gateway/gateway.go has built.
use mcp_gateway_lite.Base.{
  Bool, Bytes, same_refl, List, [], ◌∷◌, none, some, All, ◌≡◌, ◌≢◌, inl, inr, refl, sym, ap, subst,
  ◌∙◌, Option-cases,
}
use mcp_gateway_lite.Base.Dict.{lookup, lookup-insert}
use mcp_gateway_lite.Config.Types.{Upstream, Config}
use mcp_gateway_lite.Config.{validate, to_lower}
use mcp_gateway_lite.Config.Names.{DistinctNames, validate-names}
use mcp_gateway_lite.Policy.{new_tool_policy}
use mcp_gateway_lite.Ratelimit.{Float64}
use mcp_gateway_lite.Gateway.Build.{
  World, Building, built, add_upstream, add_upstreams, empty_building, new_gateway,
}
use mcp_gateway_lite.Gateway.Steps.{
  Holds, Holds-map, next_build-Holds, lookup-insert-other, lookup-insert_some-other,
  lookup-insert_some-here, Adds, add_upstream-Adds,
}

module _ {F : Type 0} (num : Float64 F) (w : World) where
  -- What is known of an upstream in the gateway.
  abbrev pub Served : Building F → Upstream F → Type 0
  Served b u =
      (lookup u.name b.gateway.policies ≡ new_tool_policy u)
      × (lookup u.name b.gateway.upstreams ≡ some u)

  -- The names of the upstreams are all other than a name, or than each other.
  abbrev Other : Bytes → List (Upstream F) → Type 0
  Other k us = All (λ u. u.name ≢ k) us

  abbrev Distinct : List (Upstream F) → Type 0
  Distinct [] = Unit
  Distinct (u ∷ us) = Other u.name us × Distinct us

  abbrev New : Building F → List (Upstream F) → Type 0
  New b us = All (λ u. lookup u.name b.gateway.policies ≡ none) us

  -- The upstreams are served, and the entries of other names are left alone.
  record Filled (us : List (Upstream F)) (b c : Building F) : Type 0 where
    served : All (Served c) us
    kept :
        (k : Bytes)
        → Other k us
        → (lookup k c.gateway.policies ≡ lookup k b.gateway.policies)
          × (lookup k c.gateway.upstreams ≡ lookup k b.gateway.upstreams)

  New-Adds :
      (u : Upstream F) (us : List (Upstream F)) (b c : Building F)
      → Other u.name us
      → Adds num w u b c
      → New b us
      → New c us
  New-Adds u [] b c o a n = tt
  New-Adds u (v ∷ us) b c o a n = (
    ap (lookup v.name) a.0
        ∙ lookup-insert_some-other u.name v.name (new_tool_policy u) b.gateway.policies
            (λ e. o.0 (sym e))
        ∙ n.0,
    New-Adds u us b c o.1 a n.1,
  )

  add_upstreams-Filled :
      (us : List (Upstream F)) (b : Building F)
      → Distinct us
      → New b us
      → Holds (Filled us b) (add_upstreams num w us b)
  unfolding add_upstreams
  add_upstreams-Filled [] b d n = record { served = tt; kept = λ k o. (refl, refl) }
  add_upstreams-Filled (u ∷ us) b d n =
      next_build-Holds (Adds num w u b) (Filled (u ∷ us) b) (add_upstream num w u b) _
        (add_upstream-Adds num w u b)
        (λ c a.
          Holds-map (Filled us c) (Filled (u ∷ us) b) (add_upstreams num w us c)
            (λ x f. record {
              served = (
                (
                  (f.kept u.name d.0).0
                      ∙ ap (lookup u.name) a.0
                      ∙ lookup-insert_some-here u.name (new_tool_policy u) b.gateway.policies n.0,
                  (f.kept u.name d.0).1
                      ∙ ap (lookup u.name) a.1
                      ∙ lookup-insert u.name u.name u b.gateway.upstreams
                      ∙ rw (same_refl u.name) refl,
                ),
                f.served,
              );
              kept = λ k o. (
                (f.kept k o.1).0
                    ∙ ap (lookup k) a.0
                    ∙ lookup-insert_some-other u.name k (new_tool_policy u) b.gateway.policies o.0,
                (f.kept k o.1).1
                    ∙ ap (lookup k) a.1
                    ∙ lookup-insert-other u.name k u b.gateway.upstreams o.0,
              );
            })
            (add_upstreams-Filled us c d.1 (New-Adds u us b c d.0 a n.1)))

  DistinctNames-Distinct : (us : List (Upstream F)) → DistinctNames us → Distinct us
  DistinctNames-Distinct [] d = tt
  DistinctNames-Distinct (u ∷ us) d = (others us d.0, DistinctNames-Distinct us d.1)
    where
      others :
          (vs : List (Upstream F))
          → All (λ v. to_lower v.name ≢ to_lower u.name) vs
          → Other u.name vs
      others [] o = tt
      others (v ∷ vs) o = (λ e. o.0 (ap to_lower e), others vs o.1)

  nothing_New : (c : Config F) (us : List (Upstream F)) → New (empty_building num w c) us
  unfolding lookup
  nothing_New c [] = tt
  nothing_New c (u ∷ us) = (refl, nothing_New c us)

  new_gateway-Holds :
      (not_positive : F → Bool) (c : Config F)
      → Holds (λ b. All (Served b) c.upstreams) (new_gateway num w not_positive c)
  unfolding new_gateway
  new_gateway-Holds not_positive c = elim (Option-cases (validate not_positive w.parse c).0) [
    | inr (x, e) ↦ rw (new_gateway, e) tt
    | inl e ↦
        let (some_there, matching, distinct) = validate-names not_positive w.parse c e in
        rw (new_gateway, e)
          (Holds-map (Filled c.upstreams (start c)) (λ b. All (Served b) c.upstreams)
            (add_upstreams num w c.upstreams (start c)) (λ b f. f.served)
            (add_upstreams-Filled c.upstreams (start c)
              (DistinctNames-Distinct c.upstreams distinct)
              (nothing_New (validate not_positive w.parse c).1 c.upstreams)))
  ]
    where
      start : Config F → Building F
      start c = empty_building num w (validate not_positive w.parse c).1

  -- A gateway that is built serves every upstream of its configuration, under its name, with the policy
  -- of that upstream's own lists.
  pub new_gateway-Served :
      (not_positive : F → Bool) (c : Config F) (b : Building F)
      → new_gateway num w not_positive c ≡ built b
      → All (Served b) c.upstreams
  new_gateway-Served not_positive c b e =
      subst (Holds (λ (x : Building F). All (Served x) c.upstreams)) e
        (new_gateway-Holds not_positive c)
