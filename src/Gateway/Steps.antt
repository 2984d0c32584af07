-- ===== src/Gateway/Steps.antt =====
-- One round of `New` of gateway/gateway.go: what it adds to the policies and the routes.
use mcp_gateway_lite.Base.{
  true, Bytes, same, same_iff, same_refl, Option, none, some, ◌≡◌, ◌≢◌, inl, inr, refl, ap, ◌∙◌,
  Bool-cases, Option-cases,
}
use mcp_gateway_lite.Base.Dict.{Dict, lookup, insert, lookup-insert}
use mcp_gateway_lite.Config.Types.{Upstream, PromptProofConfig}
use mcp_gateway_lite.Policy.{new_tool_policy}
use mcp_gateway_lite.Lock.Prepare.{Prepared, prepared, lock_failed, prepare_lock}
use mcp_gateway_lite.Lock.{PreparedLock}
use mcp_gateway_lite.PromptProof.{ScanReply}
use mcp_gateway_lite.Ratelimit.{Float64}
use mcp_gateway_lite.Gateway.Build.{
  World, Building, Built, built, build_failed, insert_some, next_build, add_route, add_limit,
  add_policy, with_lock, add_lock, with_scanner_started, add_scanner, add_upstream,
}

-- What holds of a gateway, if one is built.
abbrev pub Holds : {A : Type 0} → (A → Type 0) → Built A → Type 0
Holds P (built a) = P a
Holds P (build_failed e) = Unit

pub next_build-Holds :
    {A B : Type 0} (P : A → Type 0) (Q : B → Type 0) (x : Built A) (f : A → Built B)
    → Holds P x
    → ((a : A) → P a → Holds Q (f a))
    → Holds Q (next_build x f)
next_build-Holds P Q (built a) f p h = h a p
next_build-Holds P Q (build_failed e) f p h = tt

pub Holds-map :
    {A : Type 0} (P Q : A → Type 0) (x : Built A) → ((a : A) → P a → Q a) → Holds P x → Holds Q x
Holds-map P Q (built a) h p = h a p
Holds-map P Q (build_failed e) h p = tt

pub lookup-insert-other :
    {V : Type 0} (k j : Bytes) (v : V) (m : Dict V) → k ≢ j → lookup j (insert k v m) ≡ lookup j m
lookup-insert-other k j v m n = elim (Bool-cases (same k j)) [
  | inl e ↦ absurd (n ((same_iff k j).0 e))
  | inr e ↦ lookup-insert k j v m ∙ rw e refl
]

pub lookup-insert_some-other :
    {V : Type 0} (k j : Bytes) (o : Option V) (m : Dict V)
    → k ≢ j
    → lookup j (insert_some k o m) ≡ lookup j m
lookup-insert_some-other k j none m n = refl
lookup-insert_some-other k j (some v) m n = lookup-insert-other k j v m n

pub lookup-insert_some-here :
    {V : Type 0} (k : Bytes) (o : Option V) (m : Dict V)
    → lookup k m ≡ none
    → lookup k (insert_some k o m) ≡ o
lookup-insert_some-here k none m e = e
lookup-insert_some-here k (some v) m e = lookup-insert k k v m ∙ rw (same_refl k) refl

module _ {F : Type 0} (num : Float64 F) (w : World) where
  -- The same policies and routes.
  abbrev pub Same : Building F → Building F → Type 0
  Same b c = (c.gateway.policies ≡ b.gateway.policies) × (c.gateway.upstreams ≡ b.gateway.upstreams)

  -- The policy and the route of one upstream are added.
  abbrev pub Adds : Upstream F → Building F → Building F → Type 0
  Adds u b c =
      (c.gateway.policies ≡ insert_some u.name (new_tool_policy u) b.gateway.policies)
      × (c.gateway.upstreams ≡ insert u.name u b.gateway.upstreams)

  abbrev Routed : Upstream F → Building F → Building F → Type 0
  Routed u b c =
      (c.gateway.policies ≡ b.gateway.policies)
      × (c.gateway.upstreams ≡ insert u.name u b.gateway.upstreams)

  add_route-Routed : (u : Upstream F) (b : Building F) → Holds (Routed u b) (add_route num w u b)
  unfolding add_route
  add_route-Routed u b = elim (Option-cases (w.parse u.url)) [
    | inl e ↦ rw (add_route, e) tt
    | inr (p, e) ↦ rw (add_route, e) (refl, refl)
  ]

  add_limit-Same : (u : Upstream F) (b : Building F) → Same b (add_limit num w u b)
  unfolding add_limit
  add_limit-Same u b = elim (Option-cases u.rate_limit) [
    | inl e ↦ rw (add_limit, e) (refl, refl)
    | inr (r, e) ↦ elim (Bool-cases r.per_session) [
      | inl f ↦ rw (add_limit, e, f) (refl, refl)
      | inr f ↦ rw (add_limit, e, f) (refl, refl)
    ]
  ]

  with_lock-Same :
      (u : Upstream F) (b : Building F) (p : Prepared (Option PreparedLock))
      → Holds (Same b) (with_lock num w u b p)
  with_lock-Same u b (lock_failed e) = tt
  with_lock-Same u b (prepared l cache) = (refl, refl)

  add_lock-Same : (u : Upstream F) (b : Building F) → Holds (Same b) (add_lock num w u b)
  unfolding add_lock
  add_lock-Same u b = with_lock-Same u b (prepare_lock w.read w.decode_server u b.cache)

  with_scanner-Same :
      (u : Upstream F) (c : PromptProofConfig) (b : Building F) (o : Option (Bytes → ScanReply))
      → Holds (Same b) (with_scanner_started num w u c b o)
  with_scanner-Same u c b none = tt
  with_scanner-Same u c b (some reply) = (refl, refl)

  add_scanner-Same : (u : Upstream F) (b : Building F) → Holds (Same b) (add_scanner num w u b)
  unfolding add_scanner
  add_scanner-Same u b = elim (Option-cases u.prompt_proof) [
    | inl e ↦ rw (add_scanner, e) (refl, refl)
    | inr (c, e) ↦ elim (Bool-cases c.enabled) [
      | inl f ↦
          rw (add_scanner, e, f)
            (with_scanner-Same u (record c { enabled = true }) b
              (w.start (record c { enabled = true })))
      | inr f ↦ rw (add_scanner, e, f) (refl, refl)
    ]
  ]

  pub add_upstream-Adds :
      (u : Upstream F) (b : Building F) → Holds (Adds u b) (add_upstream num w u b)
  unfolding add_upstream add_policy
  add_upstream-Adds u b =
      next_build-Holds (Routed u b) (Adds u b) (add_route num w u b) _ (add_route-Routed u b)
        (λ r p.
          let limited = add_limit num w u r in
          let q = add_limit-Same u r in
          next_build-Holds (Same (add_policy num w u limited)) (Adds u b)
            (add_lock num w u (add_policy num w u limited)) _
            (add_lock-Same u (add_policy num w u limited))
            (λ l s.
              Holds-map (Same l) (Adds u b) (add_scanner num w u l)
                (λ c t. (
                  t.0 ∙ s.0 ∙ ap (insert_some u.name (new_tool_policy u)) (q.0 ∙ p.0),
                  t.1 ∙ s.1 ∙ q.1 ∙ p.1,
                ))
                (add_scanner-Same u l)))
