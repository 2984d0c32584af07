-- ===== src/Gateway/Processes/Released.antt =====
-- What New of gateway/gateway.go and Close give back of the processes of the scanners.
use mcp_gateway_lite.Base.{
  ℕ, Bool, true, Bytes, List, [], ◌∷◌, none, some, All, ◌≡◌, inl, inr, refl, ap, ◌∙◌, arith,
  Bool-cases, Option-cases,
}
use mcp_gateway_lite.Base.Dict.{Dict, lookup, insert}
use mcp_gateway_lite.Config.Types.{Upstream, Config, PromptProofConfig}
use mcp_gateway_lite.Config.{ParsedUrl, validate}
use mcp_gateway_lite.Config.Names.{validate-names}
use mcp_gateway_lite.PromptProof.{ScanReply, new_scanner}
use mcp_gateway_lite.PromptProof.Process.{Os, Proc, Start}
use mcp_gateway_lite.PromptProof.Pool.{PoolStart, pool_ready, start_pool}
use mcp_gateway_lite.Ratelimit.{Float64}
use mcp_gateway_lite.Lock.Prepare.{LockFile, LockError, prepare_lock, prepared, lock_failed}
use mcp_gateway_lite.Gateway.Build.{
  invalid_config, bad_proxy_url, bad_lock, bad_scanner, World, Building, add_route, add_lock,
  add_policy, add_limit,
}
use mcp_gateway_lite.Gateway.Processes.{
  Live, LiveResult, live, not_live, close_pools, scanner_started, start_scanner, add_live,
  add_all_live, new_live,
}
use mcp_gateway_lite.Gateway.Processes.Rounds.{close_pools-gives_back, Leaves, add_all_live-Leaves}

module _ {F : Type 0} where
  -- What New, and a Close behind it, give back.
  abbrev pub GivesBack : Os → LiveResult F → Type 0
  GivesBack os (live l) =
      ((close_pools l.pools l.os).children ≡ os.children)
      × ((close_pools l.pools l.os).descriptors ≡ os.descriptors)
  GivesBack os (not_live (bad_scanner n) after) =
      (after.children ≡ os.children) × (after.descriptors ≡ os.descriptors)
  GivesBack os (not_live (invalid_config e) after) = Unit
  GivesBack os (not_live (bad_proxy_url n) after) = Unit
  GivesBack os (not_live (bad_lock n e) after) = Unit

module _ {F : Type 0} (num : Float64 F) (w : World) (attempt : Bytes → ℕ → Start)
    (reply : PromptProofConfig → Bytes → ScanReply) where
  Leaves-GivesBack :
      (os : Os) (x : LiveResult F)
      → Leaves num w attempt reply os.children os.descriptors x
      → GivesBack os x
  Leaves-GivesBack os (live l) leaves = close_pools-gives_back l.pools l.os leaves
  Leaves-GivesBack os (not_live (bad_scanner n) after) leaves = leaves
  Leaves-GivesBack os (not_live (invalid_config e) after) leaves = tt
  Leaves-GivesBack os (not_live (bad_proxy_url n) after) leaves = tt
  Leaves-GivesBack os (not_live (bad_lock n e) after) leaves = tt

  All-absent : (us : List (Upstream F)) → All (λ u. lookup {V = List Proc} u.name [] ≡ none) us
  unfolding lookup
  All-absent [] = tt
  All-absent (u ∷ us) = (refl, All-absent us)

  -- Where New builds a gateway, Close gives back every child and every pipe end that the starts of the
  -- scanners took; and where New fails for a scanner that does not start, it has given them back itself,
  -- also those of the scanners that had started.
  pub new_live-GivesBack :
      (not_positive : F → Bool) (c : Config F) (os : Os)
      → GivesBack os (new_live num w attempt reply not_positive c os)
  unfolding new_live validate
  new_live-GivesBack not_positive c os = elim (Option-cases (validate not_positive w.parse c).0) [
    | inr (e, q) ↦ rw (new_live, q) tt
    | inl q ↦
        rw (new_live, q)
          (Leaves-GivesBack os _ (
            add_all_live-Leaves num w attempt reply c.upstreams _
              (record { sound = tt; children = omega arith; descriptors = omega arith })
              (All-absent c.upstreams) (validate-names not_positive w.parse c q).2))
  ]

  prepare_lock-none :
      (u : Upstream F) (cache : Dict LockFile)
      → u.tools_lock ≡ none
      → prepare_lock w.read w.decode_server u cache ≡ prepared none cache
  unfolding prepare_lock
  prepare_lock-none u cache e = rw (prepare_lock, e) refl

  add_limit-cache : (u : Upstream F) (b : Building F) → (add_limit num w u b).cache ≡ b.cache
  unfolding add_limit
  add_limit-cache u b = elim (Option-cases u.rate_limit) [
    | inl e ↦ rw (add_limit, e) refl
    | inr (r, e) ↦ elim (Bool-cases r.per_session) [
      | inl f ↦ rw (add_limit, e, f) refl
      | inr f ↦ rw (add_limit, e, f) refl
    ]
  ]

  -- The building of a round before the scanner.
  abbrev prepared_building : Upstream F → Live F → Building F
  prepared_building u l = add_policy num w u (
      add_limit num w u (record l.building {
        gateway = record l.building.gateway {
          upstreams = insert u.name u l.building.gateway.upstreams;
        };
      }))

  add_live-scanner :
      (u : Upstream F) (l : Live F) (url : ParsedUrl)
      → w.parse u.url ≡ some url
      → u.tools_lock ≡ none
      → add_live num w attempt reply u l
        ≡ start_scanner num w attempt reply u (record l { building = prepared_building u l })
  unfolding add_live add_route add_lock add_policy
  add_live-scanner u l url a t =
      rw (add_live, add_route, a, add_lock, prepare_lock-none u (prepared_building u l).cache t)
        refl

  start_scanner-started :
      (u : Upstream F) (p : PromptProofConfig) (l : Live F) (s : PoolStart)
      → u.prompt_proof ≡ some p
      → p.enabled ≡ true
      → start_pool (new_scanner p (reply p)).size (attempt u.name) [] l.os ≡ s
      → start_scanner num w attempt reply u l ≡ scanner_started num w attempt reply u p l s
  unfolding start_scanner
  start_scanner-started u p l s q enabled started =
      rw (start_scanner, q) (simp enabled (ap (scanner_started num w attempt reply u p l) started))

  -- A round for an upstream without a lock, whose scanner starts.
  add_live-started :
      (u : Upstream F) (p : PromptProofConfig) (l : Live F) (pool : List Proc) (after : Os)
      (url : ParsedUrl)
      → w.parse u.url ≡ some url
      → u.tools_lock ≡ none
      → u.prompt_proof ≡ some p
      → p.enabled ≡ true
      → start_pool (new_scanner p (reply p)).size (attempt u.name) [] l.os ≡ pool_ready pool after
      → (next : Live F) × (add_live num w attempt reply u l ≡ live next)
        × (next.building.cache ≡ l.building.cache)
        × (next.os ≡ after)
  unfolding add_policy
  add_live-started u p l pool after url a t s enabled started = (
    _,
    add_live-scanner u l url a t
        ∙ start_scanner-started u p (record l { building = prepared_building u l })
            (pool_ready pool after) s enabled started,
    add_limit-cache u _,
    refl,
  )

  -- A round for an upstream whose lock cannot be prepared.
  add_live-unlocked :
      (v : Upstream F) (l : Live F) (e : LockError) (url : ParsedUrl)
      → w.parse v.url ≡ some url
      → prepare_lock w.read w.decode_server v l.building.cache ≡ lock_failed e
      → add_live num w attempt reply v l ≡ not_live (bad_lock v.name e) l.os
  unfolding add_live add_route add_lock add_policy
  add_live-unlocked v l e url b bad =
      rw (add_live, add_route, b, add_lock, add_limit-cache v _, bad) refl

  -- Where New fails for a lock, the scanners that had started are left running: for two upstreams, of
  -- which the first has a scanner that starts and no lock, and the second a lock that cannot be prepared,
  -- the children and the pipe ends are those behind the start of the scanner.
  pub add_all_live-leaks :
      (u v : Upstream F) (us : List (Upstream F)) (p : PromptProofConfig) (l : Live F)
      (pool : List Proc) (after : Os) (e : LockError) (pu pv : ParsedUrl)
      → w.parse u.url ≡ some pu
      → w.parse v.url ≡ some pv
      → u.tools_lock ≡ none
      → u.prompt_proof ≡ some p
      → p.enabled ≡ true
      → start_pool (new_scanner p (reply p)).size (attempt u.name) [] l.os ≡ pool_ready pool after
      → prepare_lock w.read w.decode_server v l.building.cache ≡ lock_failed e
      → add_all_live num w attempt reply (u ∷ v ∷ us) l ≡ not_live (bad_lock v.name e) after
  unfolding add_all_live
  add_all_live-leaks u v us p l pool after e pu pv a b t s enabled started bad =
      let (next, first, cache, os) = add_live-started u p l pool after pu a t s enabled started in
      let second =
        add_live-unlocked v next e pv b (ap (prepare_lock w.read w.decode_server v) cache ∙ bad) in
      rw (add_all_live, first, add_all_live, second) (ap (not_live (bad_lock v.name e)) os)
