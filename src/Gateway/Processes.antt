-- ===== src/Gateway/Processes.antt =====
-- gateway/gateway.go: New with the processes of its scanners, and Close. What the start of each process
-- of an upstream's scanner meets is a parameter, and what its processes answer.
pub mod Rounds
pub mod Released
use mcp_gateway_lite.Base.{ℕ, Bool, Bytes, List, [], ◌∷◌, Option, none, some, if◌then◌else◌}
use mcp_gateway_lite.Base.Dict.{Dict, insert}
use mcp_gateway_lite.Config.Types.{Upstream, Config, PromptProofConfig}
use mcp_gateway_lite.Config.{validate}
use mcp_gateway_lite.PromptProof.{ScanReply, Scanner, new_scanner}
use mcp_gateway_lite.PromptProof.Process.{Os, Proc, Start}
use mcp_gateway_lite.PromptProof.Pool.{drain_all, PoolStart, start_failed, pool_ready, start_pool}
use mcp_gateway_lite.Ratelimit.{Float64}
use mcp_gateway_lite.Gateway.Build.{
  BuildError, invalid_config, bad_scanner, World, Building, Built, built, build_failed, add_route,
  add_limit, add_policy, add_lock, empty_building,
}

-- The maps while they are filled, with the pools of the scanners that run, and the system.
pub record Live (F : Type 0) : Type 0 where
  pub building : Building F
  pub pools : Dict (List Proc)
  pub os : Os

pub data LiveResult (F : Type 0) : Type 0 where
  live : Live F → LiveResult F
  not_live : BuildError → Os → LiveResult F

-- Gateway.Close, where no scan is under way.
unfoldable pub close_pools : Dict (List Proc) → Os → Os
unfolding drain_all
close_pools [] os = os
close_pools ((k, pool) ∷ m) os = close_pools m (drain_all pool os)

module _ {F : Type 0} (num : Float64 F) (w : World) (attempt : Bytes → ℕ → Start)
    (reply : PromptProofConfig → Bytes → ScanReply) where
  abbrev pub scanner_started : Upstream F → PromptProofConfig → Live F → PoolStart → LiveResult F
  scanner_started u c l (start_failed e os) = not_live (bad_scanner u.name) (close_pools l.pools os)
  scanner_started u c l (pool_ready pool os) = live (record {
    building = record l.building {
      gateway = record l.building.gateway {
        scanners = insert u.name (new_scanner c (reply c)) l.building.gateway.scanners;
      };
    };
    pools = insert u.name pool l.pools;
    os = os;
  })

  unfoldable pub start_scanner : Upstream F → Live F → LiveResult F
  unfolding new_scanner start_pool close_pools
  start_scanner u l = elim u.prompt_proof [
    | none ↦ live l
    | some c ↦
        if c.enabled
        then scanner_started u c l
            (start_pool (new_scanner c (reply c)).size (attempt u.name) [] l.os)
        else live l
  ]

  -- An error of a step that starts nothing: New returns, and closes nothing.
  abbrev pub next_live : Live F → Built (Building F) → (Live F → LiveResult F) → LiveResult F
  next_live l (build_failed e) f = not_live e l.os
  next_live l (built b) f = f (record l { building = b })

  -- One round of the loop over the upstreams.
  unfoldable pub add_live : Upstream F → Live F → LiveResult F
  unfolding add_route add_limit add_policy add_lock start_scanner
  add_live u l = next_live l (add_route num w u l.building) (λ routed.
      next_live routed (add_lock num w u (add_policy num w u (add_limit num w u routed.building)))
        (start_scanner u))

  abbrev pub then_live : LiveResult F → (Live F → LiveResult F) → LiveResult F
  then_live (not_live e os) f = not_live e os
  then_live (live l) f = f l

  unfoldable pub add_all_live : List (Upstream F) → Live F → LiveResult F
  unfolding add_live
  add_all_live [] l = live l
  add_all_live (u ∷ us) l = then_live (add_live u l) (add_all_live us)

  unfoldable pub new_live : (F → Bool) → Config F → Os → LiveResult F
  unfolding validate add_all_live
  new_live not_positive c os = elim (validate not_positive w.parse c).0 [
    | some e ↦ not_live (invalid_config e) os
    | none ↦ add_all_live (validate not_positive w.parse c).1.upstreams (record {
      building = empty_building num w (validate not_positive w.parse c).1;
      pools = [];
      os = os;
    })
  ]
