-- ===== src/Gateway/Build.antt =====
-- gateway/gateway.go: `New`, from a configuration to a gateway with its limiters. The parser of URLs, the
-- lockfiles and the start of a scanner's processes are parameters; the auditor is there.
use mcp_gateway_lite.Base.{ℕ, Bool, Bytes, List, [], ◌∷◌, Option, none, some, if◌then◌else◌}
use mcp_gateway_lite.Base.Dict.{Dict, insert}
use mcp_gateway_lite.Base.Int.{pos}
use mcp_gateway_lite.Config.Types.{Upstream, Config, PromptProofConfig}
use mcp_gateway_lite.Config.{ParsedUrl, ConfigError, validate}
use mcp_gateway_lite.Policy.{new_tool_policy}
use mcp_gateway_lite.Lock.{PreparedLock}
use mcp_gateway_lite.Lock.Prepare.{
  LockFile, LockServer, LockError, ReadResult, Prepared, prepared, lock_failed, prepare_lock,
}
use mcp_gateway_lite.PromptProof.{ScanReply, new_scanner}
use mcp_gateway_lite.Ratelimit.{Float64, new_token_bucket, new_session_limiter, max_session_buckets}
use mcp_gateway_lite.Gateway.Types.{Gateway, State}

pub data BuildError : Type 0 where
  invalid_config : ConfigError → BuildError
  bad_proxy_url : Bytes → BuildError
  bad_lock : Bytes → LockError → BuildError
  bad_scanner : Bytes → BuildError

-- The surroundings of New: net/url, the lockfiles, the clock, and a scanner's processes, which start
-- and answer contents, or do not start.
pub record World : Type 0 where
  pub parse : Bytes → Option ParsedUrl
  pub read : Bytes → ReadResult
  pub decode_server : Bytes → Option LockServer
  pub start : PromptProofConfig → Option (Bytes → ScanReply)
  pub now : ℕ

-- The maps while they are filled, and the lockfiles read so far.
pub record Building (F : Type 0) : Type 0 where
  pub gateway : Gateway F
  pub state : State F
  pub cache : Dict LockFile

pub data Built (A : Type 0) : Type 0 where
  built : A → Built A
  build_failed : BuildError → Built A

abbrev pub insert_some : {V : Type 0} → Bytes → Option V → Dict V → Dict V
insert_some k none m = m
insert_some k (some v) m = insert k v m

abbrev pub next_build : {A B : Type 0} → Built A → (A → Built B) → Built B
next_build (build_failed e) f = build_failed e
next_build (built a) f = f a

module _ {F : Type 0} (num : Float64 F) (w : World) where
  -- The proxy and the upstream's configuration.
  unfoldable pub add_route : Upstream F → Building F → Built (Building F)
  add_route u b = elim (w.parse u.url) [
    | none ↦ build_failed (bad_proxy_url u.name)
    | some p ↦ built (record b {
      gateway = record b.gateway { upstreams = insert u.name u b.gateway.upstreams };
    })
  ]

  unfoldable pub add_limit : Upstream F → Building F → Building F
  add_limit u b = elim u.rate_limit [
    | none ↦ b
    | some r ↦
        if r.per_session
        then record b {
          state = record b.state {
            session_limits =
                insert u.name
                  (new_session_limiter num r.requests_per_second r.burst (pos max_session_buckets))
                  b.state.session_limits;
          };
        }
        else record b {
          state = record b.state {
            limits =
                insert u.name (new_token_bucket num r.requests_per_second r.burst w.now)
                  b.state.limits;
          };
        }
  ]

  unfoldable pub add_policy : Upstream F → Building F → Building F
  unfolding new_tool_policy
  add_policy u b = record b {
    gateway = record b.gateway {
      policies = insert_some u.name (new_tool_policy u) b.gateway.policies;
    };
  }

  abbrev pub with_lock :
      Upstream F → Building F → Prepared (Option PreparedLock) → Built (Building F)
  with_lock u b (lock_failed e) = build_failed (bad_lock u.name e)
  with_lock u b (prepared l cache) = built (record b {
    gateway = record b.gateway { locks = insert_some u.name l b.gateway.locks };
    cache = cache;
  })

  unfoldable pub add_lock : Upstream F → Building F → Built (Building F)
  add_lock u b = with_lock u b (prepare_lock w.read w.decode_server u b.cache)

  abbrev pub with_scanner_started :
      Upstream F → PromptProofConfig → Building F → Option (Bytes → ScanReply) → Built (Building F)
  with_scanner_started u c b none = build_failed (bad_scanner u.name)
  with_scanner_started u c b (some reply) = built (record b {
    gateway = record b.gateway {
      scanners = insert u.name (new_scanner c reply) b.gateway.scanners;
    };
  })

  unfoldable pub add_scanner : Upstream F → Building F → Built (Building F)
  unfolding new_scanner
  add_scanner u b = elim u.prompt_proof [
    | none ↦ built b
    | some c ↦ if c.enabled then with_scanner_started u c b (w.start c) else built b
  ]

  -- One round of the loop over the upstreams.
  unfoldable pub add_upstream : Upstream F → Building F → Built (Building F)
  unfolding add_route add_limit add_policy add_lock add_scanner
  add_upstream u b =
      next_build (add_route u b)
        (λ routed. next_build (add_lock u (add_policy u (add_limit u routed))) (add_scanner u))

  unfoldable pub add_upstreams : List (Upstream F) → Building F → Built (Building F)
  unfolding add_upstream
  add_upstreams [] b = built b
  add_upstreams (u ∷ us) b = next_build (add_upstream u b) (add_upstreams us)

  abbrev pub empty_building : Config F → Building F
  empty_building c = record {
    gateway = record {
      public_base_url = c.public_base_url;
      upstreams = [];
      policies = [];
      locks = [];
      scanners = [];
    };
    state = record { limits = []; session_limits = []; log = []; called = [] };
    cache = [];
  }

  unfoldable pub new_gateway : (F → Bool) → Config F → Built (Building F)
  unfolding validate add_upstreams
  new_gateway not_positive c = elim (validate not_positive w.parse c).0 [
    | some e ↦ build_failed (invalid_config e)
    | none ↦
        add_upstreams (validate not_positive w.parse c).1.upstreams
          (empty_building (validate not_positive w.parse c).1)
  ]
