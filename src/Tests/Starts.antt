-- ===== src/Tests/Starts.antt =====
-- Gateways with a scanner of two processes, and a limiter of two sessions.
use mcp_gateway_lite.Base.{ℕ, Bytes, same, List, [], ◌∷◌, none, some, ◌==◌, ◌≡◌, refl, true, arith}
use mcp_gateway_lite.Base.Dict.{lookup}
use mcp_gateway_lite.Base.Int.{pos}
use mcp_gateway_lite.Config.Types.{Upstream, Config, PromptProofConfig}
use mcp_gateway_lite.PromptProof.{ScanReply, scan_error, new_scanner, contains_string}
use mcp_gateway_lite.PromptProof.Process.{Os, Proc, started, ensure, ensure_stopped}
use mcp_gateway_lite.PromptProof.Pool.{pool_ready, start_pool}
use mcp_gateway_lite.Lock.Prepare.{unreadable, lock_failed, prepare_lock, cached_lock_file}
use mcp_gateway_lite.Ratelimit.{new_session_limiter}
use mcp_gateway_lite.Ratelimit.Runs.{Arrival}
use mcp_gateway_lite.Ratelimit.Isolated.{answers_of, answers_alone, answers_of-alone}
use mcp_gateway_lite.Gateway.Build.{bad_lock, empty_building}
use mcp_gateway_lite.Gateway.Processes.{Live, not_live, add_all_live, new_live}
use mcp_gateway_lite.Gateway.Processes.Released.{GivesBack, new_live-GivesBack, add_all_live-leaks}
use mcp_gateway_lite.Tests.Toy.{whole, upstream_u, one_upstream, quiet_world}

abbrev three_requests : List Arrival
three_requests =
    record { session = b'p' ∷ []; made = 1; seen = 1; t = 1 }
    ∷ record { session = b'q' ∷ []; made = 2; seen = 2; t = 2 }
    ∷ record { session = b'p' ∷ []; made = 3; seen = 3; t = 3 }
    ∷ []

answers_of-alone_example :
    answers_of whole (b'p' ∷ []) three_requests (new_session_limiter whole 1 (pos 2) (pos 2))
    ≡ answers_alone whole 1 (pos 2) (b'p' ∷ []) three_requests none
unfolding new_session_limiter contains_string same
answers_of-alone_example =
    answers_of-alone whole 1 (pos 2) (pos 2) three_requests (b'p' ∷ []) (omega arith)

abbrev two_processes : PromptProofConfig
two_processes = record {
  enabled = true;
  binary = [];
  threshold = [];
  action = [];
  suspicious_at = pos 0;
  dangerous_at = pos 0;
  pool = pos 2;
}

abbrev scanning_upstream : Upstream ℕ
scanning_upstream = record upstream_u { prompt_proof = some two_processes }

abbrev locked_upstream : Upstream ℕ
locked_upstream = record upstream_u {
  name = b'v' ∷ [];
  tools_lock = some (record { file = b'l' ∷ []; server = []; mode = [] });
}

abbrev scanning_config : Config ℕ
scanning_config = record one_upstream { upstreams = scanning_upstream ∷ [] }

abbrev idle_os : Os
idle_os = record { descriptors = 3; children = 0 }

abbrev two_running : Os
two_running = record { descriptors = 9; children = 2 }

abbrev running : Proc
running = record { cmd = true; stdin = true; stdout_r = true; stdout = true }

abbrev silent : PromptProofConfig → Bytes → ScanReply
silent c content = scan_error []

new_live-GivesBack_example :
    GivesBack idle_os
      (new_live whole quiet_world (λ name n. started) silent (λ n. n == 0) scanning_config idle_os)
new_live-GivesBack_example =
    new_live-GivesBack whole quiet_world (λ name n. started) silent (λ n. n == 0) scanning_config
      idle_os

abbrev nothing_live : Live ℕ
nothing_live = record {
  building = empty_building whole quiet_world one_upstream;
  pools = [];
  os = idle_os;
}

two_started :
    start_pool (new_scanner two_processes (silent two_processes)).size (λ n. started) [] idle_os
    ≡ pool_ready (running ∷ running ∷ []) two_running
unfolding start_pool ensure ensure_stopped new_scanner
two_started = refl

no_lockfile :
    prepare_lock quiet_world.read quiet_world.decode_server locked_upstream []
    ≡ lock_failed (unreadable (b'l' ∷ []))
unfolding prepare_lock cached_lock_file lookup
no_lockfile = refl

add_all_live-leaks_example :
    add_all_live whole quiet_world
      (λ name n. started)
      silent
      (scanning_upstream ∷ locked_upstream ∷ [])
      nothing_live
    ≡ not_live (bad_lock (b'v' ∷ []) (unreadable (b'l' ∷ []))) two_running
add_all_live-leaks_example =
    add_all_live-leaks whole quiet_world (λ name n. started) silent scanning_upstream
      locked_upstream [] two_processes nothing_live (running ∷ running ∷ []) two_running
      (unreadable (b'l' ∷ [])) _ _ refl refl refl refl refl two_started no_lockfile
