-- ===== src/Tests/Coprocesses.antt =====
-- Pools of one coprocess or two, and calls of Scan and Close on them.
use mcp_gateway_lite.Base.{ℕ, zero, suc, codes, [], ◌∷◌, ◌≡◌, refl, true, false, arith}
use mcp_gateway_lite.PromptProof.Process.{
  Os, Proc, Start, started, no_second_pipe, answered, timed_out, ensure, ensure_stopped, scan,
  shutdown,
}
use mcp_gateway_lite.PromptProof.Pool.{
  drain_all, start_failed, pool_ready, start_pool, waiting, not_called, draining, closed_down,
  drain, drained, Pool, arrive, close, Reach, here, later, fresh_pool,
}
use mcp_gateway_lite.PromptProof.Pool.Counts.{sum, held}
use mcp_gateway_lite.PromptProof.Pool.Invariant.{Inv}
use mcp_gateway_lite.PromptProof.Pool.Startup.{start_pool-Inv}
use mcp_gateway_lite.PromptProof.Pool.Serving.{At, Served, scan-Served}
use mcp_gateway_lite.PromptProof.Pool.Shutdown.{Close-gives_back}
use mcp_gateway_lite.PromptProof.Pool.Races.{scan-Waits, Close-misses}
use mcp_gateway_lite.Tests.Toy.{toy}

abbrev fresh_os : Os
fresh_os = record { descriptors = 3; children = 0 }

abbrev running : Proc
running = record { cmd = true; stdin = true; stdout_r = true; stdout = true }

abbrev one_started : Os
one_started = record { descriptors = 6; children = 1 }

abbrev always : ℕ → Start
always n = started

-- The second start fails.
abbrev once : ℕ → Start
once zero = no_second_pipe (codes "too many open files")
once (suc n) = started

start_pool-one : start_pool 1 always [] fresh_os ≡ pool_ready (running ∷ []) one_started
unfolding start_pool ensure ensure_stopped
start_pool-one = refl

start_pool-once :
    start_pool 2 once [] fresh_os ≡ start_failed (codes "too many open files") fresh_os
unfolding start_pool ensure ensure_stopped drain_all shutdown
start_pool-once = refl

abbrev one_call : Pool
one_call = record {
  mem = record { idle = running ∷ []; closed = false; os = one_started };
  scans = waiting (codes "x") ∷ [];
  closer = not_called;
}

one_call-Reach : Reach toy 1 (fresh_pool (running ∷ []) one_started) one_call
one_call-Reach = later here (arrive (codes "x"))

start_pool-Inv_example : Inv 0 3 1 one_call
start_pool-Inv_example = start_pool-Inv 1 always fresh_os start_pool-one one_call-Reach

scan-Served_example : Served toy 1 one_call 0 (codes "x")
scan-Served_example =
    scan-Served 1 always fresh_os started (λ s. timed_out) 0 (codes "x") start_pool-one
      one_call-Reach (omega arith) refl ([], [], refl, refl)

-- Close empties the channel before the call takes the process.
abbrev after_close : Pool
after_close = record {
  mem = record { idle = []; closed = true; os = (shutdown running one_started).1 };
  scans = waiting (codes "x") ∷ [];
  closer = closed_down;
}

close-Reach :
    Reach toy 1
      (record {
        mem = record one_call.mem { closed = true };
        scans = one_call.scans;
        closer = draining;
      })
      after_close
close-Reach = later (later here (close (drain refl))) (close (drained refl))

Close-gives_back_example :
    (after_close.mem.os.children ≡ fresh_os.children)
    × (after_close.mem.os.descriptors ≡ fresh_os.descriptors)
Close-gives_back_example =
    Close-gives_back 1 always fresh_os start_pool-one one_call-Reach refl (tt, tt) close-Reach refl
      refl

scan-Waits_example : At 0 (waiting (codes "x")) (waiting (codes "x") ∷ waiting (codes "y") ∷ [])
scan-Waits_example =
    scan-Waits {codec = toy} {size = 1} {s = after_close} refl refl refl (tt, tt)
      ([], [], refl, refl) (later here (arrive (codes "y")))

Close-misses_example :
    (t : Pool) × Reach toy 2
      (fresh_pool (running ∷ running ∷ []) (record { descriptors = 9; children = 2 }))
      t
    × (t.closer ≡ closed_down)
    × (sum held t.scans ≡ 0)
    × (t.mem.idle ≡ running ∷ [])
    × (t.mem.os ≡ one_started)
unfolding scan ensure drain_all shutdown
Close-misses_example =
    Close-misses toy running (running ∷ []) (record { descriptors = 9; children = 2 }) started
      (λ s. answered []) (codes "x")
