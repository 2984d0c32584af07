-- ===== src/PromptProof/Pool/Startup.antt =====
-- The start of the pool of gateway/promptproof.go: all processes, or none.
use mcp_gateway_lite.Base.{
  ℕ, zero, suc, ◌+◌, ◌*◌, Bytes, ◌≡◌, refl, List, [], ◌∷◌, ◌++◌, All, All-append, Option, none,
  some, length, length-append, arith, subst,
}
use mcp_gateway_lite.Codec.{Codec}
use mcp_gateway_lite.PromptProof.Process.{
  Os, Proc, new_proc, Start, ensure, ensure_stopped, shutdown, no_first_pipe, no_second_pipe,
  not_started, started,
}
use mcp_gateway_lite.PromptProof.Accounts.{owned, Accounted, ensure-Accounted}
use mcp_gateway_lite.PromptProof.Pool.{
  drain_all, PoolStart, start_failed, pool_ready, start_pool, Pool, Reach, fresh_pool,
}
use mcp_gateway_lite.PromptProof.Pool.Counts.{sum, sum-append, Sound}
use mcp_gateway_lite.PromptProof.Pool.Moves.{shutdown-gives_back, accounted}
use mcp_gateway_lite.PromptProof.Pool.Invariant.{Inv, Reach-Inv}

-- The processes that are started so far, and the system.
pub record Started (c d : ℕ) (pool : List Proc) (os : Os) : Type 0 where
  pub sound : All Sound pool
  pub children : os.children ≡ c + sum owned pool
  pub descriptors : os.descriptors ≡ d + 3 * sum owned pool

-- What a start of the pool ends in.
abbrev pub Outcome : ℕ → ℕ → PoolStart → ℕ → Type 0
Outcome c d (start_failed e os) n = (os.children ≡ c) × (os.descriptors ≡ d)
Outcome c d (pool_ready pool os) n = Started c d pool os × (length pool ≡ n)

module _ {c d : ℕ} where
  -- Close with no one else gives back what the processes own.
  pub drain_all-gives_back :
      (pool : List Proc) (os : Os)
      → Started c d pool os
      → ((drain_all pool os).children ≡ c) × ((drain_all pool os).descriptors ≡ d)
  unfolding drain_all
  drain_all-gives_back [] os w = (omega (arith, w.children), omega (arith, w.descriptors))
  drain_all-gives_back (p ∷ pool) os w =
      drain_all-gives_back pool _
        (record { sound = w.sound.1; children = freed.0; descriptors = freed.1 })
    where
      freed :
          ((shutdown p os).1.children ≡ c + sum owned pool)
          × ((shutdown p os).1.descriptors ≡ d + 3 * sum owned pool)
      freed =
          shutdown-gives_back p os
            (accounted w.sound.0 (omega (arith, w.children)) (omega (arith, w.descriptors)))

  module _ (pool : List Proc) (os : Os) (w : Started c d pool os) (a : Start) where
    one_more :
        Accounted
          (c + sum owned pool)
          (d + 3 * sum owned pool)
          (ensure a new_proc os).proc
          (ensure a new_proc os).os
    one_more = ensure-Accounted a new_proc os (record {
      stdin_open = λ e. ground arith;
      stdout_open = λ e. ground arith;
      children = omega (arith, w.children);
      descriptors = omega (arith, w.descriptors);
    })

    next-Started : Started c d (pool ++ (ensure a new_proc os).proc ∷ []) (ensure a new_proc os).os
    next-Started = record {
      sound = All-append Sound pool _ w.sound ((one_more.stdin_open, one_more.stdout_open), tt);
      children =
          omega
            (arith, one_more.children, sum-append owned pool ((ensure a new_proc os).proc ∷ []));
      descriptors =
          omega
            (arith, one_more.descriptors, sum-append owned pool ((ensure a new_proc os).proc ∷ []));
    }

    -- A start that fails leaves the other processes alone.
    failed-Started :
        {e : Bytes}
        → (ensure a new_proc os).error ≡ some e
        → Started c d pool (ensure a new_proc os).os
    unfolding ensure ensure_stopped
    failed-Started h = failed a h
      where
        failed :
            {e : Bytes} (b : Start)
            → (ensure b new_proc os).error ≡ some e
            → Started c d pool (ensure b new_proc os).os
        failed (no_first_pipe x) h = w
        failed (no_second_pipe x) h = record {
          sound = w.sound;
          children = w.children;
          descriptors = ground (arith, w.descriptors);
        }
        failed (not_started x) h = record {
          sound = w.sound;
          children = w.children;
          descriptors = ground (arith, w.descriptors);
        }
        failed started h = absurd (ground (arith, h))

  pub start_pool-Outcome :
      (n : ℕ) (attempt : ℕ → Start) (pool : List Proc) (os : Os)
      → Started c d pool os
      → Outcome c d (start_pool n attempt pool os) (n + length pool)
  unfolding start_pool
  start_pool-Outcome zero attempt pool os w = (w, omega arith)
  start_pool-Outcome (suc n) attempt pool os w =
      after (ensure (attempt n) new_proc os).error refl
        (start_pool-Outcome n attempt _ _ (next-Started pool os w (attempt n)))
    where
      after :
          (o : Option Bytes)
          → (ensure (attempt n) new_proc os).error ≡ o
          → Outcome c d
              (start_pool n attempt
                (pool ++ (ensure (attempt n) new_proc os).proc ∷ [])
                (ensure (attempt n) new_proc os).os)
              (n + length (pool ++ (ensure (attempt n) new_proc os).proc ∷ []))
          → Outcome c d (start_pool (suc n) attempt pool os) (suc n + length pool)
      after (some e) h rest =
          rw (start_pool, h) (drain_all-gives_back pool _ (failed-Started pool os w (attempt n) h))
      after none h rest =
          rw (start_pool, h)
            (subst (Outcome c d _)
              (omega (arith, length-append pool ((ensure (attempt n) new_proc os).proc ∷ []))) rest)

nothing-Started : (os : Os) → Started os.children os.descriptors [] os
nothing-Started os = record { sound = tt; children = omega arith; descriptors = omega arith }

-- Where newScanner fails, it has given back every child and every pipe end that it took.
pub start_pool-failed :
    (n : ℕ) (attempt : ℕ → Start) (os : Os) (e : Bytes) (after : Os)
    → start_pool n attempt [] os ≡ start_failed e after
    → (after.children ≡ os.children) × (after.descriptors ≡ os.descriptors)
start_pool-failed n attempt os e after h =
    subst (λ o. Outcome os.children os.descriptors o (n + 0)) h
      (start_pool-Outcome n attempt [] os (nothing-Started os))

-- In every interleaving of calls of Scan and of Close on the pool that newScanner has started, the
-- channel and the calls hold never more than its number of processes, and exactly that number until
-- Close is called. The children and the open pipe ends that the gateway has beyond those before
-- newScanner are exactly one child and three pipe ends for each running process that is held there.
pub start_pool-Inv :
    {codec : Codec} (n : ℕ) (attempt : ℕ → Start) (os : Os) {pool : List Proc} {after : Os}
    {t : Pool}
    → start_pool n attempt [] os ≡ pool_ready pool after
    → Reach codec n (fresh_pool pool after) t
    → Inv os.children os.descriptors n t
start_pool-Inv n attempt os {pool} {after} h r = Reach-Inv r (record {
  sound_idle = ready.0.sound;
  sound_held = tt;
  aware = tt;
  children = omega (arith, ready.0.children);
  descriptors = omega (arith, ready.0.descriptors);
  room = omega (arith, ready.1);
  flag = refl;
  whole = λ e. omega (arith, ready.1);
})
  where
    ready : Started os.children os.descriptors pool after × (length pool ≡ n + 0)
    ready =
        subst (λ o. Outcome os.children os.descriptors o (n + 0)) h
          (start_pool-Outcome n attempt [] os (nothing-Started os))
