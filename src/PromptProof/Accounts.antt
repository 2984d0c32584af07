-- ===== src/PromptProof/Accounts.antt =====
-- What a coprocess of gateway/promptproof.go has of the system: a running one three open pipe ends and
-- a child, a stopped one nothing. Every operation keeps that account, on every branch.
use mcp_gateway_lite.Base.{
  ℕ, ◌+◌, ◌*◌, Bool, true, false, Bytes, ◌≡◌, refl, Option, none, some, arith, if◌then◌else◌,
}
use mcp_gateway_lite.Codec.{Codec}
use mcp_gateway_lite.PromptProof.Process.{
  Os, Proc, Start, no_first_pipe, no_second_pipe, not_started, started, ensure, ensure_stopped,
  kill, shutdown, Exchange, answered, io_failed, timed_out, after_exchange, scan,
}

-- The children of a process: one, if it runs.
abbrev pub owned : Proc → ℕ
owned p = if p.cmd then 1 else 0

-- A process with what it owns, in a system where others own `c` children and `d` descriptors.
pub record Accounted (c d : ℕ) (p : Proc) (os : Os) : Type 0 where
  pub stdin_open : p.cmd ≡ true → p.stdin ≡ true
  pub stdout_open : p.cmd ≡ true → p.stdout_r ≡ true
  pub children : os.children ≡ c + owned p
  pub descriptors : os.descriptors ≡ d + 3 * owned p

module _ {c d : ℕ} where
  ensure_stopped-Accounted :
      (a : Start) (p : Proc) (os : Os)
      → p.cmd ≡ false
      → Accounted c d p os
      → Accounted c d (ensure_stopped a p os).proc (ensure_stopped a p os).os
  unfolding ensure_stopped
  ensure_stopped-Accounted (no_first_pipe e) p os h w = w
  ensure_stopped-Accounted (no_second_pipe e) p os h w = record {
    stdin_open = w.stdin_open;
    stdout_open = w.stdout_open;
    children = w.children;
    descriptors = ground (arith, w.descriptors);
  }
  ensure_stopped-Accounted (not_started e) p os h w = record {
    stdin_open = w.stdin_open;
    stdout_open = w.stdout_open;
    children = w.children;
    descriptors = ground (arith, w.descriptors);
  }
  ensure_stopped-Accounted started p os h w = record {
    stdin_open = λ e. refl;
    stdout_open = λ e. refl;
    children = ground (arith, w.children);
    descriptors = ground (arith, w.descriptors);
  }

  pub ensure-Accounted :
      (a : Start) (p : Proc) (os : Os)
      → Accounted c d p os
      → Accounted c d (ensure a p os).proc (ensure a p os).os
  unfolding ensure
  ensure-Accounted a p os w = running p.cmd refl
    where
      running : (b : Bool) → p.cmd ≡ b → Accounted c d (ensure a p os).proc (ensure a p os).os
      running true e = simp e w
      running false e = simp e (ensure_stopped-Accounted a p os e w)

  pub kill-Accounted :
      (p : Proc) (os : Os) → Accounted c d p os → Accounted c d (kill p os).0 (kill p os).1
  unfolding kill
  kill-Accounted p os w = record {
    stdin_open = ground (arith, w.stdin_open);
    stdout_open = ground (arith, w.stdout_open);
    children = ground (arith, w.children, w.stdin_open, w.stdout_open);
    descriptors = ground (arith, w.descriptors, w.stdin_open, w.stdout_open);
  }

  pub shutdown-Accounted :
      (p : Proc) (os : Os) → Accounted c d p os → Accounted c d (shutdown p os).0 (shutdown p os).1
  unfolding shutdown
  shutdown-Accounted p os w = record {
    stdin_open = ground (arith, w.stdin_open);
    stdout_open = ground (arith, w.stdout_open);
    children = ground (arith, w.children, w.stdin_open, w.stdout_open);
    descriptors = ground (arith, w.descriptors, w.stdin_open, w.stdout_open);
  }

  after_exchange-Accounted :
      (codec : Codec) (x : Exchange) (p : Proc) (os : Os)
      → Accounted c d p os
      → Accounted c d (after_exchange codec x p os).proc (after_exchange codec x p os).os
  unfolding after_exchange
  after_exchange-Accounted codec (answered line) p os w = w
  after_exchange-Accounted codec (io_failed e) p os w = kill-Accounted p os w
  after_exchange-Accounted codec timed_out p os w = kill-Accounted p os w

  pub scan-Accounted :
      (codec : Codec) (a : Start) (serve : Bytes → Exchange) (content : Bytes) (p : Proc) (os : Os)
      → Accounted c d p os
      → Accounted c d (scan codec a serve content p os).proc (scan codec a serve content p os).os
  unfolding scan
  scan-Accounted codec a serve content p os w = after (ensure a p os).error refl
    where
      after :
          (o : Option Bytes)
          → (ensure a p os).error ≡ o
          → Accounted c d
              (scan codec a serve content p os).proc
              (scan codec a serve content p os).os
      after (some e) h = rw (scan, h) (ensure-Accounted a p os w)
      after none h = rw (scan, h) (after_exchange-Accounted codec _ _ _ (ensure-Accounted a p os w))

-- A shut down process owns nothing.
pub shutdown-stopped : (p : Proc) (os : Os) → (shutdown p os).0.cmd ≡ false
unfolding shutdown
shutdown-stopped p os = ground arith
