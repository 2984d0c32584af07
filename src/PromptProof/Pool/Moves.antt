-- ===== src/PromptProof/Pool/Moves.antt =====
-- What a single move of Scan does to the processes of gateway/promptproof.go and what they own.
use mcp_gateway_lite.Base.{
  ℕ, ◌+◌, ◌*◌, ◌≤◌, false, ◌≡◌, refl, [], ◌∷◌, All, All-append, length, length-append, arith, subst,
  ap,
}
use mcp_gateway_lite.Codec.{Codec}
use mcp_gateway_lite.PromptProof.Process.{Os, Proc, scan, shutdown}
use mcp_gateway_lite.PromptProof.Accounts.{
  owned, Accounted, scan-Accounted, shutdown-Accounted, shutdown-stopped,
}
use mcp_gateway_lite.PromptProof.Pool.{
  Scanning, Shared, Move, take, run_scan, see_closed, see_open, stop, give_back,
}
use mcp_gateway_lite.PromptProof.Pool.Counts.{sum, sum-append, Sound, Aware, held, Tally}

-- A shut down process has given back what it owned.
pub shutdown-gives_back :
    {c d : ℕ} (p : Proc) (os : Os)
    → Accounted c d p os
    → ((shutdown p os).1.children ≡ c) × ((shutdown p os).1.descriptors ≡ d)
shutdown-gives_back {c} {d} p os w = (
  ground (arith, after.children, shutdown-stopped p os),
  ground (arith, after.descriptors, shutdown-stopped p os),
)
  where
    after : Accounted c d (shutdown p os).0 (shutdown p os).1
    after = shutdown-Accounted p os w

pub accounted :
    {c d : ℕ} {p : Proc} {os : Os}
    → Sound p
    → os.children ≡ c + owned p
    → os.descriptors ≡ d + 3 * owned p
    → Accounted c d p os
accounted s e f = record { stdin_open = s.0; stdout_open = s.1; children = e; descriptors = f }

module _ {codec : Codec} {size : ℕ} {m : Shared} where
  -- A move keeps the account of the channel and the call that moves.
  pub Move-Tally :
      {c d : ℕ} {pc next : Scanning} {m' : Shared}
      → Move codec size m pc m' next
      → Tally c d m pc
      → Tally c d m' next
  Move-Tally (take {p} {rest} e) w = record {
    sound_idle = (subst (All Sound) e w.sound_idle).1;
    sound_held = (subst (All Sound) e w.sound_idle).0;
    children = ground (arith, w.children, ap (sum owned) e);
    descriptors = ground (arith, w.descriptors, ap (sum owned) e);
  }
  Move-Tally {c} {d} (run_scan {content} {p} a serve) w = record {
    sound_idle = w.sound_idle;
    sound_held = (after.stdin_open, after.stdout_open);
    children = after.children;
    descriptors = after.descriptors;
  }
    where
      after :
          Accounted
            (c + sum owned m.idle)
            (d + 3 * sum owned m.idle)
            (scan codec a serve content p m.os).proc
            (scan codec a serve content p m.os).os
      after =
          scan-Accounted codec a serve content p m.os
            (accounted w.sound_held w.children w.descriptors)
  Move-Tally (see_closed e) w = record {
    sound_idle = w.sound_idle;
    sound_held = w.sound_held;
    children = w.children;
    descriptors = w.descriptors;
  }
  Move-Tally (see_open e) w = record {
    sound_idle = w.sound_idle;
    sound_held = w.sound_held;
    children = w.children;
    descriptors = w.descriptors;
  }
  Move-Tally {c} {d} (stop {p}) w = record {
    sound_idle = w.sound_idle;
    sound_held = tt;
    children = omega (arith, freed.0);
    descriptors = omega (arith, freed.1);
  }
    where
      freed :
          ((shutdown p m.os).1.children ≡ c + sum owned m.idle)
          × ((shutdown p m.os).1.descriptors ≡ d + 3 * sum owned m.idle)
      freed = shutdown-gives_back p m.os (accounted w.sound_held w.children w.descriptors)
  Move-Tally (give_back {p} h) w = record {
    sound_idle = All-append Sound m.idle (p ∷ []) w.sound_idle (w.sound_held, tt);
    sound_held = tt;
    children = omega (arith, w.children, sum-append owned m.idle (p ∷ []));
    descriptors = omega (arith, w.descriptors, sum-append owned m.idle (p ∷ []));
  }

  pub Move-closed :
      {pc next : Scanning} {m' : Shared} → Move codec size m pc m' next → m'.closed ≡ m.closed
  Move-closed (take e) = refl
  Move-closed (run_scan a serve) = refl
  Move-closed (see_closed e) = refl
  Move-closed (see_open e) = refl
  Move-closed stop = refl
  Move-closed (give_back h) = refl

  pub Move-Aware :
      {pc next : Scanning} {m' : Shared} → Move codec size m pc m' next → Aware m.closed next
  Move-Aware (take e) = tt
  Move-Aware (run_scan a serve) = tt
  Move-Aware (see_closed e) = e
  Move-Aware (see_open e) = tt
  Move-Aware stop = tt
  Move-Aware (give_back h) = tt

  -- A move of Scan keeps the number of processes, unless it ends one after Close.
  pub Move-count :
      {pc next : Scanning} {m' : Shared}
      → Move codec size m pc m' next
      → (length m'.idle + held next ≤ length m.idle + held pc)
        × (m.closed ≡ false
            → Aware m.closed pc
            → (length m'.idle + held next ≡ length m.idle + held pc))
  Move-count (take e) = (ground (arith, ap length e), λ f k. ground (arith, ap length e))
  Move-count (run_scan a serve) = (omega arith, λ f k. refl)
  Move-count (see_closed e) = (omega arith, λ f k. refl)
  Move-count (see_open e) = (omega arith, λ f k. refl)
  Move-count stop = (omega arith, λ f k. ground arith)
  Move-count (give_back {p} h) = (
    omega (arith, length-append m.idle (p ∷ [])),
    λ f k. omega (arith, length-append m.idle (p ∷ [])),
  )
