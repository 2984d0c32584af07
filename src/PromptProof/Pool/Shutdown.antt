-- ===== src/PromptProof/Pool/Shutdown.antt =====
-- Close of gateway/promptproof.go beside calls of Scan: what it shuts down, and what it does not.
use mcp_gateway_lite.Base.{
  ℕ, true, Bytes, ◌≡◌, ◌≢◌, refl, List, [], ◌∷◌, All, All-append, arith, subst, ap, sym, ◌∙◌,
}
use mcp_gateway_lite.Codec.{Codec}
use mcp_gateway_lite.PromptProof.Process.{Os, Proc, Start}
use mcp_gateway_lite.PromptProof.Pool.{
  pool_ready, start_pool, Scanning, waiting, holding, replied, ending, returning, finished, Shared,
  Closer, not_called, draining, closed_down, Move, take, run_scan, see_closed, see_open, stop,
  give_back, Closing, set_closed, drain, drained, Pool, Step, arrive, pick, close, Reach, here,
  later, fresh_pool,
}
use mcp_gateway_lite.PromptProof.Pool.Counts.{sum, All-middle, All-replace, held, of_held}
use mcp_gateway_lite.PromptProof.Accounts.{owned}
use mcp_gateway_lite.PromptProof.Pool.Moves.{Move-closed}
use mcp_gateway_lite.PromptProof.Pool.Invariant.{Inv, Reach-Inv}
use mcp_gateway_lite.PromptProof.Pool.Startup.{start_pool-Inv}

-- A call is not between its look at an unset flag and its send.
abbrev pub Calm : Scanning → Type 0
Calm (returning r p) = ⊥
Calm pc = Unit

-- The pool after a call of Close that met no call between look and send.
pub record Closed (s : Pool) : Type 0 where
  pub flag : s.mem.closed ≡ true
  pub called : s.closer ≢ not_called
  pub calm : All Calm s.scans
  pub emptied : s.closer ≡ closed_down → s.mem.idle ≡ []

nonempty : {A : Type 0} {x : A} {xs : List A} → (x ∷ xs) ≢ []
nonempty e = absurd (ground arith)

module _ {codec : Codec} {size : ℕ} {m : Shared} (f : m.closed ≡ true) where
  Move-Calm :
      {pc next : Scanning} {m' : Shared} → Move codec size m pc m' next → Calm pc → Calm next
  Move-Calm (take e) k = tt
  Move-Calm (run_scan a serve) k = tt
  Move-Calm (see_closed e) k = tt
  Move-Calm (see_open e) k = absurd (ground (arith, f, e))
  Move-Calm stop k = tt
  Move-Calm (give_back h) k = tt

  pub Move-empty :
      {pc next : Scanning} {m' : Shared}
      → Move codec size m pc m' next
      → Calm pc
      → m.idle ≡ []
      → m'.idle ≡ []
  Move-empty (take e) k i = absurd (nonempty (sym e ∙ i))
  Move-empty (run_scan a serve) k i = i
  Move-empty (see_closed e) k i = i
  Move-empty (see_open e) k i = i
  Move-empty stop k i = i
  Move-empty (give_back h) k i = absurd k

Closing-Closed :
    {m m' : Shared} {scans : List Scanning} {closer next : Closer}
    → Closing m closer m' next
    → Closed (record { mem = m; scans = scans; closer = closer })
    → Closed (record { mem = m'; scans = scans; closer = next })
Closing-Closed set_closed w = absurd (w.called refl)
Closing-Closed (drain e) w = record {
  flag = w.flag;
  called = w.called;
  calm = w.calm;
  emptied = λ k. absurd (ground arith);
}
Closing-Closed (drained e) w = record {
  flag = w.flag;
  called = λ k. absurd (ground arith);
  calm = w.calm;
  emptied = λ k. e;
}

pub Step-Closed :
    {codec : Codec} {size : ℕ} {s t : Pool} → Step codec size s t → Closed s → Closed t
Step-Closed {s} (arrive content) w = record {
  flag = w.flag;
  called = w.called;
  calm = All-append Calm s.scans _ w.calm (tt, tt);
  emptied = w.emptied;
}
Step-Closed {s} (pick {m} {pc} {next} before after e mv) w = record {
  flag = Move-closed mv ∙ w.flag;
  called = w.called;
  calm =
      All-replace Calm before pc next after (subst (All Calm) e w.calm) (Move-Calm w.flag mv calm);
  emptied = λ k. Move-empty w.flag mv calm (w.emptied k);
}
  where
    calm : Calm pc
    calm = All-middle Calm before pc after (subst (All Calm) e w.calm)
Step-Closed (close mv) w = Closing-Closed mv w

pub Reach-Closed :
    {codec : Codec} {size : ℕ} {s t : Pool} → Reach codec size s t → Closed s → Closed t
Reach-Closed here w = w
Reach-Closed (later r step) w = Step-Closed step (Reach-Closed r w)

-- Nothing is owned where no process is held.
unheld : (scans : List Scanning) → sum held scans ≡ 0 → sum (of_held owned) scans ≡ 0
unheld [] h = refl
unheld (waiting c ∷ scans) h = omega (arith, unheld scans (omega (arith, h)))
unheld (holding c p ∷ scans) h = absurd (omega (arith, h))
unheld (replied c p ∷ scans) h = absurd (omega (arith, h))
unheld (ending c p ∷ scans) h = absurd (omega (arith, h))
unheld (returning c p ∷ scans) h = absurd (omega (arith, h))
unheld (finished c ∷ scans) h = omega (arith, unheld scans (omega (arith, h)))

-- Where no call of Scan is between its look at the flag and its send when Close sets the flag, then
-- whenever Close has returned and no call holds a process, whatever the interleaving, every child and
-- every pipe end that the scanner took is given back.
pub Close-gives_back :
    {codec : Codec} (n : ℕ) (attempt : ℕ → Start) (os : Os) {pool : List Proc} {ready : Os}
    {s t : Pool}
    → start_pool n attempt [] os ≡ pool_ready pool ready
    → Reach codec n (fresh_pool pool ready) s
    → s.closer ≡ not_called
    → All Calm s.scans
    → Reach codec n
        (record { mem = record s.mem { closed = true }; scans = s.scans; closer = draining })
        t
    → t.closer ≡ closed_down
    → sum held t.scans ≡ 0
    → (t.mem.os.children ≡ os.children) × (t.mem.os.descriptors ≡ os.descriptors)
Close-gives_back {codec} n attempt os {s} {t} h r e calm after k none_held = (
  ground (arith, inv.children, unheld t.scans none_held, ap (sum owned) (w.emptied k)),
  ground (arith, inv.descriptors, unheld t.scans none_held, ap (sum owned) (w.emptied k)),
)
  where
    w : Closed t
    w = Reach-Closed after (record {
      flag = refl;
      called = λ x. absurd (ground arith);
      calm = calm;
      emptied = λ x. absurd (ground arith);
    })

    set :
        {closer : Closer}
        → closer ≡ not_called
        → Closing s.mem closer (record s.mem { closed = true }) draining
    set {closer} e =
        subst (λ x. Closing s.mem x (record s.mem { closed = true }) draining) (sym e) set_closed

    inv : Inv os.children os.descriptors n t
    inv = Reach-Inv after (start_pool-Inv n attempt os h (later r (close (set e))))

-- A call that waits cannot move while the channel is empty.
pub Move-waits :
    {codec : Codec} {size : ℕ} {m m' : Shared} {pc next : Scanning} {content : Bytes}
    → Move codec size m pc m' next
    → m.idle ≡ []
    → pc ≢ waiting content
Move-waits (take e) i = absurd (nonempty (sym e ∙ i))
Move-waits (run_scan a serve) i = λ q. absurd (ground arith)
Move-waits (see_closed e) i = λ q. absurd (ground arith)
Move-waits (see_open e) i = λ q. absurd (ground arith)
Move-waits stop i = λ q. absurd (ground arith)
Move-waits (give_back h) i = λ q. absurd (ground arith)
