-- ===== src/PromptProof/Pool/Races.antt =====
-- Two interleavings of Scan and Close in gateway/promptproof.go that Close does not provide for.
use mcp_gateway_lite.Base.{
  ℕ, suc, true, false, Bytes, ◌≡◌, ◌≢◌, refl, List, [], ◌∷◌, ◌++◌, All, length, arith, subst, ap,
  sym, ◌∙◌, append_assoc,
}
use mcp_gateway_lite.Codec.{Codec}
use mcp_gateway_lite.PromptProof.Process.{Os, Proc, Start, Exchange, scan}
use mcp_gateway_lite.PromptProof.Pool.{
  drain_all, Scanning, waiting, returning, Shared, Closer, not_called, draining, closed_down, take,
  run_scan, see_open, give_back, Closing, set_closed, drain, drained, Pool, Step, arrive, pick,
  close, Reach, here, later, fresh_pool,
}
use mcp_gateway_lite.PromptProof.Pool.Counts.{sum, All-middle, held}
use mcp_gateway_lite.PromptProof.Pool.Serving.{At, replace-At}
use mcp_gateway_lite.PromptProof.Pool.Shutdown.{Calm, Closed, Step-Closed, Move-empty, Move-waits}

-- Close has returned, the channel is empty, and a call waits.
record Stuck (i : ℕ) (content : Bytes) (s : Pool) : Type 0 where
  over : Closed s
  returned : s.closer ≡ closed_down
  empty : s.mem.idle ≡ []
  place : At i (waiting content) s.scans

no_more : {m m' : Shared} {closer next : Closer} → Closing m closer m' next → closer ≢ closed_down
no_more set_closed = λ q. absurd (ground arith)
no_more (drain e) = λ q. absurd (ground arith)
no_more (drained e) = λ q. absurd (ground arith)

Step-Stuck :
    {codec : Codec} {size i : ℕ} {content : Bytes} {s t : Pool}
    → Step codec size s t
    → Stuck i content s
    → Stuck i content t
Step-Stuck {codec} {size} {s} (arrive c) w = record {
  over = Step-Closed {codec = codec} {size = size} (arrive c) w.over;
  returned = w.returned;
  empty = w.empty;
  place =
      let (b, rest, found, len) = w.place in
      (b, rest ++ waiting c ∷ [], ap (λ xs. xs ++ waiting c ∷ []) found ∙ append_assoc b _ _, len);
}
Step-Stuck {i} {content} {s} (pick {pc} {next} before after e mv) w = record {
  over = Step-Closed (pick before after e mv) w.over;
  returned = w.returned;
  empty = Move-empty w.over.flag mv calm w.empty;
  place =
      let (b, rest, found, len) = w.place in
      subst (λ k. At k (waiting content) (before ++ next ∷ after)) len
        (replace-At next (Move-waits mv w.empty) before after b rest (sym e ∙ found));
}
  where
    calm : Calm pc
    calm = All-middle Calm before pc after (subst (All Calm) e w.over.calm)
Step-Stuck (close mv) w = absurd (no_more mv w.returned)

Reach-Stuck :
    {codec : Codec} {size i : ℕ} {content : Bytes} {s t : Pool}
    → Reach codec size s t
    → Stuck i content s
    → Stuck i content t
Reach-Stuck here w = w
Reach-Stuck (later r step) w = Step-Stuck step (Reach-Stuck r w)

-- A call of Scan that waits for a process when Close has returned, while no call is between its look
-- at the flag and its send, waits forever: whatever steps follow, it still waits at its place.
pub scan-Waits :
    {codec : Codec} {size i : ℕ} {content : Bytes} {s t : Pool}
    → s.mem.closed ≡ true
    → s.closer ≡ closed_down
    → s.mem.idle ≡ []
    → All Calm s.scans
    → At i (waiting content) s.scans
    → Reach codec size s t
    → At i (waiting content) t.scans
scan-Waits f returned empty calm place r =
    (Reach-Stuck r (record {
      over = record {
        flag = f;
        called = λ e. absurd (ground (arith, e, returned));
        calm = calm;
        emptied = λ e. empty;
      };
      returned = returned;
      empty = empty;
      place = place;
    })).place

-- A pool with what the loop of Close sees and changes.
abbrev closing_pool : List Scanning → List Proc → Os → Pool
closing_pool scans idle os = record {
  mem = record { idle = idle; closed = true; os = os };
  scans = scans;
  closer = draining;
}

drains :
    {codec : Codec} {size : ℕ} {s : Pool} (scans : List Scanning) (idle : List Proc) (os : Os)
    → Reach codec size s (closing_pool scans idle os)
    → Reach codec size s (closing_pool scans [] (drain_all idle os))
unfolding drain_all
drains scans [] os r = r
drains scans (p ∷ idle) os r = drains scans idle _ (later r (close (drain refl)))

-- On every pool there is an interleaving after which Close has returned, no call holds a process, and
-- a process is still in the channel, as its last scan left it: its call looks at the flag, Close sets
-- the flag and empties the channel, and then the call sends.
pub Close-misses :
    (codec : Codec) (p : Proc) (rest : List Proc) (os : Os) (a : Start) (serve : Bytes → Exchange)
    (content : Bytes)
    → (t : Pool) × Reach codec (suc (length rest)) (fresh_pool (p ∷ rest) os) t
      × (t.closer ≡ closed_down)
      × (sum held t.scans ≡ 0)
      × (t.mem.idle ≡ (scan codec a serve content p os).proc ∷ [])
      × (t.mem.os ≡ drain_all rest (scan codec a serve content p os).os)
Close-misses codec p rest os a serve content =
    (_, later emptied (pick [] [] refl (give_back (omega arith))), refl, refl, refl, refl)
  where
    looked : Reach codec (suc (length rest)) (fresh_pool (p ∷ rest) os) (record {
      mem = record { idle = rest; closed = false; os = (scan codec a serve content p os).os };
      scans =
          returning (scan codec a serve content p os).reply (scan codec a serve content p os).proc
          ∷ [];
      closer = not_called;
    })
    looked =
        later
          (later (later (later here (arrive content)) (pick [] [] refl (take refl)))
            (pick [] [] refl (run_scan a serve)))
          (pick [] [] refl (see_open refl))

    emptied : Reach codec (suc (length rest)) (fresh_pool (p ∷ rest) os) (record {
      mem = record {
        idle = [];
        closed = true;
        os = drain_all rest (scan codec a serve content p os).os;
      };
      scans =
          returning (scan codec a serve content p os).reply (scan codec a serve content p os).proc
          ∷ [];
      closer = closed_down;
    })
    emptied = later (drains _ rest _ (later looked (close set_closed))) (close (drained refl))
