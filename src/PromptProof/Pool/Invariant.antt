-- ===== src/PromptProof/Pool/Invariant.antt =====
-- Every interleaving on the pool of gateway/promptproof.go keeps the processes, and what they own.
use mcp_gateway_lite.Base.{
  ℕ, ◌+◌, ◌*◌, ◌≤◌, Bool, true, false, ◌≡◌, refl, List, [], ◌∷◌, ◌++◌, All, All-append, All-map,
  length, arith, subst, ap, sym, ◌∙◌,
}
use mcp_gateway_lite.Codec.{Codec}
use mcp_gateway_lite.PromptProof.Process.{shutdown}
use mcp_gateway_lite.PromptProof.Accounts.{owned}
use mcp_gateway_lite.PromptProof.Pool.{
  Scanning, waiting, holding, replied, ending, returning, finished, Shared, Closer, not_called,
  draining, closed_down, Closing, set_closed, drain, drained, Pool, Step, arrive, pick, close,
  Reach, here, later,
}
use mcp_gateway_lite.PromptProof.Pool.Counts.{
  sum, sum-append, All-middle, All-replace, Sound, Held, Aware, of_held, held, Tally,
}
use mcp_gateway_lite.PromptProof.Pool.Moves.{
  shutdown-gives_back, accounted, Move-Tally, Move-closed, Move-Aware, Move-count,
}

-- The flag that tells of a call of Close.
abbrev pub Flagged : Closer → Bool → Type 0
Flagged not_called b = b ≡ false
Flagged draining b = b ≡ true
Flagged closed_down b = b ≡ true

-- What holds of the pool between any two steps, in a system where others own `c` children and `d`
-- descriptors: the channel and the calls hold `size` processes until Close, and never more. All
-- children and descriptors are theirs.
pub record Inv (c d size : ℕ) (s : Pool) : Type 0 where
  pub sound_idle : All Sound s.mem.idle
  pub sound_held : All (Held Sound) s.scans
  pub aware : All (Aware s.mem.closed) s.scans
  pub children : s.mem.os.children ≡ c + sum owned s.mem.idle + sum (of_held owned) s.scans
  pub descriptors :
      s.mem.os.descriptors ≡ d + 3 * sum owned s.mem.idle + 3 * sum (of_held owned) s.scans
  pub room : length s.mem.idle + sum held s.scans ≤ size
  pub flag : Flagged s.closer s.mem.closed
  pub whole : s.mem.closed ≡ false → length s.mem.idle + sum held s.scans ≡ size

Aware-true : (b : Bool) (pc : Scanning) → Aware b pc → Aware true pc
Aware-true b (waiting x) w = tt
Aware-true b (holding x p) w = tt
Aware-true b (replied x p) w = tt
Aware-true b (ending x p) w = refl
Aware-true b (returning x p) w = tt
Aware-true b (finished x) w = tt

module _ {c d size : ℕ} where
  Closing-Inv :
      {m m' : Shared} {scans : List Scanning} {closer next : Closer}
      → Closing m closer m' next
      → Inv c d size (record { mem = m; scans = scans; closer = closer })
      → Inv c d size (record { mem = m'; scans = scans; closer = next })
  Closing-Inv {scans} set_closed w = record {
    sound_idle = w.sound_idle;
    sound_held = w.sound_held;
    aware = All-map (Aware-true _) scans w.aware;
    children = w.children;
    descriptors = w.descriptors;
    room = w.room;
    flag = refl;
    whole = λ e. ground arith;
  }
  Closing-Inv {m} {scans} (drain {p} {rest} e) w = record {
    sound_idle = (subst (All Sound) e w.sound_idle).1;
    sound_held = w.sound_held;
    aware = w.aware;
    children = omega (arith, freed.0);
    descriptors = omega (arith, freed.1);
    room = ground (arith, w.room, ap length e);
    flag = w.flag;
    whole = λ h. ground (arith, w.flag);
  }
    where
      freed :
          ((shutdown p m.os).1.children ≡ c + (sum owned rest + sum (of_held owned) scans))
          × ((shutdown p m.os).1.descriptors ≡ d + 3 * (sum owned rest + sum (of_held owned) scans))
      freed = shutdown-gives_back p m.os (
          accounted (subst (All Sound) e w.sound_idle).0
            (ground (arith, w.children, ap (sum owned) e))
            (ground (arith, w.descriptors, ap (sum owned) e)))
  Closing-Inv (drained e) w = record {
    sound_idle = w.sound_idle;
    sound_held = w.sound_held;
    aware = w.aware;
    children = w.children;
    descriptors = w.descriptors;
    room = w.room;
    flag = w.flag;
    whole = w.whole;
  }

  pub Step-Inv :
      {codec : Codec} {s t : Pool} → Step codec size s t → Inv c d size s → Inv c d size t
  Step-Inv {s} (arrive content) w = record {
    sound_idle = w.sound_idle;
    sound_held = All-append (Held Sound) s.scans _ w.sound_held (tt, tt);
    aware = All-append (Aware s.mem.closed) s.scans _ w.aware (tt, tt);
    children = omega (arith, w.children, added (of_held owned) refl);
    descriptors = omega (arith, w.descriptors, added (of_held owned) refl);
    room = omega (arith, w.room, added held refl);
    flag = w.flag;
    whole = λ e. omega (arith, w.whole e, added held refl);
  }
    where
      added :
          (f : Scanning → ℕ)
          → f (waiting content) ≡ 0
          → sum f (s.scans ++ waiting content ∷ []) ≡ sum f s.scans
      added f e = omega (arith, e, sum-append f s.scans (waiting content ∷ []))
  Step-Inv {s} (pick {m} {pc} {next} before after e mv) w = record {
    sound_idle = tally.sound_idle;
    sound_held =
        All-replace (Held Sound) before pc next after (subst (All (Held Sound)) e w.sound_held)
          tally.sound_held;
    aware = rw (Move-closed mv) (
        All-replace (Aware s.mem.closed) before pc next after
          (subst (All (Aware s.mem.closed)) e w.aware) (Move-Aware mv));
    children = omega (arith, tally.children, split next (of_held owned));
    descriptors = omega (arith, tally.descriptors, split next (of_held owned));
    room = omega (arith, w.room, (Move-count mv).0, split next held, split_old held);
    flag = rw (Move-closed mv) w.flag;
    whole = λ h. omega (
      arith,
      w.whole (sym (Move-closed mv) ∙ h),
      split next held,
      split_old held,
      (Move-count mv).1 (sym (Move-closed mv) ∙ h) aware,
    );
  }
    where
      split :
          (x : Scanning) (f : Scanning → ℕ)
          → sum f (before ++ x ∷ after) ≡ f x + (sum f before + sum f after)
      split x f = omega (arith, sum-append f before (x ∷ after))

      split_old : (f : Scanning → ℕ) → sum f s.scans ≡ f pc + (sum f before + sum f after)
      split_old f = rw e (split pc f)

      aware : Aware s.mem.closed pc
      aware =
          All-middle (Aware s.mem.closed) before pc after
            (subst (All (Aware s.mem.closed)) e w.aware)

      tally :
          Tally
            (c + (sum (of_held owned) before + sum (of_held owned) after))
            (d + 3 * (sum (of_held owned) before + sum (of_held owned) after))
            m
            next
      tally = Move-Tally mv (record {
        sound_idle = w.sound_idle;
        sound_held =
            All-middle (Held Sound) before pc after (subst (All (Held Sound)) e w.sound_held);
        children = omega (arith, w.children, split_old (of_held owned));
        descriptors = omega (arith, w.descriptors, split_old (of_held owned));
      })
  Step-Inv {s} (close mv) w = Closing-Inv mv w

  pub Reach-Inv :
      {codec : Codec} {s t : Pool} → Reach codec size s t → Inv c d size s → Inv c d size t
  Reach-Inv here w = w
  Reach-Inv (later r step) w = Step-Inv step (Reach-Inv r w)
