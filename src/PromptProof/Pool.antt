-- ===== src/PromptProof/Pool.antt =====
-- gateway/promptproof.go: the pool of coprocesses, its start, and its use by concurrent calls of Scan
-- and by Close, interleaved in any order. A call of Scan is where it stands; the channel is a queue;
-- Close runs once, so it has one place too. The mutex makes a look at `closed` one move.
pub mod Counts
pub mod Moves
pub mod Invariant
pub mod Startup
pub mod Shutdown
pub mod Races
pub mod Serving
use mcp_gateway_lite.Base.{
  ℕ, zero, suc, ◌+◌, ◌<◌, Bool, true, false, Bytes, ◌≡◌, List, [], ◌∷◌, ◌++◌, Option, none, some,
  length,
}
use mcp_gateway_lite.Codec.{Codec}
use mcp_gateway_lite.PromptProof.{ScanReply}
use mcp_gateway_lite.PromptProof.Process.{
  Os, Proc, new_proc, Start, ensure, Exchange, scan, shutdown,
}

-- The loop of Close where nothing else runs.
unfoldable pub drain_all : List Proc → Os → Os
unfolding shutdown
drain_all [] os = os
drain_all (p ∷ ps) os = drain_all ps (shutdown p os).1

pub data PoolStart : Type 0 where
  start_failed : Bytes → Os → PoolStart
  pool_ready : List Proc → Os → PoolStart

-- The loop of newScanner: `n` processes are left to start, `attempt` is what the next starts meet.
unfoldable pub start_pool : ℕ → (ℕ → Start) → List Proc → Os → PoolStart
unfolding ensure drain_all
start_pool zero attempt pool os = pool_ready pool os
start_pool (suc n) attempt pool os =
    let r = ensure (attempt n) new_proc os in
    elim r.error [
      | some e ↦ start_failed e (drain_all pool r.os)
      | none ↦ start_pool n attempt (pool ++ r.proc ∷ []) r.os
    ]

-- What the calls share.
pub record Shared : Type 0 where
  pub idle : List Proc
  pub closed : Bool
  pub os : Os

-- Where a call of Scan stands: before the receive, with a process, after the scan, after the look at
-- `closed` on either branch, at its end.
pub data Scanning : Type 0 where
  waiting : Bytes → Scanning
  holding : Bytes → Proc → Scanning
  replied : ScanReply → Proc → Scanning
  ending : ScanReply → Proc → Scanning
  returning : ScanReply → Proc → Scanning
  finished : ScanReply → Scanning

pub data Closer : Type 0 where
  not_called : Closer
  draining : Closer
  closed_down : Closer

-- The moves of a call of Scan on a pool of `size`. A receive wants a process in the channel, a send
-- room for one.
pub data Move (codec : Codec) (size : ℕ) (m : Shared) : Scanning → Shared → Scanning → Type 0 where
  take :
      {content : Bytes} {p : Proc} {rest : List Proc}
      → m.idle ≡ p ∷ rest
      → Move codec size m (waiting content) (record m { idle = rest }) (holding content p)
  run_scan :
      {content : Bytes} {p : Proc} (a : Start) (serve : Bytes → Exchange)
      → Move codec size m
          (holding content p)
          (record m { os = (scan codec a serve content p m.os).os })
          (replied
            (scan codec a serve content p m.os).reply
            (scan codec a serve content p m.os).proc)
  see_closed :
      {r : ScanReply} {p : Proc} → m.closed ≡ true → Move codec size m (replied r p) m (ending r p)
  see_open :
      {r : ScanReply} {p : Proc}
      → m.closed ≡ false
      → Move codec size m (replied r p) m (returning r p)
  stop :
      {r : ScanReply} {p : Proc}
      → Move codec size m (ending r p) (record m { os = (shutdown p m.os).1 }) (finished r)
  give_back :
      {r : ScanReply} {p : Proc}
      → length m.idle < size
      → Move codec size m (returning r p) (record m { idle = m.idle ++ p ∷ [] }) (finished r)

-- The moves of Close.
pub data Closing (m : Shared) : Closer → Shared → Closer → Type 0 where
  set_closed : Closing m not_called (record m { closed = true }) draining
  drain :
      {p : Proc} {rest : List Proc}
      → m.idle ≡ p ∷ rest
      → Closing m draining (record m { idle = rest; os = (shutdown p m.os).1 }) draining
  drained : m.idle ≡ [] → Closing m draining m closed_down

pub record Pool : Type 0 where
  pub mem : Shared
  pub scans : List Scanning
  pub closer : Closer

pub data Step (codec : Codec) (size : ℕ) (s : Pool) : Pool → Type 0 where
  arrive :
      (content : Bytes) → Step codec size s (record s { scans = s.scans ++ waiting content ∷ [] })
  pick :
      {m : Shared} {pc next : Scanning} (before after : List Scanning)
      → s.scans ≡ before ++ pc ∷ after
      → Move codec size s.mem pc m next
      → Step codec size s (record s { mem = m; scans = before ++ next ∷ after })
  close :
      {m : Shared} {next : Closer}
      → Closing s.mem s.closer m next
      → Step codec size s (record s { mem = m; closer = next })

pub data Reach (codec : Codec) (size : ℕ) (s : Pool) : Pool → Type 0 where
  here : Reach codec size s s
  later : {t u : Pool} → Reach codec size s t → Step codec size t u → Reach codec size s u

-- A pool that newScanner returns, before its first use.
abbrev pub fresh_pool : List Proc → Os → Pool
fresh_pool pool os = record {
  mem = record { idle = pool; closed = false; os = os };
  scans = [];
  closer = not_called;
}
