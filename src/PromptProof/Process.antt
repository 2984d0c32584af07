-- ===== src/PromptProof/Process.antt =====
-- gateway/promptproof.go: one coprocess, its start, a scan, its end. What the operating system and
-- the coprocess do is an argument: how far a start comes, and what answers a frame. Of the system
-- the model counts what the gateway must give back: open pipe ends and children that are not reaped.
use mcp_gateway_lite.Base.{
  ℕ, ◌+◌, ◌-◌, Bool, true, false, Bytes, codes, ◌∷◌, ◌++◌, [], Option, none, some, length,
  if◌then◌else◌,
}
use mcp_gateway_lite.Base.Int.{itoa, pos}
use mcp_gateway_lite.Codec.{Codec}
use mcp_gateway_lite.PromptProof.{ScanReply, scan_error, parse_report}

pub record Os : Type 0 where
  pub descriptors : ℕ
  pub children : ℕ

abbrev open_pipe : Os → Os
open_pipe os = record os { descriptors = os.descriptors + 2 }

abbrev close : Os → Os
close os = record os { descriptors = os.descriptors - 1 }

abbrev close_if : Bool → Os → Os
close_if b os = if b then close os else os

abbrev fork : Os → Os
fork os = record os { children = os.children + 1 }

-- cmd.Wait, which also closes the end of the pipe that os/exec reads the child's stderr from.
abbrev wait_for : Os → Os
wait_for os = close (record os { children = os.children - 1 })

-- cmd.Start: the child's stderr goes to io.Discard, for which os/exec opens a pipe of its own; the child's
-- end of it is closed behind the start.
abbrev start_child : Os → Os
start_child os = close (fork (open_pipe os))

-- A coprocess: which of its pointers are not nil.
pub record Proc : Type 0 where
  pub cmd : Bool
  pub stdin : Bool
  pub stdout_r : Bool
  pub stdout : Bool

abbrev pub new_proc : Proc
new_proc = record { cmd = false; stdin = false; stdout_r = false; stdout = false }

-- How far a start comes, with the error of the call that fails.
pub data Start : Type 0 where
  no_first_pipe : Bytes → Start
  no_second_pipe : Bytes → Start
  not_started : Bytes → Start
  started : Start

-- A process after an operation that may fail, and the system.
pub record Ensured : Type 0 where
  pub error : Option Bytes
  pub proc : Proc
  pub os : Os

-- A start that fails closes what os/exec has opened itself.
unfoldable pub ensure_stopped : Start → Proc → Os → Ensured
ensure_stopped (no_first_pipe e) p os = record { error = some e; proc = p; os = os }
ensure_stopped (no_second_pipe e) p os = record {
  error = some e;
  proc = p;
  os = close (close (open_pipe os));
}
ensure_stopped (not_started e) p os = record {
  error = some e;
  proc = p;
  os = close (close (close (close (open_pipe (open_pipe os)))));
}
ensure_stopped started p os = record {
  error = none;
  proc = record { cmd = true; stdin = true; stdout_r = true; stdout = true };
  os = close (close (start_child (open_pipe (open_pipe os))));
}

unfoldable pub ensure : Start → Proc → Os → Ensured
unfolding ensure_stopped
ensure a p os = if p.cmd then record { error = none; proc = p; os = os } else ensure_stopped a p os

unfoldable pub kill : Proc → Os → Proc × Os
kill p os =
    if p.cmd then (new_proc, wait_for (close_if p.stdout_r (close_if p.stdin os))) else (p, os)

unfoldable pub shutdown : Proc → Os → Proc × Os
shutdown p os =
    if p.cmd
    then (record p { cmd = false }, close_if p.stdout_r (wait_for (close_if p.stdin os)))
    else (p, os)

-- What a coprocess does with a frame, within the time limit.
pub data Exchange : Type 0 where
  answered : Bytes → Exchange
  io_failed : Bytes → Exchange
  timed_out : Exchange

-- The bytes that a scan writes: the length in decimal, a line feed, the content.
unfoldable pub frame : Bytes → Bytes
unfolding itoa
frame content = (itoa (pos (length content)) ++ b'\n' ∷ []) ++ content

scan_io_error : Bytes → ScanReply
unfolding codes
scan_io_error e = scan_error (codes "promptproof scan I/O: " ++ e)

scan_timeout : ScanReply
unfolding codes
scan_timeout = scan_error (codes "promptproof scan timed out after 5s")

pub record Scanned : Type 0 where
  pub reply : ScanReply
  pub proc : Proc
  pub os : Os

unfoldable pub after_exchange : Codec → Exchange → Proc → Os → Scanned
unfolding kill parse_report scan_io_error scan_timeout
after_exchange codec (answered line) p os = record {
  reply = parse_report codec line;
  proc = p;
  os = os;
}
after_exchange codec (io_failed e) p os =
    let killed = kill p os in record { reply = scan_io_error e; proc = killed.0; os = killed.1 }
after_exchange codec timed_out p os =
    let killed = kill p os in record { reply = scan_timeout; proc = killed.0; os = killed.1 }

-- `serve` is what the coprocess does with the bytes that it is sent.
unfoldable pub scan : Codec → Start → (Bytes → Exchange) → Bytes → Proc → Os → Scanned
unfolding ensure after_exchange frame
scan codec a serve content p os =
    let r = ensure a p os in
    elim r.error [
      | some e ↦ record { reply = scan_error e; proc = r.proc; os = r.os }
      | none ↦ after_exchange codec (serve (frame content)) r.proc r.os
    ]
