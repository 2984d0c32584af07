-- ===== src/Audit.antt =====
-- gateway/audit.go: the auditor over a sink. What json.Marshal makes of an entry and what each write meets
-- are parameters; time and duration of an entry are in its text. The mutex makes a write one step.
pub mod Sequences
use mcp_gateway_lite.Base.{
  ℕ, zero, suc, Bool, true, false, ◌||◌, Bytes, codes, same, List, [], ◌∷◌, ◌++◌, Option, none,
  some, is_nil, if◌then◌else◌,
}
use mcp_gateway_lite.Gateway.Types.{Entry}

-- An auditor: whether it closes its writer, and whether a failure has been reported.
pub record Auditor : Type 0 where
  pub closer : Bool
  pub failed : Bool

-- What the sink has taken, and the lines of stderr.
pub record Sink : Type 0 where
  pub written : Bytes
  pub stderr : List Bytes

pub data Opened : Type 0 where
  auditor : Auditor → Opened
  open_failed : Bytes → Opened

unfoldable pub new_auditor_writer : Auditor
new_auditor_writer = record { closer = false; failed = false }

-- NewAuditor: `open_append` is what os.OpenFile of the path meets.
unfoldable pub new_auditor : (Bytes → Option Bytes) → Bytes → Opened
unfolding codes same
new_auditor open_append path =
    if is_nil path || same path (codes "-")
    then auditor (record { closer = false; failed = false })
    else elim (open_append path) [
      | some e ↦ open_failed (codes "audit: open " ++ (path ++ (codes ": " ++ e)))
      | none ↦ auditor (record { closer = true; failed = false })
    ]

unfoldable pub report_text : Bytes → Bytes
unfolding codes
report_text e =
    codes "mcp-gateway-lite: audit write failed (further failures suppressed): "
    ++ (e ++ codes "\n")

unfoldable pub report_failure : Bytes → Auditor → Sink → Auditor × Sink
unfolding report_text
report_failure e a s = (
  record a { failed = true },
  if a.failed then s else record s { stderr = s.stderr ++ report_text e ∷ [] },
)

-- What an encoder makes of an entry.
pub data Marshalled : Type 0 where
  text : Bytes → Marshalled
  not_marshalled : Bytes → Marshalled

-- What io.Writer.Write meets: it takes all, or the first bytes, fewer or all, and then an error.
pub data WriteEnd : Type 0 where
  all_taken : WriteEnd
  write_failed : ℕ → Bytes → WriteEnd

unfoldable pub first_taken : ℕ → Bytes → Bytes
first_taken zero s = []
first_taken (suc n) [] = []
first_taken (suc n) (c ∷ s) = c ∷ first_taken n s

abbrev pub written_bytes : Bytes → Sink → Sink
written_bytes bs s = record s { written = s.written ++ bs }

-- Log of a marshalled entry, where the write meets `w`.
unfoldable pub log_line : Marshalled → WriteEnd → Auditor → Sink → Auditor × Sink
unfolding report_failure first_taken
log_line (not_marshalled e) w a s = report_failure e a s
log_line (text line) all_taken a s = (a, written_bytes (line ++ b'\n' ∷ []) s)
log_line (text line) (write_failed n e) a s =
    report_failure e a (written_bytes (first_taken n (line ++ b'\n' ∷ [])) s)

unfoldable pub log_entry : (Entry → Marshalled) → Entry → WriteEnd → Auditor → Sink → Auditor × Sink
unfolding log_line
log_entry marshal e w a s = log_line (marshal e) w a s

-- A sequence of entries, each with what its write meets.
unfoldable pub log_all :
    (Entry → Marshalled) → List (Entry × WriteEnd) → Auditor → Sink → Auditor × Sink
unfolding log_entry
log_all marshal [] a s = (a, s)
log_all marshal (x ∷ xs) a s =
    let next = log_entry marshal x.0 x.1 a s in log_all marshal xs next.0 next.1
