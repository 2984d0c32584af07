-- ===== src/Audit/Sequences.antt =====
-- Any sequence of entries to an auditor of gateway/audit.go.
use mcp_gateway_lite.Base.{
  Bool, true, false, Bytes, List, [], ◌∷◌, ◌++◌, ◌≡◌, refl, sym, ap, ◌∙◌, append_assoc, append-nil,
  arith, Bool-cases, inl, inr,
}
use mcp_gateway_lite.Gateway.Types.{Entry}
use mcp_gateway_lite.Audit.{
  Auditor, Sink, report_text, report_failure, Marshalled, text, not_marshalled, WriteEnd, all_taken,
  write_failed, first_taken, log_line, log_entry, log_all,
}

-- What the sink takes of an entry: its line, or the first bytes of it where the write fails behind them,
-- or nothing where it is not encoded.
abbrev piece_of : Marshalled → WriteEnd → Bytes
piece_of (not_marshalled e) w = []
piece_of (text line) all_taken = line ++ b'\n' ∷ []
piece_of (text line) (write_failed n e) = first_taken n (line ++ b'\n' ∷ [])

abbrev error_of : Marshalled → WriteEnd → List Bytes
error_of (not_marshalled e) w = e ∷ []
error_of (text line) all_taken = []
error_of (text line) (write_failed n e) = e ∷ []

module _ (marshal : Entry → Marshalled) where
  abbrev pub pieces : List (Entry × WriteEnd) → Bytes
  pieces [] = []
  pieces (x ∷ xs) = piece_of (marshal x.0) x.1 ++ pieces xs

  abbrev pub errors : List (Entry × WriteEnd) → List Bytes
  errors [] = []
  errors (x ∷ xs) = error_of (marshal x.0) x.1 ++ errors xs

-- At most the first of the errors.
abbrev pub first_report : List Bytes → List Bytes
first_report [] = []
first_report (e ∷ es) = report_text e ∷ []

-- What a failed auditor still reports.
abbrev pub reports : Bool → List Bytes → List Bytes
reports true es = []
reports false es = first_report es

report_failure-written :
    (e : Bytes) (a : Auditor) (s : Sink) → (report_failure e a s).1.written ≡ s.written
unfolding report_failure
report_failure-written e a s = ground arith

report_failure-stderr :
    (e : Bytes) (a : Auditor) (s : Sink) (es : List Bytes)
    → (report_failure e a s).1.stderr ++ [] ≡ s.stderr ++ reports a.failed (e ∷ es)
unfolding report_failure
report_failure-stderr e a s es = elim (Bool-cases a.failed) [
  | inl f ↦ rw (report_failure, f) refl
  | inr f ↦ rw (report_failure, f) (append-nil _)
]

log_line-pieces :
    (m : Marshalled) (w : WriteEnd) (a : Auditor) (s : Sink) (ls : Bytes)
    → (log_line m w a s).1.written ++ ls ≡ s.written ++ (piece_of m w ++ ls)
unfolding log_line
log_line-pieces (text line) all_taken a s ls = append_assoc s.written (line ++ b'\n' ∷ []) ls
log_line-pieces (text line) (write_failed n e) a s ls =
    ap (λ (x : Bytes). x ++ ls) (report_failure-written e a _)
    ∙ append_assoc s.written (first_taken n (line ++ b'\n' ∷ [])) ls
log_line-pieces (not_marshalled e) w a s ls =
    ap (λ (x : Bytes). x ++ ls) (report_failure-written e a s)

log_line-errors :
    (m : Marshalled) (w : WriteEnd) (a : Auditor) (s : Sink) (es : List Bytes)
    → (log_line m w a s).1.stderr ++ reports (log_line m w a s).0.failed es
      ≡ s.stderr ++ reports a.failed (error_of m w ++ es)
unfolding log_line report_failure
log_line-errors (text line) all_taken a s es = refl
log_line-errors (text line) (write_failed n e) a s es = report_failure-stderr e a _ es
log_line-errors (not_marshalled e) w a s es = report_failure-stderr e a s es

-- Over any sequence of entries, whatever each write meets, an auditor has in its sink, behind what was
-- there, for each entry in order its line and a newline, or the bytes that a failing write has taken of
-- these, or nothing where the entry is not encoded; and on stderr the first error only, or none where
-- an earlier failure has been reported.
pub log_all-pieces :
    (marshal : Entry → Marshalled) (xs : List (Entry × WriteEnd)) (a : Auditor) (s : Sink)
    → ((log_all marshal xs a s).1.written ≡ s.written ++ pieces marshal xs)
      × ((log_all marshal xs a s).1.stderr ≡ s.stderr ++ reports a.failed (errors marshal xs))
unfolding log_all log_entry
log_all-pieces marshal [] a s = (sym (append-nil _), sym (none_reported a.failed))
  where
    none_reported : (b : Bool) → s.stderr ++ reports b [] ≡ s.stderr
    none_reported true = append-nil _
    none_reported false = append-nil _
log_all-pieces marshal (x ∷ xs) a s =
    let next = log_entry marshal x.0 x.1 a s in
    let (written, stderr) = log_all-pieces marshal xs next.0 next.1 in
    (
      written ∙ log_line-pieces (marshal x.0) x.1 a s (pieces marshal xs),
      stderr ∙ log_line-errors (marshal x.0) x.1 a s (errors marshal xs),
    )
