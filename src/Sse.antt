-- ===== src/Sse.antt =====
-- gateway/sserewrite.go: the byte-level rewriter of text/event-stream bodies. The events are handed to
-- a `Handler`, which stands for the rewriteState (gateway/responsefilter.go): its state, what it
-- makes of a message, its error for an oversized event, and its note of a reason.
pub mod Feed
pub mod Chunks
pub mod Streams
pub mod Events
pub mod Transparency
use mcp_gateway_lite.Base.{
  ℕ, zero, suc, ◌+◌, Bool, true, false, not, ◌&&◌, ◌||◌, Bytes, codes, same, List, [], ◌∷◌, ◌++◌,
  Option, none, some, is_nil, if◌then◌else◌, ◌⊎◌, inl, inr, ltb, ◌==◌, length, trim_last,
  strip_prefix, join, concat,
}
use mcp_gateway_lite.Base.Int.{ℤ}

-- What becomes of one complete event with data: it passes, or its data is replaced by a payload.
pub data Action : Type 0 where
  keep : Action
  replace : Bytes → Action

pub record Handler (S : Type 0) : Type 0 where
  pub strict : S → Bool
  pub on_message : S → Bytes → Action × S
  pub cap_error : S → Bytes
  pub note_cap : S → S

-- maxRPCPeek, the processing cap of gateway/gateway.go
abbrev pub max_rpc_peek : ℕ
max_rpc_peek = 1048576

-- The fields of sseRewriter, without the source stream. `out` is all that has been written to the
-- buffer: `Read` only moves its front to the client.
pub record SseRewriter (S : Type 0) : Type 0 where
  pub st : S
  pub out : Bytes
  pub line : Bytes
  pub ev_lines : List Bytes
  pub ev_is_data : List Bool
  pub ev_data : List Bytes
  pub ev_size : ℕ
  pub raw : Bool
  pub discard : Bool
  pub bstate : ℕ

unfoldable pub new_sse_rewriter : {S : Type 0} → S → SseRewriter S
new_sse_rewriter st = record {
  st = st;
  out = [];
  line = [];
  ev_lines = [];
  ev_is_data = [];
  ev_data = [];
  ev_size = 0;
  raw = false;
  discard = false;
  bstate = 0;
}

unfoldable pub trim_eol : Bytes → Bytes
unfolding trim_last
trim_eol l = trim_last 13 (trim_last 10 l)

-- bytes.IndexByte(b, '\n'): the part up to the newline, and the part behind it
unfoldable pub split_newline : Bytes → Option (Bytes × Bytes)
split_newline [] = none
split_newline (c ∷ b) =
    let rest = split_newline b in
    if c == 10 then some (c ∷ [], b) else elim rest [ none ↦ none | some (l, r) ↦ some (c ∷ l, r) ]

-- One byte of the boundary detector; `none` is an event boundary.
unfoldable pub boundary_step : ℕ → ℕ → Option ℕ
boundary_step q c =
    if q == 0
    then (if c == 10 then some 1 else some 0)
    else if c == 10
    then none
    else if q == 1 && c == 13
    then some 2
    else some 0

unfoldable pub see : ℕ → (Bytes × Bytes) ⊎ ℕ → (Bytes × Bytes) ⊎ ℕ
see c (inl (seen, rest)) = inl (c ∷ seen, rest)
see c (inr q) = inr q

-- The detector over a chunk: the bytes up to a boundary and those behind it, or its last state.
unfoldable pub scan : ℕ → Bytes → (Bytes × Bytes) ⊎ ℕ
unfolding boundary_step see
scan q [] = inr q
scan q (c ∷ b) = elim (boundary_step q c) [ none ↦ inl (c ∷ [], b) | some q' ↦ see c (scan q' b) ]

unfoldable pub data_prefix : Bytes
unfolding codes
data_prefix = codes "data:"

drop_space : Bytes → Bytes
drop_space [] = []
drop_space (c ∷ v) = if c == 32 then v else c ∷ v

-- The payload of a data line.
unfoldable pub data_of : Bytes → Option Bytes
unfolding drop_space data_prefix strip_prefix
data_of stripped = elim (strip_prefix data_prefix stripped) [
  | none ↦ none
  | some v ↦ some (drop_space v)
]

-- The lines of an event that are not data, in order.
unfoldable pub other_lines : List Bytes → List Bool → Bytes
other_lines [] flags = []
other_lines (l ∷ ls) [] = l ++ other_lines ls []
other_lines (l ∷ ls) (b ∷ flags) = if b then other_lines ls flags else l ++ other_lines ls flags

module _ {S : Type 0} (h : Handler S) where
  unfoldable pub reset_event : SseRewriter S → SseRewriter S
  reset_event r = record r { ev_lines = []; ev_is_data = []; ev_data = []; ev_size = 0 }

  unfoldable pub write : Bytes → SseRewriter S → SseRewriter S
  write b r = record r { out = r.out ++ b }

  -- A write that happens in raw mode only.
  unfoldable pub write_raw : Bytes → SseRewriter S → SseRewriter S
  unfolding write
  write_raw b r = if r.raw then write b r else r

  unfoldable pub leave_raw : SseRewriter S → SseRewriter S
  leave_raw r = record r { raw = false; discard = false; bstate = 0 }

  unfoldable pub scanned : SseRewriter S → Bytes → (Bytes × Bytes) ⊎ ℕ → SseRewriter S × Bytes
  unfolding write_raw leave_raw
  scanned r b (inl (seen, rest)) = (leave_raw (write_raw seen r), rest)
  scanned r b (inr q) = (record (write_raw b r) { bstate = q }, [])

  unfoldable pub scan_boundary : SseRewriter S → Bytes → SseRewriter S × Bytes
  scan_boundary r b = scanned r b (scan r.bstate b)

  unfoldable pub emit_cap_error : SseRewriter S → SseRewriter S
  unfolding write data_prefix
  emit_cap_error r =
      let noted = record r { st = h.note_cap r.st } in
      write (data_prefix ++ (32 ∷ (h.cap_error noted.st ++ (10 ∷ 10 ∷ [])))) noted

  -- What both overflows do: replace the event by an error and drop the rest, or let it stream
  -- through. `pending` is what has been read of the current line.
  unfoldable pub overflow : Bytes → ℕ → SseRewriter S → SseRewriter S
  unfolding emit_cap_error reset_event write concat
  overflow pending q r =
      let dropped = record (emit_cap_error r) { discard = true } in
      let streamed = record (write (concat r.ev_lines ++ pending) r) { raw = true } in
      reset_event (record (if h.strict r.st then dropped else streamed) { bstate = q })

  unfoldable pub overflow_partial : SseRewriter S → SseRewriter S
  unfolding overflow
  overflow_partial r = overflow r.line 0 (record r { line = [] })

  unfoldable pub overflow_line : Bytes → SseRewriter S → SseRewriter S
  unfolding overflow
  overflow_line l r = overflow l 1 r

  unfoldable pub emit_replaced : Bytes → Bytes → SseRewriter S → SseRewriter S
  unfolding write other_lines data_prefix
  emit_replaced payload blank r =
      write
        (other_lines r.ev_lines r.ev_is_data ++ (data_prefix ++ (32 ∷ (payload ++ (10 ∷ blank))))) r

  -- What is written for an event that is handed on.
  unfoldable pub emit_event : Action → Bytes → SseRewriter S → SseRewriter S
  unfolding emit_replaced write concat
  emit_event keep blank r = write (concat r.ev_lines ++ blank) r
  emit_event (replace payload) blank r = emit_replaced payload blank r

  unfoldable pub finish_event : Bytes → SseRewriter S → SseRewriter S
  finish_event blank r =
      if is_nil r.ev_data
      then reset_event (emit_event keep blank r)
      else let (action, st') = h.on_message r.st (join 10 r.ev_data) in
        reset_event (emit_event action blank (record r { st = st' }))

  unfoldable pub push_line : Bytes → Option Bytes → SseRewriter S → SseRewriter S
  push_line l none r = record r {
    ev_lines = r.ev_lines ++ l ∷ [];
    ev_is_data = r.ev_is_data ++ false ∷ [];
  }
  push_line l (some v) r = record r {
    ev_lines = r.ev_lines ++ l ∷ [];
    ev_is_data = r.ev_is_data ++ true ∷ [];
    ev_data = r.ev_data ++ v ∷ [];
  }

  unfoldable pub complete_line : Bytes → SseRewriter S → SseRewriter S
  complete_line l r =
      let size = r.ev_size + length l in
      if is_nil (trim_eol l)
      then finish_event l r
      else if ltb max_rpc_peek size
      then overflow_line l (record r { ev_size = size })
      else push_line l (data_of (trim_eol l)) (record r { ev_size = size })

  -- The end of a chunk with no newline: the line is kept, unless it is too long.
  unfoldable pub keep_partial : Bytes → SseRewriter S → SseRewriter S
  keep_partial b r =
      let kept = record r { line = r.line ++ b } in
      if ltb max_rpc_peek (length kept.line + kept.ev_size) then overflow_partial kept else kept

  -- The loop of `ingest`. Each round takes a byte or more, so the length of the chunk is fuel enough.
  unfoldable pub ingest_loop : ℕ → SseRewriter S → Bytes → SseRewriter S
  ingest_loop zero r b = r
  ingest_loop (suc fuel) r [] = r
  ingest_loop (suc fuel) r (c ∷ b) = elim (r.raw || r.discard) [
    | true ↦ let (r', rest) = scan_boundary r (c ∷ b) in ingest_loop fuel r' rest
    | false ↦ elim (split_newline (c ∷ b)) [
      | none ↦ keep_partial (c ∷ b) r
      | some (l, rest) ↦
          ingest_loop fuel (complete_line (r.line ++ l) (record r { line = [] })) rest
    ]
  ]

  unfoldable pub ingest : SseRewriter S → Bytes → SseRewriter S
  ingest r b = ingest_loop (length b) r b

  unfoldable pub finish : SseRewriter S → SseRewriter S
  unfolding write reset_event concat
  finish r =
      if r.raw || r.discard
      then r
      else reset_event (record (write (concat r.ev_lines ++ r.line) r) { line = [] })

  -- The chunks that `Read` takes from the source, in order, up to its end.
  unfoldable pub run : SseRewriter S → List Bytes → SseRewriter S
  run r [] = finish r
  run r (b ∷ bs) = run (ingest r b) bs
