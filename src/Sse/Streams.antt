-- ===== src/Sse/Streams.antt =====
-- Whole streams through the rewriter of gateway/sserewrite.go, and the one cut that shows.
use mcp_gateway_lite.Base.{
  ℕ, true, false, ◌&&◌, ◌||◌, Bytes, List, [], ◌∷◌, ◌++◌, append_assoc, append-nil, trim_last,
  concat, ◌≡◌, inr, refl, sym, ap, ◌∙◌, arith,
}
use mcp_gateway_lite.Sse.{
  Handler, SseRewriter, max_rpc_peek, trim_eol, write, overflow, overflow_partial, complete_line,
  finish_event, emit_event, reset_event, ingest, ingest_loop, keep_partial, split_newline,
  new_sse_rewriter, run, finish, scan, scanned, scan_boundary,
}
use mcp_gateway_lite.Sse.Feed.{IsSettled, loop_on, empty_line-IsSettled}
use mcp_gateway_lite.Sse.Chunks.{ends_in, begins_with, ingest-append}

-- No chunk behind the bytes `a` begins with a newline whose carriage return was the last byte.
abbrev pub PartsNoCrlf : Bytes → List Bytes → Type 0
PartsNoCrlf a [] = Unit
PartsNoCrlf a (b ∷ bs) = ((ends_in 13 a && begins_with 10 b) ≡ false) × PartsNoCrlf (a ++ b) bs

scan_newline : (q : ℕ) → q ≡ 0 → scan q (10 ∷ []) ≡ inr 1
unfolding scan
scan_newline q e = rw e

module _ {S : Type 0} (h : Handler S) where
  pub run-merge :
      (bs : List Bytes) (a : Bytes) (r : SseRewriter S)
      → IsSettled h r
      → PartsNoCrlf a bs
      → run h r (a ∷ bs) ≡ finish h (ingest h r (a ++ concat bs))
  unfolding run concat
  run-merge [] a r s p = rw append-nil
  run-merge (b ∷ bs) a r s p =
      ap (λ (q : SseRewriter S). run h q bs) (ingest-append h r a b s p.0)
      ∙ run-merge bs (a ++ b) r s p.1
      ∙ ap (λ (c : Bytes). finish h (ingest h r c)) (append_assoc a b (concat bs))

  pub new-IsSettled : (st : S) → IsSettled h (new_sse_rewriter st)
  unfolding new_sse_rewriter
  new-IsSettled st = empty_line-IsSettled h (new_sse_rewriter st) refl

  -- Two deliveries of one stream have the same effect, whatever the chunks are, if neither parts a
  -- carriage return from its newline: the same bytes are written, in the same order, and the
  -- request's rewrite state is the same at the end.
  pub run_chunks :
      (st : S) (a c : Bytes) (rest_a rest_c : List Bytes)
      → PartsNoCrlf a rest_a
      → PartsNoCrlf c rest_c
      → a ++ concat rest_a ≡ c ++ concat rest_c
      → run h (new_sse_rewriter st) (a ∷ rest_a) ≡ run h (new_sse_rewriter st) (c ∷ rest_c)
  run_chunks st a c rest_a rest_c p q e =
      run-merge rest_a a (new_sse_rewriter st) (new-IsSettled st) p
      ∙ ap (λ (b : Bytes). finish h (ingest h (new_sse_rewriter st) b)) e
      ∙ sym (run-merge rest_c c (new_sse_rewriter st) (new-IsSettled st) q)

  discard-complete_blank :
      (r : SseRewriter S) → (complete_line h (13 ∷ 10 ∷ []) r).discard ≡ r.discard
  unfolding complete_line trim_eol trim_last finish_event emit_event reset_event write
  discard-complete_blank r = ground arith

  overflow_discards :
      (r : SseRewriter S) → h.strict r.st ≡ true → (overflow_partial h r).discard ≡ true
  unfolding overflow_partial overflow
  overflow_discards r strict = rw strict

  overflow_bstate : (r : SseRewriter S) → (overflow_partial h r).bstate ≡ 0
  unfolding overflow_partial overflow
  overflow_bstate r = refl

  -- A rewriter at the start of a line, behind an event that fills the cap.
  record IsFull (r : SseRewriter S) : Type 0 where
    loud : r.raw ≡ false
    going : r.discard ≡ false
    blank : r.line ≡ []
    full : r.ev_size ≡ max_rpc_peek
    strict : h.strict r.st ≡ true

  whole_blank : (r : SseRewriter S) → IsFull r → (ingest h r (13 ∷ 10 ∷ [])).discard ≡ false
  unfolding ingest ingest_loop split_newline
  whole_blank r f = ground (arith, discard-complete_blank (record r { line = [] }))

  cut_partial :
      (r : SseRewriter S)
      → IsFull r
      → ingest h r (13 ∷ []) ≡ overflow_partial h (record r { line = 13 ∷ [] })
  unfolding ingest ingest_loop split_newline keep_partial
  cut_partial r f = ground arith

  cut_newline :
      (r : SseRewriter S) → r.discard ≡ true → r.bstate ≡ 0 → (ingest h r (10 ∷ [])).discard ≡ true
  unfolding ingest scan_boundary scanned write
  cut_newline r on q =
      ap (λ (r' : SseRewriter S). r'.discard)
        (loop_on h 0 r 10 [] (ground arith)
          ∙ loop_zero (scanned h r (10 ∷ []) (scan r.bstate (10 ∷ []))))
      ∙ rw (scan_newline r.bstate q) (ground arith)
    where
      loop_zero : (e : SseRewriter S × Bytes) → ingest_loop h 0 e.0 e.1 ≡ e.0
      loop_zero e = unfold ingest_loop in refl

  -- At the end of an event that fills the cap exactly, in strict mode: a blank line that arrives
  -- whole ends the event and the stream goes on; the same blank line, cut between its carriage
  -- return and its newline, is taken for an oversized event, and what follows is discarded.
  pub crlf_cut_at_cap :
      (r : SseRewriter S)
      → (r.raw || r.discard) ≡ false
      → r.line ≡ []
      → r.ev_size ≡ max_rpc_peek
      → h.strict r.st ≡ true
      → ((ingest h r (13 ∷ 10 ∷ [])).discard ≡ false)
        × ((ingest h (ingest h r (13 ∷ [])) (10 ∷ [])).discard ≡ true)
  crlf_cut_at_cap r off e full strict =
      let f : IsFull r = record {
        loud = ground arith;
        going = ground arith;
        blank = e;
        full = full;
        strict = strict;
      } in
      let cut = record r { line = 13 ∷ [] } in
      (
        whole_blank r f,
        rw (cut_partial r f) (
            cut_newline (overflow_partial h cut) (overflow_discards cut strict)
              (overflow_bstate cut)),
      )
