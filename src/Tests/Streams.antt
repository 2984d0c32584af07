-- ===== src/Tests/Streams.antt =====
-- Event streams.
use mcp_gateway_lite.Base.{
  arith, suc, trim_last, ℕ, true, false, Bytes, concat, [], ◌∷◌, ◌++◌, ◌≡◌, refl,
}
use mcp_gateway_lite.Sse.{Handler, replace, new_sse_rewriter, ingest, run, split_newline, trim_eol}
use mcp_gateway_lite.Sse.Events.{SseEvent, WithinCap, events_out, events_state, run-events}
use mcp_gateway_lite.Sse.Feed.{IsSettled, empty_line-IsSettled}
use mcp_gateway_lite.Sse.Streams.{run_chunks, crlf_cut_at_cap}
use mcp_gateway_lite.Sse.Transparency.{out-run}
use mcp_gateway_lite.Tests.Toy.{counting, full_event}

-- A data line with a blank line behind it.
abbrev front : Bytes
front = b'd' ∷ b'a' ∷ b't' ∷ b'a' ∷ b':' ∷ b'x' ∷ []

abbrev back : Bytes
back = 10 ∷ 10 ∷ []

new_state-IsSettled : IsSettled (counting true) (new_sse_rewriter 0)
unfolding new_sse_rewriter
new_state-IsSettled = empty_line-IsSettled (counting true) (new_sse_rewriter 0) refl

same_bytes : front ++ concat (back ∷ []) ≡ (front ++ back) ++ concat []
unfolding concat
same_bytes = refl

run_chunks_example :
    run (counting true) (new_sse_rewriter 0) (front ∷ back ∷ [])
    ≡ run (counting true) (new_sse_rewriter 0) ((front ++ back) ∷ [])
run_chunks_example =
    run_chunks (counting true) 0 front (front ++ back) (back ∷ []) [] (refl, tt) tt same_bytes

crlf_cut_at_cap_example :
    ((ingest (counting true) full_event (13 ∷ 10 ∷ [])).discard ≡ false)
    × ((ingest (counting true) (ingest (counting true) full_event (13 ∷ [])) (10 ∷ [])).discard
        ≡ true)
crlf_cut_at_cap_example = crlf_cut_at_cap (counting true) full_event refl refl refl refl

abbrev Anything : ℕ → Type 0
Anything n = Unit

out-run_example :
    (run (counting false) (new_sse_rewriter 0) (front ∷ back ∷ [])).out ≡ concat (front ∷ back ∷ [])
out-run_example =
    out-run (counting false) Anything (λ n p. refl) (λ n m p. (refl, tt)) 0 (front ∷ back ∷ []) tt

-- A strict handler that puts a y in the place of each message, and counts.
abbrev shouting : Handler ℕ
shouting = record {
  strict = λ n. true;
  on_message = λ n m. (replace (b'y' ∷ []), suc n);
  cap_error = λ n. [];
  note_cap = λ n. n;
}

-- A comment line and a data line.
abbrev two_lines : SseEvent
two_lines = record { lines = (b':' ∷ 10 ∷ []) ∷ (front ++ 10 ∷ []) ∷ []; blank = 13 ∷ 10 ∷ [] }

two_lines-WithinCap : WithinCap two_lines
unfolding split_newline trim_eol trim_last concat
two_lines-WithinCap = record {
  texts = ((refl, refl), ((refl, refl), tt));
  ended = (refl, refl);
  fits = omega arith;
}

run-events_example :
    ((run shouting (new_sse_rewriter 0) ((b':' ∷ []) ∷ (10 ∷ front ++ 10 ∷ 13 ∷ 10 ∷ []) ∷ [])).out
      ≡ events_out shouting 0 (two_lines ∷ []))
    × ((run shouting (new_sse_rewriter 0) ((b':' ∷ []) ∷ (10 ∷ front ++ 10 ∷ 13 ∷ 10 ∷ []) ∷ [])).st
        ≡ events_state shouting 0 (two_lines ∷ []))
unfolding concat
run-events_example =
    run-events shouting 0 (two_lines ∷ []) (b':' ∷ []) ((10 ∷ front ++ 10 ∷ 13 ∷ 10 ∷ []) ∷ [])
      (two_lines-WithinCap, tt) (refl, tt) refl
