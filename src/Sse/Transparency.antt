-- ===== src/Sse/Transparency.antt =====
-- What the rewriter of gateway/sserewrite.go leaves alone: in lax mode, a stream whose events all
-- pass comes out byte by byte as it went in, oversized events and broken ends included.
use mcp_gateway_lite.Base.{
  ℕ, ◌+◌, true, false, Bytes, List, [], ◌∷◌, ◌++◌, append_assoc, append-nil, Option, none, some,
  is_nil, ltb, ◌==◌, length, concat, join, ◌≡◌, inl, inr, refl, sym, ◌∙◌, arith, Bool-cases,
}
use mcp_gateway_lite.Sse.{
  Handler, keep, SseRewriter, max_rpc_peek, trim_eol, write, overflow, overflow_partial,
  overflow_line, push_line, complete_line, finish_event, emit_event, ingest, new_sse_rewriter, run,
  finish, reset_event, data_of, boundary_step,
}
use mcp_gateway_lite.Sse.Feed.{
  feed, feeds, settle, is_over, IsSettled, ingest-settle, feed_line, feed_newline, feed_on,
  feed_boundary, empty_line-IsSettled,
}
use mcp_gateway_lite.Sse.Chunks.{ingest-IsSettled}

concat-append : (xs ys : List Bytes) → concat (xs ++ ys) ≡ concat xs ++ concat ys
unfolding concat
concat-append [] ys = refl
concat-append (x ∷ xs) ys = rw (concat-append xs ys, append_assoc)

concat_pushed :
    (out : Bytes) (lines : List Bytes) (l : Bytes)
    → out ++ (concat (lines ++ l ∷ []) ++ []) ≡ (out ++ (concat lines ++ [])) ++ l
concat_pushed out lines l =
    simp (concat-append, append-nil, append_assoc) (unfold concat in simp append-nil)

module _ {S : Type 0} (h : Handler S) (P : S → Type 0) (lax : (st : S) → P st → h.strict st ≡ false)
    (passes : (st : S) (m : Bytes)
      → P st
      → ((h.on_message st m).0 ≡ keep) × P (h.on_message st m).1) where
  -- All the bytes that have been read and not dropped, in order.
  shown : SseRewriter S → Bytes
  shown r = r.out ++ (concat r.ev_lines ++ r.line)

  -- Nothing is discarded, the state passes messages, and while bytes stream through none is kept.
  record Inv (r : SseRewriter S) : Type 0 where
    state : P r.st
    going : r.discard ≡ false
    streaming : r.raw ≡ true → (r.ev_lines ≡ []) × (r.line ≡ [])

  -- A rewriter whose event has been written with its last line `l`, in the state `st`.
  abbrev flushed : Bytes → S → SseRewriter S → SseRewriter S
  flushed l st r = record r {
    st = st;
    out = r.out ++ (concat r.ev_lines ++ l);
    ev_lines = [];
    ev_is_data = [];
    ev_data = [];
    ev_size = 0;
  }

  finish_event-flushed :
      (l : Bytes) (r : SseRewriter S)
      → Inv r
      → (st : S) × P st × (finish_event h l r ≡ flushed l st r)
  unfolding finish_event write reset_event emit_event
  finish_event-flushed l r v = elim (Bool-cases (is_nil r.ev_data)) [
    | inl empty ↦ (r.st, v.state, rw empty)
    | inr some_data ↦
        let (kept, after) = passes r.st (join 10 r.ev_data) v.state in
        ((h.on_message r.st (join 10 r.ev_data)).1, after, rw (some_data, kept))
  ]

  -- What feeding the bytes `b` must do: show them, and keep the invariant.
  record Shows (b : Bytes) (r r' : SseRewriter S) : Type 0 where
    same : shown r' ≡ shown r ++ b
    inv : Inv r'

  flushed-Shows :
      (l : Bytes) (st : S) (r : SseRewriter S)
      → Inv r
      → P st
      → r.line ≡ []
      → Shows l r (flushed l st r)
  unfolding shown concat
  flushed-Shows l st r v p e = record {
    same = ground (
      arith,
      append-nil (concat r.ev_lines),
      append_assoc r.out (concat r.ev_lines) l,
      append-nil (r.out ++ (concat r.ev_lines ++ l)),
    );
    inv = record { state = p; going = v.going; streaming = λ on. (refl, e) };
  }

  overflow-Shows :
      (l : Bytes) (q n : ℕ) (r : SseRewriter S)
      → Inv r
      → r.line ≡ []
      → Shows l r (overflow h l q (record r { ev_size = n }))
  unfolding overflow shown concat write
  overflow-Shows l q n r v e = rw (lax r.st v.state) (record {
    same = ground (
      arith,
      append-nil (concat r.ev_lines),
      append_assoc r.out (concat r.ev_lines) l,
      append-nil (r.out ++ (concat r.ev_lines ++ l)),
    );
    inv = record { state = v.state; going = v.going; streaming = λ on. (refl, e) };
  })

  push_line-Shows :
      (l : Bytes) (n : ℕ) (d : Option Bytes) (r : SseRewriter S)
      → Inv r
      → r.raw ≡ false
      → r.line ≡ []
      → Shows l r (push_line h l d (record r { ev_size = n }))
  unfolding push_line shown
  push_line-Shows l n none r v off e = record {
    same = rw e (concat_pushed r.out r.ev_lines l);
    inv = record { state = v.state; going = v.going; streaming = λ on. absurd (cc (off, on)) };
  }
  push_line-Shows l n (some d) r v off e = record {
    same = rw e (concat_pushed r.out r.ev_lines l);
    inv = record { state = v.state; going = v.going; streaming = λ on. absurd (cc (off, on)) };
  }

  complete_line-Shows :
      (l : Bytes) (r : SseRewriter S)
      → Inv r
      → r.raw ≡ false
      → r.line ≡ []
      → Shows l r (complete_line h l r)
  unfolding complete_line overflow_line
  complete_line-Shows l r v off e = elim (Bool-cases (is_nil (trim_eol l))) [
    | inl blank ↦
        let (st, p, done) = finish_event-flushed l r v in
        rw (blank, done) (flushed-Shows l st r v p e)
    | inr more ↦ elim (Bool-cases (ltb max_rpc_peek (r.ev_size + length l))) [
      | inl over ↦ rw (more, over) (overflow-Shows l 1 (r.ev_size + length l) r v e)
      | inr fits ↦
          rw (more, fits)
            (push_line-Shows l (r.ev_size + length l) (data_of (trim_eol l)) r v off e)
    ]
  ]

  -- While bytes stream through, no line and no event is kept.
  feed_boundary-Shows :
      (c : ℕ) (d : Option ℕ) (r : SseRewriter S)
      → Inv r
      → r.raw ≡ true
      → Shows (c ∷ []) r (feed_boundary h c d r)
  unfolding feed_boundary shown write concat
  feed_boundary-Shows c none r v on =
      let kept = v.streaming on in
      rw on (record {
        same = ground (arith, append-nil r.out, append-nil (r.out ++ c ∷ []));
        inv = record { state = v.state; going = refl; streaming = λ f. kept };
      })
  feed_boundary-Shows c (some q) r v on =
      let kept = v.streaming on in
      rw on (record {
        same = ground (arith, append-nil r.out, append-nil (r.out ++ c ∷ []));
        inv = record { state = v.state; going = v.going; streaming = λ f. kept };
      })

  line-Shows :
      (c : ℕ) (r : SseRewriter S)
      → Inv r
      → r.raw ≡ false
      → Shows (c ∷ []) r (record r { line = r.line ++ c ∷ [] })
  unfolding shown
  line-Shows c r v off = record {
    same = simp append_assoc;
    inv = record { state = v.state; going = v.going; streaming = λ on. absurd (cc (off, on)) };
  }

  newline-Shows :
      (c : ℕ) (r : SseRewriter S)
      → Inv r
      → r.raw ≡ false
      → Shows (c ∷ []) r (complete_line h (r.line ++ c ∷ []) (record r { line = [] }))
  newline-Shows c r v off =
      let v' : Inv (record r { line = [] }) = record {
        state = v.state;
        going = v.going;
        streaming = λ on. absurd (cc (off, on));
      } in
      let s = complete_line-Shows (r.line ++ c ∷ []) (record r { line = [] }) v' off refl in
      record { same = s.same ∙ unfold shown in simp (append_assoc, append-nil); inv = s.inv }

  feed-Shows : (r : SseRewriter S) (c : ℕ) → Inv r → Shows (c ∷ []) r (feed h r c)
  feed-Shows r c v = elim (Bool-cases r.raw) [
    | inl on ↦ rw (feed_on h r c (rw on)) (feed_boundary-Shows c (boundary_step r.bstate c) r v on)
    | inr off ↦ elim (Bool-cases (c == 10)) [
      | inl end ↦ rw (feed_newline h r c (rw (off, v.going)) end) (newline-Shows c r v off)
      | inr more ↦ rw (feed_line h r c (rw (off, v.going)) more) (line-Shows c r v off)
    ]
  ]

  feeds-Shows : (b : Bytes) (r : SseRewriter S) → Inv r → Shows b r (feeds h r b)
  unfolding feeds
  feeds-Shows [] r v = record { same = sym (append-nil (shown r)); inv = v }
  feeds-Shows (c ∷ b) r v =
      let first = feed-Shows r c v in
      let rest = feeds-Shows b (feed h r c) first.inv in
      record { same = rest.same ∙ rw (first.same, append_assoc); inv = rest.inv }

  partial-Shows : (r : SseRewriter S) → Inv r → Shows [] r (overflow_partial h r)
  unfolding overflow_partial
  partial-Shows r v =
      let v' : Inv (record r { line = [] }) = record {
        state = v.state;
        going = v.going;
        streaming = λ on. ((v.streaming on).0, refl);
      } in
      let s = overflow-Shows r.line 0 r.ev_size (record r { line = [] }) v' refl in
      record { same = s.same ∙ unfold shown in simp (append_assoc, append-nil); inv = s.inv }

  settle-Shows : (r : SseRewriter S) → Inv r → Shows [] r (settle h r)
  unfolding settle overflow_partial
  settle-Shows r v = elim (Bool-cases (is_over h r)) [
    | inl big ↦ rw big (partial-Shows r v)
    | inr fits ↦ rw fits (record { same = sym (append-nil (shown r)); inv = v })
  ]

  ingest-Shows : (b : Bytes) (r : SseRewriter S) → IsSettled h r → Inv r → Shows b r (ingest h r b)
  ingest-Shows b r s v =
      let fed = feeds-Shows b r v in
      let settled = settle-Shows (feeds h r b) fed.inv in
      rw (ingest-settle h r b s)
        (record { same = settled.same ∙ append-nil _ ∙ fed.same; inv = settled.inv })

  out-finish : (r : SseRewriter S) → Inv r → (finish h r).out ≡ shown r
  unfolding finish shown write reset_event
  out-finish r v = elim (Bool-cases r.raw) [
    | inl on ↦
        let kept = v.streaming on in
        rw (on, kept.0, kept.1) (unfold concat in sym (append-nil r.out))
    | inr off ↦ rw (off, v.going)
  ]

  run-shown :
      (bs : List Bytes) (r : SseRewriter S)
      → IsSettled h r
      → Inv r
      → (run h r bs).out ≡ shown r ++ concat bs
  unfolding run concat
  run-shown [] r s v = out-finish r v ∙ sym (append-nil (shown r))
  run-shown (b ∷ bs) r s v =
      let next = ingest-Shows b r s v in
      run-shown bs (ingest h r b) (ingest-IsSettled h r b s) next.inv ∙ rw (next.same, append_assoc)

  -- A stream comes out exactly as it went in, whatever its chunks, its events and their sizes are
  -- and wherever it ends, if the rewrite state is lax and lets every message pass, and stays so.
  pub out-run : (st : S) (bs : List Bytes) → P st → (run h (new_sse_rewriter st) bs).out ≡ concat bs
  unfolding new_sse_rewriter
  out-run st bs p =
      run-shown bs (new_sse_rewriter st) (empty_line-IsSettled h _ refl)
        (record { state = p; going = refl; streaming = λ on. (refl, refl) })
      ∙ unfold shown concat in refl
