-- ===== src/Sse/Chunks.antt =====
-- The rewriter of gateway/sserewrite.go and the chunks in which its source delivers the stream.
use mcp_gateway_lite.Base.{
  ℕ, ◌+◌, ◌<◌, Bool, true, false, ◌&&◌, ◌||◌, Bytes, [], ◌∷◌, ◌++◌, append_assoc, Option, none,
  some, is_nil, if◌then◌else◌, ◌==◌, length, length-append, trim_last, concat, ◌≡◌, ◌≢◌, inl, inr,
  refl, sym, ap, ◌∙◌, arith, Bool-cases, ==_iff,
}
use mcp_gateway_lite.Sse.{
  Handler, SseRewriter, max_rpc_peek, boundary_step, trim_eol, write, overflow, overflow_partial,
  overflow_line, complete_line, ingest, ingest_loop,
}
use mcp_gateway_lite.Sse.Feed.{
  feed, feeds, settle, is_over, IsSettled, is_nil-append-cons, line-complete_line, ingest-settle,
  feed_line, feed_newline, feed_on, feed_boundary, empty_line-IsSettled,
}

-- A cut between two chunks that parts no carriage return from its newline.
abbrev pub ends_in : ℕ → Bytes → Bool
ends_in c [] = false
ends_in c (x ∷ []) = x == c
ends_in c (x ∷ y ∷ s) = ends_in c (y ∷ s)

abbrev pub begins_with : ℕ → Bytes → Bool
begins_with c [] = false
begins_with c (x ∷ s) = x == c

trim_last_newline : (l : Bytes) → trim_last 10 (l ++ 10 ∷ []) ≡ l
unfolding trim_last
trim_last_newline [] = refl
trim_last_newline (x ∷ []) = refl
trim_last_newline (x ∷ y ∷ l) = ap (◌∷◌ x) (trim_last_newline (y ∷ l))

is_nil-trim_last : (l : Bytes) → l ≢ [] → l ≢ 13 ∷ [] → is_nil (trim_last 13 l) ≡ false
unfolding trim_last
is_nil-trim_last [] n m = absurd (n refl)
is_nil-trim_last (x ∷ []) n m = ground arith
is_nil-trim_last (x ∷ y ∷ l) n m = refl

is_nil-trim_eol : (l : Bytes) → l ≢ [] → l ≢ 13 ∷ [] → is_nil (trim_eol (l ++ 10 ∷ [])) ≡ false
unfolding trim_eol
is_nil-trim_eol l n m = rw trim_last_newline (is_nil-trim_last l n m)

lone : (l : Bytes) (c : ℕ) → is_nil l ≡ false → l ++ c ∷ [] ≡ 13 ∷ [] → ⊥
lone [] c n e = cc
lone (x ∷ []) c n e = cc
lone (x ∷ y ∷ l) c n e = cc

last_of : (l : Bytes) (c : ℕ) → l ++ c ∷ [] ≡ 13 ∷ [] → (c == 13) ≡ true
last_of [] c e = ground arith
last_of (x ∷ []) c e = absurd (cc)
last_of (x ∷ y ∷ l) c e = absurd (cc)

module _ {S : Type 0} (h : Handler S) where
  -- What an overflow leaves passes bytes over.
  overflow_on :
      (pending : Bytes) (q : ℕ) (r : SseRewriter S)
      → ((overflow h pending q r).raw || (overflow h pending q r).discard) ≡ true
  unfolding overflow
  overflow_on pending q r = ground arith

  -- One more byte of the line: the overflow may come before it or behind it.
  overflow-feed :
      (pending : Bytes) (c : ℕ) (r : SseRewriter S)
      → (r.raw || r.discard) ≡ false
      → feed h (overflow h pending 0 r) c
        ≡ overflow h (pending ++ c ∷ []) (if c == 10 then 1 else 0) r
  unfolding overflow feed_boundary boundary_step
  overflow-feed pending c r off =
      feed_on h _ c (overflow_on pending 0 r)
      ∙ ground (
        arith,
        append_assoc (concat r.ev_lines) pending (c ∷ []),
        append_assoc r.out (concat r.ev_lines ++ pending) (c ∷ []),
      )

  -- A line that is too long overflows when it is complete, if it is not blank.
  complete_line-overflow :
      (l : Bytes) (r : SseRewriter S)
      → l ≢ []
      → l ≢ 13 ∷ []
      → max_rpc_peek < length l + r.ev_size
      → complete_line h (l ++ 10 ∷ []) r ≡ overflow h (l ++ 10 ∷ []) 1 r
  unfolding complete_line overflow_line overflow
  complete_line-overflow l r n m big =
      ground (arith, is_nil-trim_eol l n m, length-append l (10 ∷ []))

  is_over-parts :
      (r : SseRewriter S)
      → is_over h r ≡ true
      → ((r.raw || r.discard) ≡ false)
        × (is_nil r.line ≡ false)
        × (max_rpc_peek < length r.line + r.ev_size)
  unfolding is_over
  is_over-parts r big = ground arith

  is_over_longer :
      (c : ℕ) (r : SseRewriter S)
      → is_over h r ≡ true
      → is_over h (record r { line = r.line ++ c ∷ [] }) ≡ true
  unfolding is_over
  is_over_longer c r big =
      ground (arith, length-append r.line (c ∷ []), is_nil-append-cons r.line c [])

  settle_over : (r : SseRewriter S) → is_over h r ≡ true → settle h r ≡ overflow_partial h r
  unfolding settle
  settle_over r big = rw big

  settle-overflow_partial :
      (r : SseRewriter S) → settle h (overflow_partial h r) ≡ overflow_partial h r
  unfolding settle is_over overflow_partial
  settle-overflow_partial r = rw (overflow_on r.line 0 (record r { line = [] }))

  -- A completed line that is too long.
  feed-newline_over :
      (c : ℕ) (r : SseRewriter S)
      → is_over h r ≡ true
      → (c == 10) ≡ true
      → r.line ≢ 13 ∷ []
      → feed h r c ≡ feed h (overflow_partial h r) c
  unfolding overflow_partial
  feed-newline_over c r big end cut =
      let (off, some_line, long) = is_over-parts r big in
      let now = record r { line = [] } in
      let before : feed h r c ≡ overflow h (r.line ++ c ∷ []) 1 now =
        feed_newline h r c off end
        ∙ rw ((==_iff c 10).0 end)
            (complete_line-overflow r.line now (λ e. ground arith) cut long) in
      let after : feed h (overflow h r.line 0 now) c ≡ overflow h (r.line ++ c ∷ []) 1 now =
        overflow-feed r.line c now off ∙ rw end in
      before ∙ sym after

  -- A line that is too long, and grows.
  feed-line_over :
      (c : ℕ) (r : SseRewriter S)
      → is_over h r ≡ true
      → (c == 10) ≡ false
      → feed h (overflow_partial h r) c ≡ overflow_partial h (record r { line = r.line ++ c ∷ [] })
  unfolding overflow_partial
  feed-line_over c r big more =
      overflow-feed r.line c (record r { line = [] }) (is_over-parts r big).0 ∙ rw more

  -- Where the line is too long, it makes no difference whether the overflow is seen now or later,
  -- unless the line is a lone carriage return whose newline comes next.
  settle-feeds :
      (b : Bytes) (r : SseRewriter S)
      → is_over h r ≡ true
      → (r.line ≡ 13 ∷ [] → begins_with 10 b ≡ false)
      → settle h (feeds h r b) ≡ settle h (feeds h (overflow_partial h r) b)
  unfolding feeds
  settle-feeds [] r big cut = settle_over r big ∙ sym (settle-overflow_partial r)
  settle-feeds (c ∷ b) r big cut = elim (Bool-cases (c == 10)) [
    | inl end ↦
        ap (λ (q : SseRewriter S). settle h (feeds h q b))
          (feed-newline_over c r big end (λ e. absurd (cc (end, cut e))))
    | inr more ↦
        let longer = record r { line = r.line ++ c ∷ [] } in
        rw (feed_line h r c (is_over-parts r big).0 more, feed-line_over c r big more)
          (settle-feeds b longer (is_over_longer c r big) (λ e. absurd (not_lone e)))
  ]
    where
      not_lone : r.line ++ c ∷ [] ≡ 13 ∷ [] → ⊥
      not_lone e = lone r.line c (is_over-parts r big).1 e

  -- The end of a chunk may fall anywhere in it: the chunk, cut in two, has the effect of the whole,
  -- unless the cut parts a carriage return from its newline.
  settle-feeds-settle :
      (b : Bytes) (r : SseRewriter S)
      → (r.line ≡ 13 ∷ [] → begins_with 10 b ≡ false)
      → settle h (feeds h (settle h r) b) ≡ settle h (feeds h r b)
  settle-feeds-settle b r cut = elim (Bool-cases (is_over h r)) [
    | inl big ↦ rw (settle_over r big) (sym (settle-feeds b r big cut))
    | inr fits ↦ rw (unsettled r fits)
  ]
    where
      unsettled : (r : SseRewriter S) → is_over h r ≡ false → settle h r ≡ r
      unsettled r fits = unfold settle in rw fits

  feeds-append : (a b : Bytes) (r : SseRewriter S) → feeds h r (a ++ b) ≡ feeds h (feeds h r a) b
  unfolding feeds
  feeds-append [] b r = refl
  feeds-append (c ∷ a) b r = feeds-append a b (feed h r c)

  -- In the modes that pass bytes over no line is kept.
  abbrev IsQuiet : SseRewriter S → Type 0
  IsQuiet r = (r.raw || r.discard) ≡ true → r.line ≡ []

  feed_boundary-line :
      (r : SseRewriter S) (c : ℕ) (v : Option ℕ) → (feed_boundary h c v r).line ≡ r.line
  unfolding feed_boundary write
  feed_boundary-line r c none = ground arith
  feed_boundary-line r c (some q) = ground arith

  feed-IsQuiet : (r : SseRewriter S) (c : ℕ) → IsQuiet r → IsQuiet (feed h r c)
  feed-IsQuiet r c quiet = elim (Bool-cases (r.raw || r.discard)) [
    | inl on ↦ λ k. rw (feed_on h r c on) (feed_boundary-line r c _ ∙ quiet on)
    | inr off ↦ elim (Bool-cases (c == 10)) [
      | inl end ↦ λ k. rw (feed_newline h r c off end) (line-complete_line h _ _)
      | inr more ↦ rw (feed_line h r c off more) (λ k. absurd (cc (off, k)))
    ]
  ]

  feeds-IsQuiet : (a : Bytes) (r : SseRewriter S) → IsQuiet r → IsQuiet (feeds h r a)
  unfolding feeds
  feeds-IsQuiet [] r quiet = quiet
  feeds-IsQuiet (c ∷ a) r quiet = feeds-IsQuiet a (feed h r c) (feed-IsQuiet r c quiet)

  overflow-line :
      (pending : Bytes) (q : ℕ) (r : SseRewriter S) → (overflow h pending q r).line ≡ r.line
  unfolding overflow
  overflow-line pending q r = ground arith

  IsQuiet-settle : (r : SseRewriter S) → IsQuiet r → IsSettled h (settle h r)
  unfolding settle
  IsQuiet-settle r quiet = elim (Bool-cases (is_over h r)) [
    | inl big ↦ rw big (
        empty_line-IsSettled h (overflow_partial h r)
          (unfold overflow_partial in overflow-line r.line 0 (record r { line = [] })))
    | inr fits ↦ rw fits (record { quiet = quiet; fits = fits })
  ]

  pub ingest-IsSettled :
      (r : SseRewriter S) (b : Bytes) → IsSettled h r → IsSettled h (ingest h r b)
  ingest-IsSettled r b s =
      rw (ingest-settle h r b s) (IsQuiet-settle (feeds h r b) (feeds-IsQuiet b r s.quiet))

  -- A lone carriage return in the line is the last byte of the chunk.
  feed-lone :
      (r : SseRewriter S) (c : ℕ) → IsQuiet r → (feed h r c).line ≡ 13 ∷ [] → (c == 13) ≡ true
  feed-lone r c quiet e = elim (Bool-cases (r.raw || r.discard)) [
    | inl on ↦
        absurd (cc (quiet on, feed_boundary-line r c (boundary_step r.bstate c), feed_on h r c on))
    | inr off ↦ elim (Bool-cases (c == 10)) [
      | inl end ↦ absurd (
          cc (
            feed_newline h r c off end,
            line-complete_line h (r.line ++ c ∷ []) (record r { line = [] }),
          ))
      | inr more ↦
          last_of r.line c (sym (ap (λ (q : SseRewriter S). q.line) (feed_line h r c off more)) ∙ e)
    ]
  ]

  feeds-lone :
      (a : Bytes) (c : ℕ) (r : SseRewriter S)
      → IsQuiet r
      → (feeds h r (c ∷ a)).line ≡ 13 ∷ []
      → ends_in 13 (c ∷ a) ≡ true
  unfolding feeds
  feeds-lone [] c r quiet e = feed-lone r c quiet e
  feeds-lone (x ∷ a) c r quiet e = feeds-lone a x (feed h r c) (feed-IsQuiet r c quiet) e

  -- The boundary between two chunks makes no difference, unless it parts a carriage return from
  -- its newline: whatever the rewriter has read, its state after two chunks, all that it has
  -- written included, is its state after one chunk that holds the bytes of both.
  pub ingest-append :
      (r : SseRewriter S) (a b : Bytes)
      → IsSettled h r
      → (ends_in 13 a && begins_with 10 b) ≡ false
      → ingest h (ingest h r a) b ≡ ingest h r (a ++ b)
  ingest-append r [] b s cut = ap (λ (q : SseRewriter S). ingest h q b) (ingest-nil r)
    where
      ingest-nil : (r : SseRewriter S) → ingest h r [] ≡ r
      ingest-nil r = unfold ingest ingest_loop in refl
  ingest-append r (c ∷ a) b s cut =
      ingest-settle h (ingest h r (c ∷ a)) b (ingest-IsSettled r (c ∷ a) s)
      ∙ rw (ingest-settle h r (c ∷ a) s) (
          settle-feeds-settle b (feeds h r (c ∷ a))
            (λ e. whole (ends_in 13 (c ∷ a)) _ (feeds-lone a c r s.quiet e) cut))
      ∙ sym (ingest-settle h r ((c ∷ a) ++ b) s ∙ ap (settle h) (feeds-append (c ∷ a) b r))
    where
      whole : (x y : Bool) → x ≡ true → (x && y) ≡ false → y ≡ false
      whole x y p q = ground arith
