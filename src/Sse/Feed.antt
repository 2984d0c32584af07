-- ===== src/Sse/Feed.antt =====
-- The rewriter of gateway/sserewrite.go one byte at a time: a machine with no chunks, which `ingest`
-- runs over the bytes of a chunk.
use mcp_gateway_lite.Base.{
  ℕ, zero, suc, ◌+◌, ◌≤◌, ◌<◌, Bool, true, false, not, ◌&&◌, ◌||◌, Bytes, [], ◌∷◌, ◌++◌,
  append_assoc, append-nil, Option, none, some, is_nil, if◌then◌else◌, ltb, ◌==◌, length, ◌≡◌, ◌⊎◌,
  inl, inr, refl, sym, ap, ◌∙◌, arith, Bool-cases, Option-cases,
}
use mcp_gateway_lite.Sse.{
  Handler, SseRewriter, max_rpc_peek, split_newline, boundary_step, see, scan, write, write_raw,
  leave_raw, scanned, scan_boundary, overflow_partial, complete_line, finish_event, emit_event,
  reset_event, push_line, overflow_line, keep_partial, ingest_loop, ingest,
}

pub is_nil-append-cons : (xs : Bytes) (c : ℕ) (ys : Bytes) → is_nil (xs ++ c ∷ ys) ≡ false
is_nil-append-cons [] c ys = refl
is_nil-append-cons (x ∷ xs) c ys = refl

-- What a scan leaves is shorter than what it was given.
abbrev IsShorter : Bytes → (Bytes × Bytes) ⊎ ℕ → Type 0
IsShorter b (inl (seen, rest)) = length rest < length b
IsShorter b (inr q) = Unit

see-IsShorter :
    (c : ℕ) (b : Bytes) (v : (Bytes × Bytes) ⊎ ℕ) → IsShorter b v → IsShorter (c ∷ b) (see c v)
unfolding see
see-IsShorter c b (inl (seen, rest)) s = omega arith
see-IsShorter c b (inr q) s = tt

split_newline-shorter :
    (b l rest : Bytes) → split_newline b ≡ some (l, rest) → length rest < length b
unfolding split_newline
split_newline-shorter [] l rest e = absurd (cc)
split_newline-shorter (c ∷ b) l rest e = elim (Option-cases (split_newline b)) [
  | inl nothing ↦ ground arith
  | inr ((l', r'), found) ↦ ground (arith, split_newline-shorter b l' r' found)
]

module _ {S : Type 0} (h : Handler S) where
  unfoldable pub feed_boundary : ℕ → Option ℕ → SseRewriter S → SseRewriter S
  unfolding write_raw leave_raw
  feed_boundary c none r = leave_raw h (write_raw h (c ∷ []) r)
  feed_boundary c (some q) r = record (write_raw h (c ∷ []) r) { bstate = q }

  unfoldable pub feed : SseRewriter S → ℕ → SseRewriter S
  unfolding feed_boundary
  feed r c = elim (r.raw || r.discard) [
    | true ↦ feed_boundary c (boundary_step r.bstate c) r
    | false ↦ elim (c == 10) [
      | true ↦ complete_line h (r.line ++ c ∷ []) (record r { line = [] })
      | false ↦ record r { line = r.line ++ c ∷ [] }
    ]
  ]

  unfoldable pub feeds : SseRewriter S → Bytes → SseRewriter S
  unfolding feed
  feeds r [] = r
  feeds r (c ∷ b) = feeds (feed r c) b

  -- Whether a line is being assembled that no event within the cap can hold.
  unfoldable pub is_over : SseRewriter S → Bool
  is_over r =
      not (r.raw || r.discard)
      && (not (is_nil r.line) && ltb max_rpc_peek (length r.line + r.ev_size))

  -- The check at the end of a chunk.
  unfoldable pub settle : SseRewriter S → SseRewriter S
  unfolding is_over
  settle r = if is_over r then overflow_partial h r else r

  scanned-see :
      (r : SseRewriter S) (c : ℕ) (b : Bytes) (q : ℕ) (v : (Bytes × Bytes) ⊎ ℕ)
      → scanned h r (c ∷ b) (see c v) ≡ scanned h (feed_boundary c (some q) r) b v
  unfolding scanned see feed_boundary
  scanned-see r c b q (inl (seen, rest)) =
      unfold write in ground (arith, append_assoc r.out (c ∷ []) seen)
  scanned-see r c b q (inr p) = unfold write in ground (arith, append_assoc r.out (c ∷ []) b)

  pub feed_on :
      (r : SseRewriter S) (c : ℕ)
      → (r.raw || r.discard) ≡ true
      → feed r c ≡ feed_boundary c (boundary_step r.bstate c) r
  unfolding feed
  feed_on r c on = rw (on, feed)

  feed_boundary_on :
      (r : SseRewriter S) (c q : ℕ)
      → (r.raw || r.discard) ≡ true
      → ((feed_boundary c (some q) r).raw || (feed_boundary c (some q) r).discard) ≡ true
  unfolding feed_boundary write
  feed_boundary_on r c q on = ground arith

  scan_stop : (q c : ℕ) (b : Bytes) → boundary_step q c ≡ none → scan q (c ∷ b) ≡ inl (c ∷ [], b)
  unfolding scan
  scan_stop q c b e = rw (e, scan)

  scan_go : (q c p : ℕ) (b : Bytes) → boundary_step q c ≡ some p → scan q (c ∷ b) ≡ see c (scan p b)
  unfolding scan
  scan_go q c p b e = rw (e, scan)

  -- Raw and discarding modes: the bytes up to the boundary are fed one by one.
  scanned-feeds :
      (b : Bytes) (r : SseRewriter S)
      → (r.raw || r.discard) ≡ true
      → feeds r b ≡ feeds (scanned h r b (scan r.bstate b)).0 (scanned h r b (scan r.bstate b)).1
  unfolding feeds
  scanned-feeds [] r on = unfold scanned scan write_raw write in ground (arith, append-nil r.out)
  scanned-feeds (c ∷ b) r on = elim (Option-cases (boundary_step r.bstate c)) [
    | inl stop ↦
        rw (scan_stop r.bstate c b stop, feed_on r c on, stop)
          (unfold scanned feed_boundary in refl)
    | inr (q, go) ↦
        rw (scan_go r.bstate c q b go, feed_on r c on, go)
          (rw (scanned-see r c b q (scan q b))
            (scanned-feeds b (feed_boundary c (some q) r) (feed_boundary_on r c q on)))
  ]

  scan-IsShorter : (q : ℕ) (b : Bytes) → IsShorter b (scan q b)
  unfolding scan
  scan-IsShorter q [] = tt
  scan-IsShorter q (c ∷ b) = elim (Option-cases (boundary_step q c)) [
    | inl stop ↦ rw (scan_stop q c b stop) (omega arith)
    | inr (p, go) ↦ rw (scan_go q c p b go) (see-IsShorter c b (scan p b) (scan-IsShorter p b))
  ]

  scanned-line :
      (r : SseRewriter S) (b : Bytes) (v : (Bytes × Bytes) ⊎ ℕ) → (scanned h r b v).0.line ≡ r.line
  unfolding scanned write
  scanned-line r b (inl (seen, rest)) = ground arith
  scanned-line r b (inr q) = ground arith

  length-scanned :
      (r : SseRewriter S) (c : ℕ) (b : Bytes) (v : (Bytes × Bytes) ⊎ ℕ)
      → IsShorter (c ∷ b) v
      → length (scanned h r (c ∷ b) v).1 ≤ length b
  unfolding scanned
  length-scanned r c b (inl (seen, rest)) s = omega arith
  length-scanned r c b (inr q) s = omega arith

  pub line-complete_line : (l : Bytes) (r : SseRewriter S) → (complete_line h l r).line ≡ r.line
  unfolding complete_line finish_event emit_event reset_event push_line overflow_line write
  line-complete_line l r = ground arith

  pub feed_line :
      (r : SseRewriter S) (c : ℕ)
      → (r.raw || r.discard) ≡ false
      → (c == 10) ≡ false
      → feed r c ≡ record r { line = r.line ++ c ∷ [] }
  unfolding feed
  feed_line r c off e = ground arith

  pub feed_newline :
      (r : SseRewriter S) (c : ℕ)
      → (r.raw || r.discard) ≡ false
      → (c == 10) ≡ true
      → feed r c ≡ complete_line h (r.line ++ c ∷ []) (record r { line = [] })
  unfolding feed
  feed_newline r c off e = ground arith

  feeds_no_newline :
      (b : Bytes) (r : SseRewriter S)
      → (r.raw || r.discard) ≡ false
      → split_newline b ≡ none
      → feeds r b ≡ record r { line = r.line ++ b }
  unfolding feeds split_newline
  feeds_no_newline [] r off e = ap (λ (l : Bytes). record r { line = l }) (sym (append-nil r.line))
  feeds_no_newline (c ∷ b) r off e =
      let (tail, other) = no_newline c b e in
      rw (feed_line r c off other) (
        feeds_no_newline b (record r { line = r.line ++ c ∷ [] }) off tail
        ∙ ap (λ (l : Bytes). record r { line = l }) (append_assoc r.line (c ∷ []) b))
    where
      no_newline :
          (c : ℕ) (b : Bytes)
          → split_newline (c ∷ b) ≡ none
          → (split_newline b ≡ none) × ((c == 10) ≡ false)
      no_newline c b e = ground arith

  pub feeds_newline :
      (b l rest : Bytes) (r : SseRewriter S)
      → (r.raw || r.discard) ≡ false
      → split_newline b ≡ some (l, rest)
      → feeds r b ≡ feeds (complete_line h (r.line ++ l) (record r { line = [] })) rest
  unfolding feeds split_newline
  feeds_newline [] l rest r off e = absurd (cc)
  feeds_newline (c ∷ b) l rest r off e = elim (Bool-cases (c == 10)) [
    | inl end ↦ let (head, tail) = at_end end e in rw (feed_newline r c off end, head, tail)
    | inr more ↦
        let (l', tail, split) = later more e in
        rw (feed_line r c off more, split)
          (feeds_newline b l' rest (record r { line = r.line ++ c ∷ [] }) off tail
            ∙ rw (append_assoc r.line (c ∷ []) l'))
  ]
    where
      at_end : (c == 10) ≡ true → split_newline (c ∷ b) ≡ some (l, rest) → (l ≡ c ∷ []) × (rest ≡ b)
      at_end end e = ground arith

      later :
          (c == 10) ≡ false
          → split_newline (c ∷ b) ≡ some (l, rest)
          → (l' : Bytes) × (split_newline b ≡ some (l', rest)) × (l ≡ c ∷ l')
      later more e = elim (Option-cases (split_newline b)) [
        | inl nothing ↦ absurd (ground arith)
        | inr ((l', r'), found) ↦ (l', ground arith, ground arith)
      ]

  -- A rewriter between two chunks: no line is kept in the modes that pass bytes over, nor one that
  -- is too long.
  pub record IsSettled (r : SseRewriter S) : Type 0 where
    pub quiet : (r.raw || r.discard) ≡ true → r.line ≡ []
    pub fits : is_over r ≡ false

  pub empty_line-IsSettled : (r : SseRewriter S) → r.line ≡ [] → IsSettled r
  unfolding is_over
  empty_line-IsSettled r e = record { quiet = λ on. e; fits = ground arith }

  pub loop_on :
      (fuel : ℕ) (r : SseRewriter S) (c : ℕ) (b : Bytes)
      → (r.raw || r.discard) ≡ true
      → ingest_loop h (suc fuel) r (c ∷ b)
        ≡ ingest_loop h fuel (scan_boundary h r (c ∷ b)).0 (scan_boundary h r (c ∷ b)).1
  unfolding ingest_loop
  loop_on fuel r c b on = rw (on, ingest_loop)

  loop_partial :
      (fuel : ℕ) (r : SseRewriter S) (c : ℕ) (b : Bytes)
      → (r.raw || r.discard) ≡ false
      → split_newline (c ∷ b) ≡ none
      → ingest_loop h (suc fuel) r (c ∷ b) ≡ keep_partial h (c ∷ b) r
  unfolding ingest_loop
  loop_partial fuel r c b off e = rw (off, e, ingest_loop)

  loop_line :
      (fuel : ℕ) (r : SseRewriter S) (c : ℕ) (b l rest : Bytes)
      → (r.raw || r.discard) ≡ false
      → split_newline (c ∷ b) ≡ some (l, rest)
      → ingest_loop h (suc fuel) r (c ∷ b)
        ≡ ingest_loop h fuel (complete_line h (r.line ++ l) (record r { line = [] })) rest
  unfolding ingest_loop
  loop_line fuel r c b l rest off e = rw (off, e, ingest_loop)

  loop_end : (fuel : ℕ) (r : SseRewriter S) → ingest_loop h fuel r [] ≡ r
  unfolding ingest_loop
  loop_end zero r = refl
  loop_end (suc fuel) r = refl

  pub settle-IsSettled : (r : SseRewriter S) → IsSettled r → settle r ≡ r
  unfolding settle
  settle-IsSettled r s = rw s.fits

  keep_partial-settle :
      (r : SseRewriter S) (c : ℕ) (b : Bytes)
      → (r.raw || r.discard) ≡ false
      → keep_partial h (c ∷ b) r ≡ settle (record r { line = r.line ++ c ∷ b })
  unfolding keep_partial settle
  keep_partial-settle r c b off = ground (arith, is_nil-append-cons r.line c b)

  ingest_loop-settle :
      (fuel : ℕ) (b : Bytes) (r : SseRewriter S)
      → IsSettled r
      → length b ≤ fuel
      → ingest_loop h fuel r b ≡ settle (feeds r b)
  unfolding scan_boundary scanned settle
  ingest_loop-settle fuel [] r s f =
      loop_end fuel r ∙ sym (settle-IsSettled r s) ∙ unfold feeds in refl
  ingest_loop-settle zero (c ∷ b) r s f = absurd (omega arith)
  ingest_loop-settle (suc fuel) (c ∷ b) r s f = elim (Bool-cases (r.raw || r.discard)) [
    | inl on ↦
        let v = scan r.bstate (c ∷ b) in
        let left = scanned h r (c ∷ b) v in
        let shorter = length-scanned r c b v (scan-IsShorter r.bstate (c ∷ b)) in
        loop_on fuel r c b on
        ∙ ingest_loop-settle fuel left.1 left.0
            (empty_line-IsSettled left.0 (scanned-line r (c ∷ b) v ∙ s.quiet on)) (omega arith)
        ∙ ap settle (sym (scanned-feeds (c ∷ b) r on))
    | inr off ↦ elim (Option-cases (split_newline (c ∷ b))) [
      | inl e ↦
          loop_partial fuel r c b off e
          ∙ keep_partial-settle r c b off
          ∙ ap settle (sym (feeds_no_newline (c ∷ b) r off e))
      | inr ((l, rest), e) ↦
          let next = complete_line h (r.line ++ l) (record r { line = [] }) in
          let shorter = split_newline-shorter (c ∷ b) l rest e in
          loop_line fuel r c b l rest off e
          ∙ ingest_loop-settle fuel rest next (empty_line-IsSettled next (line-complete_line _ _))
              (omega arith)
          ∙ ap settle (sym (feeds_newline (c ∷ b) l rest r off e))
    ]
  ]

  -- A chunk is fed to the machine byte by byte, and the length of its last line checked at its end.
  pub ingest-settle :
      (r : SseRewriter S) (b : Bytes) → IsSettled r → ingest h r b ≡ settle (feeds r b)
  unfolding ingest
  ingest-settle r b s = ingest_loop-settle (length b) b r s (omega arith)
