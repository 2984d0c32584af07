-- ===== src/Sse/Events.antt =====
-- The rewriter of gateway/sserewrite.go against a specification on events: each event of a stream is
-- handed on as it is, or with its data replaced, as the handler of messages says.
use mcp_gateway_lite.Base.{
  ℕ, ◌+◌, ◌≤◌, true, false, Bool, ◌||◌, Bytes, List, [], ◌∷◌, ◌++◌, append_assoc, append-nil,
  Option, none, some, is_nil, ltb, length, length-append, concat, join, All, ◌≡◌, inl, inr, refl,
  sym, ap, ◌∙◌, arith, Bool-cases, if◌then◌else◌,
}
use mcp_gateway_lite.Sse.{
  Handler, Action, keep, replace, SseRewriter, max_rpc_peek, trim_eol, write, push_line,
  complete_line, finish_event, emit_event, emit_replaced, new_sse_rewriter, run, finish, ingest,
  reset_event, data_of, data_prefix, other_lines, split_newline,
}
use mcp_gateway_lite.Sse.Feed.{feeds, settle, is_over, ingest-settle, feeds_newline}
use mcp_gateway_lite.Sse.Streams.{PartsNoCrlf, run-merge, new-IsSettled}

-- An event: its lines and the blank line that ends it, each with its newline.
pub record SseEvent : Type 0 where
  pub lines : List Bytes
  pub blank : Bytes

-- A newline at the end and nowhere else.
abbrev pub IsLine : Bytes → Type 0
IsLine l = split_newline l ≡ some (l, [])

abbrev pub IsBlank : Bytes → Type 0
IsBlank l = IsLine l × (is_nil (trim_eol l) ≡ true)

abbrev pub IsText : Bytes → Type 0
IsText l = IsLine l × (is_nil (trim_eol l) ≡ false)

-- An event within the cap.
pub record WithinCap (e : SseEvent) : Type 0 where
  pub texts : All IsText e.lines
  pub ended : IsBlank e.blank
  pub fits : length (concat e.lines) ≤ max_rpc_peek

abbrev pub stream : List SseEvent → Bytes
stream [] = []
stream (e ∷ es) = (concat e.lines ++ e.blank) ++ stream es

abbrev pub add_payload : Option Bytes → List Bytes → List Bytes
add_payload none vs = vs
add_payload (some v) vs = v ∷ vs

-- The payloads of the data lines, and the other lines.
abbrev pub payloads : List Bytes → List Bytes
payloads [] = []
payloads (l ∷ ls) = add_payload (data_of (trim_eol l)) (payloads ls)

abbrev pub is_data : Option Bytes → Bool
is_data none = false
is_data (some v) = true

abbrev pub not_data : List Bytes → Bytes
not_data [] = []
not_data (l ∷ ls) = if is_data (data_of (trim_eol l)) then not_data ls else l ++ not_data ls

-- The event with its data replaced, or as it is.
abbrev pub rewritten : Action → SseEvent → Bytes
rewritten keep e = concat e.lines ++ e.blank
rewritten (replace payload) e =
    not_data e.lines ++ (data_prefix ++ (32 ∷ (payload ++ (10 ∷ e.blank))))

module _ {S : Type 0} (h : Handler S) where
  -- An event without data is no message.
  abbrev pub decide : S → SseEvent → Action × S
  decide st e =
      if is_nil (payloads e.lines) then (keep, st) else h.on_message st (join 10 (payloads e.lines))

  -- The specification: the text that leaves, and the state behind it.
  abbrev pub events_out : S → List SseEvent → Bytes
  events_out st [] = []
  events_out st (e ∷ es) = rewritten (decide st e).0 e ++ events_out (decide st e).1 es

  abbrev pub events_state : S → List SseEvent → S
  events_state st [] = st
  events_state st (e ∷ es) = events_state (decide st e).1 es

  -- A rewriter between two events.
  abbrev idle : S → Bytes → ℕ → SseRewriter S
  idle st out q = record {
    st = st;
    out = out;
    line = [];
    ev_lines = [];
    ev_is_data = [];
    ev_data = [];
    ev_size = 0;
    raw = false;
    discard = false;
    bstate = q;
  }

  feeds-append : (a b : Bytes) (r : SseRewriter S) → feeds h r (a ++ b) ≡ feeds h (feeds h r a) b
  unfolding feeds
  feeds-append [] b r = refl
  feeds-append (c ∷ a) b r = feeds-append a b _

  feeds-line :
      (l : Bytes) (r : SseRewriter S)
      → IsLine l
      → (r.raw || r.discard) ≡ false
      → r.line ≡ []
      → feeds h r l ≡ complete_line h l (record r { line = [] })
  unfolding feeds
  feeds-line l r one off e = feeds_newline h l l [] r off one ∙ rw e refl

  -- A rewriter with the lines of an event read.
  abbrev with_lines : List Bytes → SseRewriter S → SseRewriter S
  with_lines [] r = r
  with_lines (l ∷ ls) r =
      with_lines ls
        (push_line h l (data_of (trim_eol l)) (record r { ev_size = r.ev_size + length l }))

  complete_line-text :
      (l : Bytes) (r : SseRewriter S)
      → IsText l
      → r.ev_size + length l ≤ max_rpc_peek
      → complete_line h l r
        ≡ push_line h l (data_of (trim_eol l)) (record r { ev_size = r.ev_size + length l })
  unfolding complete_line
  complete_line-text l r t fits = rw (t.1, small) refl
    where
      small : ltb max_rpc_peek (r.ev_size + length l) ≡ false
      small = ground (arith, fits)

  push_line-off :
      (l : Bytes) (d : Option Bytes) (n : ℕ) (r : SseRewriter S)
      → ((push_line h l d (record r { ev_size = n })).raw ≡ r.raw)
        × ((push_line h l d (record r { ev_size = n })).discard ≡ r.discard)
        × ((push_line h l d (record r { ev_size = n })).line ≡ r.line)
        × ((push_line h l d (record r { ev_size = n })).ev_size ≡ n)
  unfolding push_line
  push_line-off l none n r = (refl, refl, refl, refl)
  push_line-off l (some v) n r = (refl, refl, refl, refl)

  feeds-lines :
      (ls : List Bytes) (r : SseRewriter S)
      → All IsText ls
      → (r.raw || r.discard) ≡ false
      → r.line ≡ []
      → r.ev_size + length (concat ls) ≤ max_rpc_peek
      → feeds h r (concat ls) ≡ with_lines ls r
  unfolding feeds concat
  feeds-lines [] r a off e fits = refl
  feeds-lines (l ∷ ls) r a off e fits =
      let pushed =
        push_line h l (data_of (trim_eol l)) (record r { ev_size = r.ev_size + length l }) in
      let (raw, discard, line, size) =
        push_line-off l (data_of (trim_eol l)) (r.ev_size + length l) r in
      let long : length (l ++ concat ls) ≡ length l + length (concat ls) =
        length-append l (concat ls) in
      feeds-append l (concat ls) r
      ∙ ap (λ (q : SseRewriter S). feeds h q (concat ls))
          (feeds-line l r a.0.0 off e
            ∙ ap (λ (x : Bytes). complete_line h l (record r { line = x })) (sym e)
            ∙ complete_line-text l r a.0 (omega (arith, fits, long)))
      ∙ feeds-lines ls pushed a.1 (rw (raw, discard) off) (line ∙ e)
          (omega (arith, size, fits, long))

  abbrev flags : List Bytes → List Bool
  flags [] = []
  flags (l ∷ ls) = is_data (data_of (trim_eol l)) ∷ flags ls

  -- The fields behind the lines.
  abbrev collected : List Bytes → SseRewriter S → SseRewriter S
  collected ls r = record r {
    ev_lines = r.ev_lines ++ ls;
    ev_is_data = r.ev_is_data ++ flags ls;
    ev_data = r.ev_data ++ payloads ls;
    ev_size = (with_lines ls r).ev_size;
  }

  collected-push :
      (d : Option Bytes) (l : Bytes) (ls : List Bytes) (n : ℕ) (r : SseRewriter S)
      → collected ls (push_line h l d (record r { ev_size = n })) ≡ record r {
        ev_lines = r.ev_lines ++ l ∷ ls;
        ev_is_data = r.ev_is_data ++ is_data d ∷ flags ls;
        ev_data = r.ev_data ++ add_payload d (payloads ls);
        ev_size = (with_lines ls (push_line h l d (record r { ev_size = n }))).ev_size;
      }
  unfolding push_line
  collected-push none l ls n r =
      rw (append_assoc r.ev_lines (l ∷ []) ls, append_assoc r.ev_is_data (false ∷ []) (flags ls))
        refl
  collected-push (some v) l ls n r =
      rw
        (
          append_assoc r.ev_lines (l ∷ []) ls,
          append_assoc r.ev_is_data (true ∷ []) (flags ls),
          append_assoc r.ev_data (v ∷ []) (payloads ls),
        )
        refl

  with_lines-collected : (ls : List Bytes) (r : SseRewriter S) → with_lines ls r ≡ collected ls r
  with_lines-collected [] r =
      rw (append-nil r.ev_lines, append-nil r.ev_is_data, append-nil r.ev_data) refl
  with_lines-collected (l ∷ ls) r =
      with_lines-collected ls _
      ∙ collected-push (data_of (trim_eol l)) l ls (r.ev_size + length l) r

  other_lines-flags : (ls : List Bytes) → other_lines ls (flags ls) ≡ not_data ls
  unfolding other_lines
  other_lines-flags [] = refl
  other_lines-flags (l ∷ ls) = rw (other_lines-flags ls) refl

  emitted :
      (e : SseEvent) (a : Action) (st : S) (out : Bytes) (q : ℕ) (x : S)
      → reset_event h
          (emit_event h a e.blank (record (collected e.lines (idle x out q)) { st = st }))
        ≡ idle st (out ++ rewritten a e) q
  unfolding emit_event emit_replaced reset_event write
  emitted e keep st out q x = refl
  emitted e (replace payload) st out q x = rw (other_lines-flags e.lines) refl

  -- The blank line that ends an event, behind its lines.
  blank-event :
      (e : SseEvent) (st : S) (out : Bytes) (q : ℕ)
      → IsBlank e.blank
      → complete_line h e.blank (collected e.lines (idle st out q))
        ≡ idle (decide st e).1 (out ++ rewritten (decide st e).0 e) q
  unfolding complete_line finish_event
  blank-event e st out q b = elim (Bool-cases (is_nil (payloads e.lines))) [
    | inl none_there ↦ rw (complete_line, b.1, none_there) (emitted e keep st out q st)
    | inr some_there ↦
        rw (complete_line, b.1, some_there)
          (emitted e (h.on_message st (join 10 (payloads e.lines))).0
            (h.on_message st (join 10 (payloads e.lines))).1 out q st)
  ]

  feeds-event :
      (e : SseEvent) (st : S) (out : Bytes) (q : ℕ)
      → WithinCap e
      → feeds h (idle st out q) (concat e.lines ++ e.blank)
        ≡ idle (decide st e).1 (out ++ rewritten (decide st e).0 e) q
  feeds-event e st out q w =
      feeds-append (concat e.lines) e.blank (idle st out q)
      ∙ ap (λ (r : SseRewriter S). feeds h r e.blank)
          (feeds-lines e.lines (idle st out q) w.texts refl refl (omega (arith, w.fits))
            ∙ with_lines-collected e.lines (idle st out q))
      ∙ feeds-line e.blank (collected e.lines (idle st out q)) w.ended.0 refl refl
      ∙ blank-event e st out q w.ended

  feeds-events :
      (es : List SseEvent) (st : S) (out : Bytes) (q : ℕ)
      → All WithinCap es
      → feeds h (idle st out q) (stream es) ≡ idle (events_state st es) (out ++ events_out st es) q
  unfolding feeds
  feeds-events [] st out q w = rw (append-nil out) refl
  feeds-events (e ∷ es) st out q w =
      feeds-append (concat e.lines ++ e.blank) (stream es) (idle st out q)
      ∙ ap (λ (r : SseRewriter S). feeds h r (stream es)) (feeds-event e st out q w.0)
      ∙ feeds-events es (decide st e).1 _ q w.1
      ∙ ap (λ (x : Bytes). idle (events_state (decide st e).1 es) x q)
          (append_assoc out (rewritten (decide st e).0 e) (events_out (decide st e).1 es))

  finish-idle :
      (st : S) (out : Bytes) (q : ℕ)
      → ((finish h (settle h (idle st out q))).out ≡ out)
        × ((finish h (settle h (idle st out q))).st ≡ st)
  unfolding finish settle is_over write reset_event concat
  finish-idle st out q = (append-nil out, refl)

  -- The rewriter refines the specification on events: a stream of events within the cap leaves it with
  -- each event as it is or with its data replaced, as the handler says of the payloads in order, and
  -- with the state that the handler is left in, however the stream is cut into chunks, as long as no cut
  -- parts a carriage return from its newline.
  pub run-events :
      (st : S) (es : List SseEvent) (a : Bytes) (rest : List Bytes)
      → All WithinCap es
      → PartsNoCrlf a rest
      → a ++ concat rest ≡ stream es
      → ((run h (new_sse_rewriter st) (a ∷ rest)).out ≡ events_out st es)
        × ((run h (new_sse_rewriter st) (a ∷ rest)).st ≡ events_state st es)
  unfolding new_sse_rewriter
  run-events st es a rest w p e = rw done (finish-idle (events_state st es) (events_out st es) 0)
    where
      done :
          run h (new_sse_rewriter st) (a ∷ rest)
          ≡ finish h (settle h (idle (events_state st es) ([] ++ events_out st es) 0))
      done =
          run-merge h rest a (new_sse_rewriter st) (new-IsSettled h st) p
          ∙ ap (λ (b : Bytes). finish h (ingest h (new_sse_rewriter st) b)) e
          ∙ ap (finish h) (ingest-settle h (new_sse_rewriter st) (stream es) (new-IsSettled h st))
          ∙ ap (λ (r : SseRewriter S). finish h (settle h r)) (feeds-events es st [] 0 w)
