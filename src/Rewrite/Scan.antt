-- ===== src/Rewrite/Scan.antt =====
-- What scanning a tool result does to the message and to the record of the audit entry, by
-- gateway/responsefilter.go.
use mcp_gateway_lite.Base.{
  ℕ, ◌≤◌, true, false, not, ◌&&◌, Bytes, codes, same, List, [], ◌∷◌, none, some, is_nil, All, ◌≡◌,
  ◌≢◌, ◌⊎◌, inl, inr, refl, sym, ap, ◌∙◌, arith,
}
use mcp_gateway_lite.Codec.{Codec, RpcResponseProbe}
use mcp_gateway_lite.Rpc.{is_present}
use mcp_gateway_lite.PromptProof.{
  Scanner, ScanResult, ScanReply, report, scan_error, verdict_rank, triggers, contains_string,
}
use mcp_gateway_lite.Rewrite.{
  RewriteState, MsgOutcome, blocked, pass, promptproof_block_code, note_once, has_scan_id,
  flag_action, record_scan, scan_block_reason, after_scan, scanned_content, scan_message,
  handle_message,
}
use mcp_gateway_lite.Rewrite.Examine.{note_once-ne-nil}

-- The message `m` answers a tools/call request of `st`, is no error and has a result.
pub record Result (codec : Codec) (m : Bytes) (st : RewriteState) (sc : Scanner)
    (probe : RpcResponseProbe) : Type 0 where
  pub scanning : st.scanner ≡ some sc
  pub decoded : codec.decode_response m ≡ some probe
  pub has_an_id : is_nil probe.id ≡ false
  pub asked : has_scan_id st probe.id ≡ true
  pub no_error : is_present probe.error ≡ false
  pub has_result : is_nil probe.result ≡ false

scan_block_reason-ne-nil : (res : ScanResult) → scan_block_reason res ≢ []
unfolding scan_block_reason codes
scan_block_reason-ne-nil res e = ground arith

note_once-keeps_blocked :
    (st : RewriteState) (r : Bytes) → (note_once r st).scan_blocked ≡ st.scan_blocked
unfolding note_once
note_once-keeps_blocked st r = ground arith

asked-some_id : (ids : List Bytes) (id : Bytes) → contains_string ids id ≡ true → is_nil ids ≡ false
unfolding contains_string
asked-some_id [] id e = ground arith
asked-some_id (i ∷ ids) id e = refl

module _ (codec : Codec) (m : Bytes) (st : RewriteState) (sc : Scanner)
    (probe : RpcResponseProbe) where
  handle_message-Result :
      Result codec m st sc probe
      → handle_message codec m st
        ≡ after_scan sc probe (sc.reply (scanned_content codec probe.result)) st
  unfolding handle_message scan_message has_scan_id after_scan
  handle_message-Result r = rw (
    r.scanning,
    asked-some_id st.scan_ids probe.id r.asked,
    r.decoded,
    r.has_an_id,
    r.asked,
    r.no_error,
    r.has_result,
  )

  -- A tool result whose report reaches the threshold of a scanner that does not only flag is blocked
  -- with code -32005, the message's id and a reason, and the record of the request says that a
  -- result was blocked and holds a reason.
  handle_message-blocks :
      (res : ScanResult)
      → Result codec m st sc probe
      → sc.reply (scanned_content codec probe.result) ≡ report res
      → triggers sc res.verdict ≡ true
      → same sc.action flag_action ≡ false
      → ((handle_message codec m st).0
          ≡ blocked probe.id promptproof_block_code (scan_block_reason res))
        × ((handle_message codec m st).1.scan_blocked ≡ true)
        × ((handle_message codec m st).1.note ≢ [])
  unfolding after_scan
  handle_message-blocks res r e t a =
      rw (handle_message-Result r, e, t, a)
        (
          refl,
          note_once-keeps_blocked (record (record_scan res st) { scan_blocked = true })
              (scan_block_reason res),
          note_once-ne-nil (record (record_scan res st) { scan_blocked = true })
              (scan_block_reason res) (scan_block_reason-ne-nil res),
        )

  -- A tool result passes wherever the scanner fails, its report stays below the threshold, or the
  -- scanner only flags.
  handle_message-passes :
      Result codec m st sc probe
      → ((e : Bytes) × (sc.reply (scanned_content codec probe.result) ≡ scan_error e))
        ⊎ ((res : ScanResult) × (sc.reply (scanned_content codec probe.result) ≡ report res)
            × ((triggers sc res.verdict && not (same sc.action flag_action)) ≡ false))
      → (handle_message codec m st).0 ≡ pass
  unfolding after_scan
  handle_message-passes r (inl (e, failed)) = rw (handle_message-Result r, failed) refl
  handle_message-passes r (inr (res, e, low)) =
      rw (handle_message-Result r, e) (ground (arith, low))

after_scan-outcome :
    (sc : Scanner) (probe : RpcResponseProbe) (r : ScanReply) (s t : RewriteState)
    → (after_scan sc probe r s).0 ≡ (after_scan sc probe r t).0
unfolding after_scan
after_scan-outcome sc probe (scan_error e) s t = refl
after_scan-outcome sc probe (report res) s t = ground arith

-- The state without a filter and a lock.
abbrev pub unguarded : RewriteState → RewriteState
unguarded st = record st { policy = none; lock = none; strict = false }

-- The outcome for the answer to a tools/call request does not depend on the filter and on the lock,
-- even if a tools/list request of the same batch has the same id: without both, and with a lax state,
-- it is the same.
pub handle_message-shared_id :
    (codec : Codec) (m : Bytes) (st : RewriteState) (sc : Scanner) (probe : RpcResponseProbe)
    → Result codec m st sc probe
    → (handle_message codec m st).0 ≡ (handle_message codec m (unguarded st)).0
unfolding has_scan_id
handle_message-shared_id codec m st sc probe r =
    ap (λ (o : MsgOutcome × RewriteState). o.0) (handle_message-Result codec m st sc probe r)
    ∙ after_scan-outcome sc probe (sc.reply (scanned_content codec probe.result)) st (unguarded st)
    ∙ sym (
        ap (λ (o : MsgOutcome × RewriteState). o.0)
          (handle_message-Result codec m (unguarded st) sc probe (record {
            scanning = r.scanning;
            decoded = r.decoded;
            has_an_id = r.has_an_id;
            asked = r.asked;
            no_error = r.no_error;
            has_result = r.has_result;
          })))

abbrev pub record_scans : List ScanResult → RewriteState → RewriteState
record_scans [] st = st
record_scans (res ∷ results) st = record_scans results (record_scan res st)

abbrev pub rank_of : RewriteState → ℕ
rank_of st = verdict_rank st.scan_verdict

record_scan-Bounds :
    (res : ScanResult) (st : RewriteState)
    → (rank_of st ≤ rank_of (record_scan res st))
      × (verdict_rank res.verdict ≤ rank_of (record_scan res st))
      × ((rank_of (record_scan res st) ≡ rank_of st)
          ⊎ (rank_of (record_scan res st) ≡ verdict_rank res.verdict))
unfolding record_scan
record_scan-Bounds res st = ground arith

abbrev pub Below : ℕ → ScanResult → Type 0
Below n res = verdict_rank res.verdict ≤ n

-- Some result has the rank `n`.
abbrev pub Reaches : ℕ → List ScanResult → Type 0
Reaches n [] = ⊥
Reaches n (res ∷ results) = (n ≡ verdict_rank res.verdict) ⊎ Reaches n results

-- The verdict recorded for a request is the worst: after the reports of any sequence of results its
-- rank is at least the rank before and the rank of each report, and it is one of these.
pub record_scans-Bounds :
    (results : List ScanResult) (st : RewriteState)
    → (rank_of st ≤ rank_of (record_scans results st))
      × All (Below (rank_of (record_scans results st))) results
      × ((rank_of (record_scans results st) ≡ rank_of st)
          ⊎ Reaches (rank_of (record_scans results st)) results)
record_scans-Bounds [] st = (omega arith, tt, inl refl)
record_scans-Bounds (res ∷ results) st =
    let (first, second, third) = record_scan-Bounds res st in
    let (rest, below, reached) = record_scans-Bounds results (record_scan res st) in
    (
      omega arith,
      (omega arith, below),
      elim reached [
        | inr later ↦ inr (inr later)
        | inl same_rank ↦ elim third [
          | inl before ↦ inl (same_rank ∙ before)
          | inr now ↦ inr (inl (same_rank ∙ now))
        ]
      ],
    )
