-- ===== src/Rewrite/Examine.antt =====
-- What a client gets of a tools/list result, by gateway/responsefilter.go.
use mcp_gateway_lite.Base.{
  ℕ, zero, suc, ◌+◌, Bool, true, false, Bytes, List, [], ◌∷◌, Option, none, some, is_nil, length,
  All, ◌≡◌, ◌≢◌, inl, inr, refl, ap, ◌∙◌, arith, Bool-cases,
}
use mcp_gateway_lite.Base.Dict.{Dict, lookup}
use mcp_gateway_lite.Codec.{Codec, RpcResponseProbe}
use mcp_gateway_lite.Rpc.{is_present}
use mcp_gateway_lite.Policy.{ToolPolicy}
use mcp_gateway_lite.Rewrite.{
  RewriteState, MsgOutcome, MsgVerdict, msg_pass, msg_rewrite, msg_block, blocked, lock_code,
  enforces, has_id, note_once, tools_key, new_result, rebuilt, emit_result, finish_filter,
  filter_tools, drift_reason, examine_tools, with_result, examine_message,
}
use mcp_gateway_lite.Rewrite.Filter.{visible, select, select_everything, filter_tools-Filtered}

-- The message `m` answers a tools/list request of `st` and is no error.
pub record Answers (codec : Codec) (m : Bytes) (st : RewriteState) (probe : RpcResponseProbe)
    : Type 0 where
  pub decoded : codec.decode_response m ≡ some probe
  pub has_an_id : is_nil probe.id ≡ false
  pub asked : has_id st probe.id ≡ true
  pub no_error : is_present probe.error ≡ false

-- The result of a message has the tools `els`.
pub record Lists (codec : Codec) (probe : RpcResponseProbe) (result : Dict Bytes) (els : List Bytes)
    : Type 0 where
  pub raw : Bytes
  pub is_object : codec.decode_object probe.result ≡ some (some result)
  pub has_tools : lookup tools_key result ≡ some raw
  pub is_array : codec.decode_array raw ≡ some els

-- What an outcome shows of the tools `els`: all of them as they are, and then each is visible; or a
-- result whose tools are the visible ones; or nothing.
abbrev pub ShowsVisible :
    Codec
    → Option ToolPolicy
    → RpcResponseProbe
    → Dict Bytes
    → List Bytes
    → MsgVerdict
    → Bytes
    → Type 0
ShowsVisible codec policy probe result els msg_pass out =
    All (λ el. visible codec policy el ≡ true) els
ShowsVisible codec policy probe result els msg_rewrite out =
    (text : Bytes) × (new_result codec result (select (visible codec policy) els) ≡ some text)
    × (out ≡ rebuilt probe text)
ShowsVisible codec policy probe result els msg_block out = Unit

pub not_nil : (x : Bytes) → x ≢ [] → is_nil x ≡ false
not_nil [] n = absurd (n refl)
not_nil (c ∷ x) n = refl

pub note_once-ne-nil : (st : RewriteState) (r : Bytes) → r ≢ [] → (note_once r st).note ≢ []
unfolding note_once
note_once-ne-nil st r n = elim (Bool-cases (is_nil st.note)) [
  | inl empty ↦ rw empty n
  | inr some_note ↦ rw some_note (λ e. ground arith)
]

module _ (codec : Codec) (m : Bytes) (st : RewriteState) (probe : RpcResponseProbe) where
  with_result-Answers :
      Answers codec m st probe
      → examine_message codec m st ≡ with_result codec probe (codec.decode_object probe.result) st
  unfolding examine_message
  with_result-Answers a = rw (a.decoded, a.has_an_id, a.asked, a.no_error)

  module _ (result : Dict Bytes) (els : List Bytes) where
    examine_tools-Lists :
        Answers codec m st probe
        → Lists codec probe result els
        → examine_message codec m st ≡ examine_tools codec probe result els st
    examine_tools-Lists a l = with_result-Answers a ∙ rw (l.is_object, l.has_tools, l.is_array)

    emit_result-ShowsVisible :
        (policy : Option ToolPolicy) (s : RewriteState) (kept : List Bytes) (o : Option Bytes)
        → kept ≡ select (visible codec policy) els
        → new_result codec result kept ≡ o
        → ShowsVisible codec policy probe result els
            (emit_result probe s o).0.verdict
            (emit_result probe s o).0.out
    emit_result-ShowsVisible policy s kept none selected e = tt
    emit_result-ShowsVisible policy s kept (some text) selected e = (text, rw (← selected) e, refl)

    -- The outcome depends on the state only by the code of a refusal.
    finish_filter-ShowsVisible :
        (strict : Bool) (policy : Option ToolPolicy) (s : RewriteState)
        (o : Option (List Bytes × ℕ))
        → filter_tools codec strict policy els ≡ o
        → ShowsVisible codec policy probe result els
            (finish_filter codec probe result o s).0.verdict
            (finish_filter codec probe result o s).0.out
    unfolding finish_filter
    finish_filter-ShowsVisible strict policy s none e = tt
    finish_filter-ShowsVisible strict policy s (some (kept, zero)) e =
        let f = filter_tools-Filtered codec strict policy els kept 0 e in
        select_everything (visible codec policy) els
          (omega (arith, f.counted, ap length f.selected))
    finish_filter-ShowsVisible strict policy s (some (kept, suc n)) e =
        let f = filter_tools-Filtered codec strict policy els kept (suc n) e in
        emit_result-ShowsVisible policy (record s { filtered = s.filtered + suc n }) kept
          (new_result codec result kept) f.selected refl

    -- The state behind a drift, and what it leaves alone.
    abbrev pub drifted : RewriteState
    drifted = note_once (drift_reason codec st.lock els) (record st { drift = true })

    pub no_drift :
        is_nil (drift_reason codec st.lock els) ≡ true
        → examine_tools codec probe result els st
          ≡ finish_filter codec probe result (filter_tools codec st.strict st.policy els) st
    unfolding examine_tools
    no_drift e = rw (e, examine_tools)

    pub drift_enforced :
        is_nil (drift_reason codec st.lock els) ≡ false
        → enforces st.lock ≡ true
        → examine_tools codec probe result els st
          ≡ (blocked probe.id lock_code (drift_reason codec st.lock els), drifted)
    unfolding examine_tools
    drift_enforced e f = rw (e, f, examine_tools)

    pub drift_warned :
        is_nil (drift_reason codec st.lock els) ≡ false
        → enforces st.lock ≡ false
        → examine_tools codec probe result els st
          ≡ finish_filter codec probe result (filter_tools codec st.strict st.policy els) drifted
    unfolding examine_tools
    drift_warned e f = rw (e, f, examine_tools)

    pub examine_tools-ShowsVisible :
        (o : MsgOutcome × RewriteState)
        → examine_tools codec probe result els st ≡ o
        → ShowsVisible codec st.policy probe result els o.0.verdict o.0.out
    examine_tools-ShowsVisible o e = elim (Bool-cases (is_nil (drift_reason codec st.lock els))) [
      | inl none_found ↦
          rw (← e, no_drift none_found) (finish_filter-ShowsVisible st.strict st.policy st _ refl)
      | inr found ↦ elim (Bool-cases (enforces st.lock)) [
        | inl on ↦ rw (← e, drift_enforced found on) tt
        | inr off ↦
            rw (← e, drift_warned found off)
              (finish_filter-ShowsVisible st.strict st.policy drifted _ refl)
      ]
    ]

    -- Where an enforced lock finds a drift, the message is blocked with code -32004, the message's id
    -- and the reason of the drift, and the drift and a reason are kept for the audit entry.
    examine_drift :
        Answers codec m st probe
        → Lists codec probe result els
        → enforces st.lock ≡ true
        → drift_reason codec st.lock els ≢ []
        → ((examine_message codec m st).0
            ≡ blocked probe.id lock_code (drift_reason codec st.lock els))
          × ((examine_message codec m st).1.drift ≡ true)
          × ((examine_message codec m st).1.note ≢ [])
    examine_drift a l on found =
        rw (examine_tools-Lists a l, drift_enforced (not_nil _ found) on)
          (
            refl,
            unfold note_once in ground arith,
            note_once-ne-nil (record st { drift = true }) _ found,
          )
