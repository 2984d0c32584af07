-- ===== src/Rewrite/Observing.antt =====
-- Requests that are only observed, by gateway/responsefilter.go: no filter, a lock that warns, a
-- scanner that flags.
use mcp_gateway_lite.Base.{
  true, false, not, ◌&&◌, ◌||◌, Bytes, same, List, [], ◌∷◌, Option, none, some, is_nil, ◌==◌, ◌≡◌,
  inl, inr, refl, Bool-cases, Option-cases,
}
use mcp_gateway_lite.Base.Dict.{Dict, lookup}
use mcp_gateway_lite.Codec.{Codec, RpcResponseProbe}
use mcp_gateway_lite.Rpc.{is_present}
use mcp_gateway_lite.PromptProof.{
  Scanner, ScanResult, ScanReply, report, scan_error, triggers, verdict_rank,
}
use mcp_gateway_lite.Rewrite.{
  RewriteState, MsgOutcome, msg_pass, refuse, enforces, has_id, element_name, note_once, tools_key,
  flag_action, record_scan, after_scan, scan_probe, scan_message, finish_filter, filter_tools,
  drift_reason, examine_tools, with_tools, with_tools_raw, with_result, with_probe, examine_message,
  handle_message, has_scanned_id, scanned_content,
}
use mcp_gateway_lite.Policy.{allows}
use mcp_gateway_lite.Rewrite.Examine.{drifted, no_drift, drift_warned}

abbrev pub FlagsOnly : Option Scanner → Type 0
FlagsOnly none = Unit
FlagsOnly (some sc) = same sc.action flag_action ≡ true

pub record Observes (st : RewriteState) : Type 0 where
  pub lax : st.strict ≡ false
  pub unfiltered : st.policy ≡ none
  pub unlocked : enforces st.lock ≡ false
  pub flags : FlagsOnly st.scanner

-- The message passes, and the request stays one that is observed.
abbrev Watched : MsgOutcome × RewriteState → Type 0
Watched (o, st) = (o.verdict ≡ msg_pass) × Observes st

note_once-Observes :
    (reason : Bytes) (st : RewriteState) → Observes st → Observes (note_once reason st)
unfolding note_once
note_once-Observes reason st w = elim (Bool-cases (is_nil st.note)) [
  | inl e ↦
      rw (e, note_once)
        (record { lax = w.lax; unfiltered = w.unfiltered; unlocked = w.unlocked; flags = w.flags })
  | inr e ↦ rw (e, note_once) w
]

refuse-Watched :
    (st : RewriteState) (id reason : Bytes) → Observes st → Watched (refuse st id reason, st)
unfolding refuse
refuse-Watched st id reason w = (rw w.lax refl, w)

module _ (codec : Codec) where
  filter_tools-all : (els : List Bytes) → filter_tools codec false none els ≡ some (els, 0)
  unfolding filter_tools allows
  filter_tools-all [] = refl
  filter_tools-all (el ∷ els) = elim (Option-cases (element_name codec el)) [
    | inl e ↦ rw (filter_tools, e, filter_tools-all els) refl
    | inr (name, e) ↦ rw (filter_tools, e, allows, filter_tools-all els) refl
  ]

  module _ (probe : RpcResponseProbe) where
    finish_filter-Watched :
        (result : Dict Bytes) (els : List Bytes) (st : RewriteState) (s : RewriteState)
        → Observes st
        → Observes s
        → Watched (finish_filter codec probe result (filter_tools codec st.strict st.policy els) s)
    unfolding finish_filter
    finish_filter-Watched result els st s w v =
        rw (w.lax, w.unfiltered, filter_tools-all els) (refl, v)

    examine_tools-Watched :
        (result : Dict Bytes) (els : List Bytes) (st : RewriteState)
        → Observes st
        → Watched (examine_tools codec probe result els st)
    examine_tools-Watched result els st w =
        elim (Bool-cases (is_nil (drift_reason codec st.lock els))) [
          | inl e ↦
              rw (no_drift codec [] st probe result els e)
                (finish_filter-Watched result els st st w w)
          | inr e ↦ rw (drift_warned codec [] st probe result els e w.unlocked) (
              finish_filter-Watched result els st (drifted codec [] st probe result els) w (
                note_once-Observes (drift_reason codec st.lock els) (record st { drift = true })
                  (record {
                    lax = w.lax;
                    unfiltered = w.unfiltered;
                    unlocked = w.unlocked;
                    flags = w.flags;
                  })))
        ]

    with_tools-Watched :
        (result : Dict Bytes) (o : Option (List Bytes)) (st : RewriteState)
        → Observes st
        → Watched (with_tools codec probe result o st)
    with_tools-Watched result none st w = refuse-Watched st probe.id _ w
    with_tools-Watched result (some els) st w = examine_tools-Watched result els st w

    with_tools_raw-Watched :
        (result : Dict Bytes) (o : Option Bytes) (st : RewriteState)
        → Observes st
        → Watched (with_tools_raw codec probe result o st)
    with_tools_raw-Watched result none st w = refuse-Watched st probe.id _ w
    with_tools_raw-Watched result (some raw) st w =
        with_tools-Watched result (codec.decode_array raw) st w

    with_result-Watched :
        (o : Option (Option (Dict Bytes))) (st : RewriteState)
        → Observes st
        → Watched (with_result codec probe o st)
    with_result-Watched none st w = refuse-Watched st probe.id _ w
    with_result-Watched (some none) st w = refuse-Watched st probe.id _ w
    with_result-Watched (some (some result)) st w =
        with_tools_raw-Watched result (lookup tools_key result) st w

  with_probe-Watched :
      (o : Option RpcResponseProbe) (st : RewriteState)
      → Observes st
      → Watched (with_probe codec o st)
  with_probe-Watched none st w = (refl, w)
  with_probe-Watched (some probe) st w =
      elim (Bool-cases (is_nil probe.id || not (has_id st probe.id))) [
        | inl e ↦ rw e (refl, w)
        | inr e ↦ elim (Bool-cases (is_present probe.error)) [
          | inl f ↦ rw (e, f) (refl, w)
          | inr f ↦ rw (e, f) (with_result-Watched probe (codec.decode_object probe.result) st w)
        ]
      ]

  record_scan-Observes :
      (res : ScanResult) (st : RewriteState) → Observes st → Observes (record_scan res st)
  unfolding record_scan
  record_scan-Observes res st w = elim (Bool-cases (verdict_rank res.verdict == 0)) [
    | inl e ↦ rw (record_scan, e) w
    | inr e ↦
        rw (record_scan, e)
          (record {
            lax = w.lax;
            unfiltered = w.unfiltered;
            unlocked = w.unlocked;
            flags = w.flags;
          })
  ]

  after_scan-Watched :
      (sc : Scanner) (probe : RpcResponseProbe) (r : ScanReply) (st : RewriteState)
      → same sc.action flag_action ≡ true
      → Observes st
      → Watched (after_scan sc probe r st)
  unfolding after_scan
  after_scan-Watched sc probe (scan_error e) st flags w = (
    refl,
    note_once-Observes _ _ (elim (Bool-cases (is_nil st.scan_err)) [
      | inl x ↦ rw x (record {
        lax = w.lax;
        unfiltered = w.unfiltered;
        unlocked = w.unlocked;
        flags = w.flags;
      })
      | inr x ↦ rw x w
    ]),
  )
  after_scan-Watched sc probe (report res) st flags w =
      let v = record_scan-Observes res st w in
      elim (Bool-cases (triggers sc res.verdict)) [
        | inr x ↦ rw x (refl, v)
        | inl x ↦
            rw (x, flags)
              (
                refl,
                record {
                  lax = v.lax;
                  unfiltered = v.unfiltered;
                  unlocked = v.unlocked;
                  flags = v.flags;
                },
              )
      ]

  scan_probe-Watched :
      (sc : Scanner) (o : Option RpcResponseProbe) (st : RewriteState)
      → same sc.action flag_action ≡ true
      → Observes st
      → Watched (scan_probe codec sc o st)
  scan_probe-Watched sc none st flags w = (refl, w)
  scan_probe-Watched sc (some probe) st flags w = elim (Bool-cases (is_present probe.error)) [
    | inl e ↦ rw e (refl, w)
    | inr e ↦ elim (Bool-cases (is_nil probe.result)) [
      | inl f ↦ rw (e, f) (refl, w)
      | inr f ↦
          rw (e, f)
            (after_scan-Watched sc probe (sc.reply (scanned_content codec probe.result)) st flags w)
    ]
  ]

  -- A message to an observed request passes, and the request stays observed.
  pub handle_message-Watched :
      (m : Bytes) (st : RewriteState) → Observes st → Watched (handle_message codec m st)
  unfolding handle_message scan_message examine_message
  handle_message-Watched m st w = elim (Option-cases st.scanner) [
    | inl e ↦ rw (handle_message, e) (with_probe-Watched (codec.decode_response m) st w)
    | inr (sc, e) ↦
        elim (Bool-cases
          (not (is_nil st.scan_ids) && has_scanned_id (codec.decode_response m) st)) [
            | inl f ↦
                rw (handle_message, e, f)
                  (scan_probe-Watched sc (codec.decode_response m) st (rw e at w.flags) w)
            | inr f ↦ rw (handle_message, e, f) (with_probe-Watched (codec.decode_response m) st w)
          ]
  ]
