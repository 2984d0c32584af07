-- ===== src/Rewrite/Settings.antt =====
-- What the messages of a response leave alone in the request's rewriteState of
-- gateway/responsefilter.go: what the request has set up before its response comes.
use mcp_gateway_lite.Base.{
  ℕ, zero, suc, Bool, true, Bytes, List, [], Option, none, some, is_nil, ◌≡◌, ◌⊎◌, inl, inr, refl,
  Bool-cases, Option-cases, ◌∙◌, ◌==◌, ◌+◌, not, ◌||◌, same,
}
use mcp_gateway_lite.Base.Dict.{Dict, lookup}
use mcp_gateway_lite.Codec.{Codec, RpcResponseProbe}
use mcp_gateway_lite.Policy.{ToolPolicy}
use mcp_gateway_lite.Lock.{PreparedLock}
use mcp_gateway_lite.Rpc.{is_present}
use mcp_gateway_lite.PromptProof.{
  Scanner, ScanReply, ScanResult, report, scan_error, verdict_rank, triggers,
}
use mcp_gateway_lite.Rewrite.{
  RewriteState, flag_action, scanned_content, has_id, note_once, record_scan, after_scan,
  scan_probe, scan_message, emit_result, new_result, finish_filter, filter_tools, drift_reason,
  enforces, examine_tools, with_tools, with_tools_raw, with_result, with_probe, tools_key,
  examine_message, has_scanned_id, handle_message,
}
use mcp_gateway_lite.Rewrite.Examine.{drifted, no_drift, drift_enforced, drift_warned}

-- The fields of a rewrite state that its request sets.
pub record Settings : Type 0 where
  pub strict : Bool
  pub policy : Option ToolPolicy
  pub lock : Option PreparedLock
  pub ids : List Bytes
  pub scanner : Option Scanner
  pub scan_ids : List Bytes

abbrev pub settings : RewriteState → Settings
settings st = record {
  strict = st.strict;
  policy = st.policy;
  lock = st.lock;
  ids = st.ids;
  scanner = st.scanner;
  scan_ids = st.scan_ids;
}

pub note_once-settings :
    (reason : Bytes) (st : RewriteState) → settings (note_once reason st) ≡ settings st
unfolding note_once
note_once-settings reason st = elim (Bool-cases (is_nil st.note)) [
  | inl e ↦ rw (e, note_once) refl
  | inr e ↦ rw (e, note_once) refl
]

record_scan-settings :
    (res : ScanResult) (st : RewriteState) → settings (record_scan res st) ≡ settings st
unfolding record_scan
record_scan-settings res st = elim (Bool-cases (verdict_rank res.verdict == 0)) [
  | inl e ↦ rw (record_scan, e) refl
  | inr e ↦ rw (record_scan, e) refl
]

module _ (codec : Codec) where
  module _ (probe : RpcResponseProbe) (result : Dict Bytes) where
    emit_result-settings :
        (s : RewriteState) (o : Option Bytes) → settings (emit_result probe s o).1 ≡ settings s
    emit_result-settings s none = refl
    emit_result-settings s (some text) = refl

    finish_filter-settings :
        (o : Option (List Bytes × ℕ)) (s : RewriteState)
        → settings (finish_filter codec probe result o s).1 ≡ settings s
    unfolding finish_filter
    finish_filter-settings none s = refl
    finish_filter-settings (some (kept, zero)) s = refl
    finish_filter-settings (some (kept, suc n)) s =
        emit_result-settings (record s { filtered = s.filtered + suc n })
          (new_result codec result kept)

    examine_tools-settings :
        (els : List Bytes) (st : RewriteState)
        → settings (examine_tools codec probe result els st).1 ≡ settings st
    examine_tools-settings els st =
        let o = filter_tools codec st.strict st.policy els in
        let noted : settings (drifted codec [] st probe result els) ≡ settings st =
          note_once-settings (drift_reason codec st.lock els) (record st { drift = true }) in
        elim (Bool-cases (is_nil (drift_reason codec st.lock els))) [
          | inl e ↦ rw (no_drift codec [] st probe result els e) (finish_filter-settings o st)
          | inr e ↦ elim (Bool-cases (enforces st.lock)) [
            | inl on ↦ rw (drift_enforced codec [] st probe result els e on) noted
            | inr off ↦
                rw (drift_warned codec [] st probe result els e off)
                  (finish_filter-settings o (drifted codec [] st probe result els) ∙ noted)
          ]
        ]

  module _ (probe : RpcResponseProbe) where
    with_tools-settings :
        (result : Dict Bytes) (o : Option (List Bytes)) (st : RewriteState)
        → settings (with_tools codec probe result o st).1 ≡ settings st
    with_tools-settings result none st = refl
    with_tools-settings result (some els) st = examine_tools-settings probe result els st

    with_tools_raw-settings :
        (result : Dict Bytes) (o : Option Bytes) (st : RewriteState)
        → settings (with_tools_raw codec probe result o st).1 ≡ settings st
    with_tools_raw-settings result none st = refl
    with_tools_raw-settings result (some raw) st =
        with_tools-settings result (codec.decode_array raw) st

    with_result-settings :
        (o : Option (Option (Dict Bytes))) (st : RewriteState)
        → settings (with_result codec probe o st).1 ≡ settings st
    with_result-settings none st = refl
    with_result-settings (some none) st = refl
    with_result-settings (some (some result)) st =
        with_tools_raw-settings result (lookup tools_key result) st

  with_probe-settings :
      (o : Option RpcResponseProbe) (st : RewriteState)
      → settings (with_probe codec o st).1 ≡ settings st
  with_probe-settings none st = refl
  with_probe-settings (some probe) st =
      elim (Bool-cases (is_nil probe.id || not (has_id st probe.id))) [
        | inl e ↦ rw e refl
        | inr e ↦ elim (Bool-cases (is_present probe.error)) [
          | inl f ↦ rw (e, f) refl
          | inr f ↦ rw (e, f) (with_result-settings probe (codec.decode_object probe.result) st)
        ]
      ]

  after_scan-settings :
      (sc : Scanner) (probe : RpcResponseProbe) (r : ScanReply) (st : RewriteState)
      → settings (after_scan sc probe r st).1 ≡ settings st
  unfolding after_scan
  after_scan-settings sc probe (scan_error e) st =
      note_once-settings _ _
      ∙ elim (Bool-cases (is_nil st.scan_err)) [ inl x ↦ rw x refl | inr x ↦ rw x refl ]
  after_scan-settings sc probe (report res) st = elim (Bool-cases (triggers sc res.verdict)) [
    | inr x ↦ rw x (record_scan-settings res st)
    | inl x ↦ elim (Bool-cases (same sc.action flag_action)) [
      | inl y ↦ rw (x, y) (record_scan-settings res st)
      | inr y ↦ rw (x, y) (note_once-settings _ _ ∙ record_scan-settings res st)
    ]
  ]

  scan_probe-settings :
      (sc : Scanner) (o : Option RpcResponseProbe) (st : RewriteState)
      → settings (scan_probe codec sc o st).1 ≡ settings st
  scan_probe-settings sc none st = refl
  scan_probe-settings sc (some probe) st = elim (Bool-cases (is_present probe.error)) [
    | inl e ↦ rw e refl
    | inr e ↦ elim (Bool-cases (is_nil probe.result)) [
      | inl f ↦ rw (e, f) refl
      | inr f ↦
          rw (e, f)
            (after_scan-settings sc probe (sc.reply (scanned_content codec probe.result)) st)
    ]
  ]

  -- What the message is examined as: by the filter and the lock, or by the scanner.
  abbrev pub Examined : Bytes → RewriteState → Type 0
  Examined m st =
      (handle_message codec m st ≡ examine_message codec m st)
      ⊎ ((sc : Scanner) × (st.scanner ≡ some sc)
          × (has_scanned_id (codec.decode_response m) st ≡ true)
          × (handle_message codec m st ≡ scan_message codec sc m st))

  pub handle_message-Examined : (m : Bytes) (st : RewriteState) → Examined m st
  unfolding handle_message
  handle_message-Examined m st = elim (Option-cases st.scanner) [
    | inl e ↦ inl (simp (handle_message, e))
    | inr (sc, e) ↦ elim (Bool-cases (is_nil st.scan_ids)) [
      | inl f ↦ inl (simp (handle_message, e, f))
      | inr f ↦ elim (Bool-cases (has_scanned_id (codec.decode_response m) st)) [
        | inl g ↦ inr (sc, e, g, simp (handle_message, e, f, g))
        | inr g ↦ inl (simp (handle_message, e, f, g))
      ]
    ]
  ]

  -- A message changes nothing that its request has set.
  pub handle_message-settings :
      (m : Bytes) (st : RewriteState) → settings (handle_message codec m st).1 ≡ settings st
  unfolding scan_message examine_message
  handle_message-settings m st = elim (handle_message-Examined m st) [
    | inl e ↦ rw e (with_probe-settings (codec.decode_response m) st)
    | inr (sc, e, f, g) ↦ rw g (scan_probe-settings sc (codec.decode_response m) st)
  ]
