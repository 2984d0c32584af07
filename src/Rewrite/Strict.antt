-- ===== src/Rewrite/Strict.antt =====
-- What a strict request may be shown, by gateway/responsefilter.go: the messages that examineMessage
-- lets pass.
use mcp_gateway_lite.Base.{
  ℕ, zero, suc, ◌+◌, true, false, Bytes, List, [], Option, none, some, is_nil, All, ◌≡◌, ◌≢◌, ◌⊎◌,
  inl, inr, refl, Bool-cases,
}
use mcp_gateway_lite.Base.Dict.{Dict, lookup}
use mcp_gateway_lite.Codec.{Codec, RpcResponseProbe}
use mcp_gateway_lite.Rpc.{is_present}
use mcp_gateway_lite.Rewrite.{
  RewriteState, MsgOutcome, msg_pass, refuse, enforces, has_id, element_name, tools_key, new_result,
  emit_result, finish_filter, filter_tools, drift_reason, examine_tools, with_tools, with_tools_raw,
  with_result, with_probe, examine_message,
}
use mcp_gateway_lite.Rewrite.Filter.{visible, filter_tools-Filtered}
use mcp_gateway_lite.Rewrite.Examine.{
  Lists, ShowsVisible, drifted, no_drift, drift_enforced, drift_warned, examine_tools-ShowsVisible,
}

-- The outcome lets the message pass.
abbrev pub Passed : MsgOutcome → Type 0
Passed o = o.verdict ≡ msg_pass

-- The outcome lets the message pass as a message.
abbrev pub Passes : MsgOutcome → Type 0
Passes o = Passed o × (o.invalid ≡ false)

-- Every tool of the list has a name and is visible, and an enforced lock finds no drift in it.
pub record Cleared (codec : Codec) (st : RewriteState) (els : List Bytes) : Type 0 where
  pub seen : All (λ el. visible codec st.policy el ≡ true) els
  pub named : All (λ el. element_name codec el ≢ none) els
  pub undrifted : (enforces st.lock ≡ false) ⊎ (is_nil (drift_reason codec st.lock els) ≡ true)

-- The message decodes, and is no answer to a tools/list request, or is an error, or lists tools that
-- are cleared.
abbrev pub Vetted : Codec → RewriteState → Option RpcResponseProbe → Type 0
Vetted codec st none = ⊥
Vetted codec st (some probe) =
    (is_nil probe.id ≡ true)
    ⊎ (has_id st probe.id ≡ false)
    ⊎ (is_present probe.error ≡ true)
    ⊎ ((result : Dict Bytes) × (els : List Bytes) × Lists codec probe result els
        × Cleared codec st els)

module _ (codec : Codec) (st : RewriteState) (strict : st.strict ≡ true) where
  refuse-strict : (id reason : Bytes) → ¬ Passed (refuse st id reason)
  unfolding refuse
  refuse-strict id reason p = absurd (cc (strict, p))

  module _ (probe : RpcResponseProbe) (result : Dict Bytes) (els : List Bytes) where
    emit_result-blocks : (s : RewriteState) (o : Option Bytes) → ¬ Passed (emit_result probe s o).0
    emit_result-blocks s none p = absurd (cc p)
    emit_result-blocks s (some text) p = absurd (cc p)

    finish_filter-named :
        (s : RewriteState) (o : Option (List Bytes × ℕ))
        → filter_tools codec st.strict st.policy els ≡ o
        → Passed (finish_filter codec probe result o s).0
        → All (λ el. element_name codec el ≢ none) els
    unfolding finish_filter
    finish_filter-named s none e p = absurd (cc p)
    finish_filter-named s (some (kept, zero)) e p =
        (filter_tools-Filtered codec st.strict st.policy els kept 0 e).named strict
    finish_filter-named s (some (kept, suc n)) e p = absurd (
        emit_result-blocks (record s { filtered = s.filtered + suc n })
          (new_result codec result kept) p)

    shows-seen :
        (o : MsgOutcome)
        → ShowsVisible codec st.policy probe result els o.verdict o.out
        → Passed o
        → All (λ el. visible codec st.policy el ≡ true) els
    shows-seen o s p = rw p at s

    examine_tools-Cleared :
        Passed (examine_tools codec probe result els st).0 → Cleared codec st els
    examine_tools-Cleared p =
        let seen =
          shows-seen (examine_tools codec probe result els st).0
            (examine_tools-ShowsVisible codec [] st probe result els _ refl) p in
        let o = filter_tools codec st.strict st.policy els in
        elim (Bool-cases (is_nil (drift_reason codec st.lock els))) [
          | inl none_found ↦ record {
            seen = seen;
            named =
                finish_filter-named st o refl
                  (rw (no_drift codec [] st probe result els none_found) at p);
            undrifted = inr none_found;
          }
          | inr found ↦ elim (Bool-cases (enforces st.lock)) [
            | inl on ↦
                absurd (cc ((rw (drift_enforced codec [] st probe result els found on) at p)))
            | inr off ↦ record {
              seen = seen;
              named =
                  finish_filter-named (drifted codec [] st probe result els) o refl
                    (rw (drift_warned codec [] st probe result els found off) at p);
              undrifted = inl off;
            }
          ]
        ]

  module _ (probe : RpcResponseProbe) where
    abbrev Listed : Type 0
    Listed =
        (result : Dict Bytes) × (els : List Bytes) × Lists codec probe result els
        × Cleared codec st els

    with_tools-Listed :
        (result : Dict Bytes) (raw : Bytes) (o : Option (List Bytes))
        → codec.decode_object probe.result ≡ some (some result)
        → lookup tools_key result ≡ some raw
        → codec.decode_array raw ≡ o
        → Passed (with_tools codec probe result o st).0
        → Listed
    with_tools-Listed result raw none is_object has_tools e p = absurd (refuse-strict probe.id _ p)
    with_tools-Listed result raw (some els) is_object has_tools e p = (
      result,
      els,
      record { raw = raw; is_object = is_object; has_tools = has_tools; is_array = e },
      examine_tools-Cleared probe result els p,
    )

    with_tools_raw-Listed :
        (result : Dict Bytes) (o : Option Bytes)
        → codec.decode_object probe.result ≡ some (some result)
        → lookup tools_key result ≡ o
        → Passed (with_tools_raw codec probe result o st).0
        → Listed
    with_tools_raw-Listed result none is_object e p = absurd (refuse-strict probe.id _ p)
    with_tools_raw-Listed result (some raw) is_object e p =
        with_tools-Listed result raw (codec.decode_array raw) is_object e refl p

    with_result-Listed :
        (o : Option (Option (Dict Bytes)))
        → codec.decode_object probe.result ≡ o
        → Passed (with_result codec probe o st).0
        → Listed
    with_result-Listed none e p = absurd (refuse-strict probe.id _ p)
    with_result-Listed (some none) e p = absurd (refuse-strict probe.id _ p)
    with_result-Listed (some (some result)) e p =
        with_tools_raw-Listed result (lookup tools_key result) e refl p

  -- A decoded message that passes is vetted.
  pub with_probe-Vetted :
      (probe : RpcResponseProbe)
      → Passed (with_probe codec (some probe) st).0
      → Vetted codec st (some probe)
  with_probe-Vetted probe p = elim (Bool-cases (is_nil probe.id)) [
    | inl e ↦ inl e
    | inr e ↦ elim (Bool-cases (has_id st probe.id)) [
      | inr f ↦ inr (inl f)
      | inl f ↦ elim (Bool-cases (is_present probe.error)) [
        | inl g ↦ inr (inr (inl g))
        | inr g ↦ inr (
            inr (
              inr (
                with_result-Listed probe (codec.decode_object probe.result) refl
                  (rw (e, f, g) at p))))
      ]
    ]
  ]

  vetted : (o : Option RpcResponseProbe) → Passes (with_probe codec o st).0 → Vetted codec st o
  vetted none p = absurd (cc p.1)
  vetted (some probe) p = with_probe-Vetted probe p.0

  -- Where the request is strict, a message that passes and is not marked as invalid decodes, and has
  -- no id, or an id that no tools/list of the request has, or an error, or a list of tools that all
  -- have a name and are visible to the client, in which an enforced lock finds no drift.
  pub examine-Vetted :
      (m : Bytes)
      → Passes (examine_message codec m st).0
      → Vetted codec st (codec.decode_response m)
  unfolding examine_message
  examine-Vetted m p = vetted (codec.decode_response m) p
