-- ===== src/Rewrite/Guarded/Bodies.antt =====
-- Strict requests whose response is a JSON body: what processJSONBody of gateway/responsefilter.go
-- lets become of the messages.
use mcp_gateway_lite.Base.{
  true, false, ◌==◌, Bool, Bytes, List, [], ◌∷◌, Option, none, some, subst, Option-cases, ◌≡◌, ◌⊎◌,
  inl, inr, refl, ap, ◌∙◌, Bool-cases, ◌&&◌,
}
use mcp_gateway_lite.Codec.{Codec}
use mcp_gateway_lite.Policy.{ToolPolicy}
use mcp_gateway_lite.Rewrite.{
  RewriteState, MsgVerdict, msg_pass, msg_rewrite, msg_block, handle_message,
}
use mcp_gateway_lite.Rewrite.Settings.{settings, Settings, handle_message-settings}
use mcp_gateway_lite.Rewrite.Body.{
  Decision, unchanged, changed, refused, failed, Batch, sent, stopped, put_first, process_batch,
  decide_batch, process_array, process_single, process_trimmed,
}
use mcp_gateway_lite.Rewrite.Guarded.{Filtered, handle_message-Filtered}
use mcp_gateway_lite.Rewrite.Guarded.Kept.{Kept, Kept-settings, handle_message-Kept}

-- The message is kept as it is, or cut down to the visible tools.
abbrev pub Sent : Codec → RewriteState → Bytes → Bytes → Type 0
Sent codec st m out =
    ((out ≡ m) × Kept codec st (codec.decode_response m))
    ⊎ Filtered codec st.policy (codec.decode_response m) out

abbrev pub EachSent : Codec → RewriteState → List Bytes → List Bytes → Type 0
EachSent codec st [] [] = Unit
EachSent codec st [] (o ∷ os) = ⊥
EachSent codec st (m ∷ ms) [] = ⊥
EachSent codec st (m ∷ ms) (o ∷ os) = Sent codec st m o × EachSent codec st ms os

-- What becomes of a batch.
abbrev pub BatchSent : Codec → RewriteState → List Bytes → Batch → Type 0
BatchSent codec st ms (stopped code reason) = Unit
BatchSent codec st ms (sent outs b) = EachSent codec st ms outs × ((b ≡ false) → (outs ≡ ms))

-- What becomes of a body: it is refused, or the messages of it are sent, each as it is or cut down.
-- Where they are all as they are, so is the body.
abbrev pub BodySent : Codec → RewriteState → Bytes → Decision → Type 0
BodySent codec st body (refused code reason) = Unit
BodySent codec st body failed = Unit
BodySent codec st body unchanged =
    (body ≡ [])
    ⊎ Kept codec st (codec.decode_response body)
    ⊎ ((ms : List Bytes) × (codec.decode_array body ≡ some ms) × EachSent codec st ms ms)
BodySent codec st body (changed out) =
    Filtered codec st.policy (codec.decode_response body) out
    ⊎ ((ms : List Bytes) × (outs : List Bytes) × (codec.decode_array body ≡ some ms)
        × (codec.encode_array outs ≡ some out)
        × EachSent codec st ms outs)

module _ (codec : Codec) (st : RewriteState) (on : st.strict ≡ true) where
  put_first-Sent :
      (m out : Bytes) (ms : List Bytes) (b : Bool) (rest : Batch)
      → Sent codec st m out
      → (b ≡ false → out ≡ m)
      → BatchSent codec st ms rest
      → BatchSent codec st (m ∷ ms) (put_first codec out b rest)
  put_first-Sent m out ms b (stopped code reason) s same_text r = tt
  put_first-Sent m out ms true (sent outs c) s same_text r = ((s, r.0), λ e. absurd (cc e))
  put_first-Sent m out ms false (sent outs c) s same_text r =
      ((s, r.0), λ e. ap (λ (x : Bytes). x ∷ outs) (same_text refl) ∙ ap (m ∷◌) (r.1 e))

  rewrite-Filtered :
      (s : RewriteState) (m : Bytes)
      → settings s ≡ settings st
      → (handle_message codec m s).0.verdict ≡ msg_rewrite
      → Filtered codec st.policy (codec.decode_response m) (handle_message codec m s).0.out
  rewrite-Filtered s m e p =
      let policy : s.policy ≡ st.policy = ap (λ (q : Settings). q.policy) e in
      subst
        (λ (x : Option ToolPolicy).
          Filtered codec x (codec.decode_response m) (handle_message codec m s).0.out)
        policy (handle_message-Filtered codec m s p)

  -- A message that passes, where the strict request does not refuse it as invalid.
  pass-Kept :
      (s : RewriteState) (m : Bytes)
      → settings s ≡ settings st
      → (handle_message codec m s).0.verdict ≡ msg_pass
      → ((handle_message codec m s).0.invalid && (handle_message codec m s).1.strict) ≡ false
      → Kept codec st (codec.decode_response m)
  pass-Kept s m e p v =
      let before : s.strict ≡ st.strict = ap (λ (q : Settings). q.strict) e in
      let after : (handle_message codec m s).1.strict ≡ s.strict =
        ap (λ (q : Settings). q.strict) (handle_message-settings codec m s) in
      Kept-settings codec s st (codec.decode_response m) e (
        handle_message-Kept codec m s (before ∙ on) (
          p,
          elim (Bool-cases (handle_message codec m s).0.invalid) [
            | inr valid ↦ valid
            | inl invalid ↦ absurd (cc (rw (invalid, after, before, on) at v))
          ],
        ))

  process_batch-Sent :
      (ms : List Bytes) (s : RewriteState)
      → settings s ≡ settings st
      → BatchSent codec st ms (process_batch codec ms s).0
  unfolding process_batch
  process_batch-Sent [] s e = (tt, λ x. refl)
  process_batch-Sent (m ∷ ms) s e =
      go (handle_message codec m s).0.verdict refl
        (process_batch-Sent ms (handle_message codec m s).1 (handle_message-settings codec m s ∙ e))
    where
      go :
          (v : MsgVerdict)
          → (handle_message codec m s).0.verdict ≡ v
          → BatchSent codec st ms (process_batch codec ms (handle_message codec m s).1).0
          → BatchSent codec st (m ∷ ms) (process_batch codec (m ∷ ms) s).0
      go msg_block p r = rw (process_batch, p) tt
      go msg_rewrite p r =
          rw (process_batch, p)
            (put_first-Sent m _ ms true _ (inr (rewrite-Filtered s m e p)) (λ x. absurd (cc x)) r)
      go msg_pass p r =
          rw (process_batch, p)
            (elim (Bool-cases
              ((handle_message codec m s).0.invalid && (handle_message codec m s).1.strict)) [
                | inl x ↦ rw x tt
                | inr x ↦
                    rw x (
                      put_first-Sent m m ms false _ (inl (refl, pass-Kept s m e p x)) (λ y. refl) r)
              ])

  process_array-Sent :
      (body : Bytes) (o : Option (List Bytes))
      → codec.decode_array body ≡ o
      → BodySent codec st body (process_array codec o st).0
  unfolding process_array
  process_array-Sent body none e = rw on tt
  process_array-Sent body (some ms) e =
      go (process_batch codec ms st).0 (process_batch-Sent ms st refl)
    where
      go : (b : Batch) → BatchSent codec st ms b → BodySent codec st body (decide_batch codec b)
      go (stopped code reason) s = tt
      go (sent outs false) s = inr (inr (ms, e, rw (s.1 refl) at s.0))
      go (sent outs true) s = elim (Option-cases (codec.encode_array outs)) [
        | inl f ↦ rw (BodySent, f) tt
        | inr (text, f) ↦ rw (BodySent, f) (inr (ms, outs, e, f, s.0))
      ]

  process_single-Sent : (body : Bytes) → BodySent codec st body (process_single codec body st).0
  unfolding process_single
  process_single-Sent body = go (handle_message codec body st).0.verdict refl
    where
      go :
          (v : MsgVerdict)
          → (handle_message codec body st).0.verdict ≡ v
          → BodySent codec st body (process_single codec body st).0
      go msg_block p = rw (process_single, p) tt
      go msg_rewrite p = rw (process_single, p) (inl (rewrite-Filtered st body refl p))
      go msg_pass p =
          rw (process_single, p)
            (elim (Bool-cases (
              (handle_message codec body st).0.invalid
              && (handle_message codec body st).1.strict)) [
                | inl x ↦ rw x tt
                | inr x ↦ rw x (inr (inl (pass-Kept st body refl p x)))
              ])

  -- A JSON body that answers a strict request is refused, or is sent as it is, and then it is empty or
  -- each message of it, or of the batch that it is, is kept; or it is replaced, by the same message
  -- with the visible tools alone, or by the batch in which some messages are replaced so and all
  -- others are kept. A message is kept only if it goes to the scanner, or is vetted.
  pub process_trimmed-Sent :
      (body : Bytes) → BodySent codec st body (process_trimmed codec body st).0
  unfolding process_trimmed
  process_trimmed-Sent [] = inl refl
  process_trimmed-Sent (c ∷ body) = elim (Bool-cases (c == b'[')) [
    | inl e ↦
        rw (process_trimmed, e) (process_array-Sent (c ∷ body) (codec.decode_array (c ∷ body)) refl)
    | inr e ↦ rw (process_trimmed, e) (process_single-Sent (c ∷ body))
  ]
