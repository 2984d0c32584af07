-- ===== src/Rewrite/Guarded/Kept.antt =====
-- Messages that reach the client of a strict request as they are, by gateway/responsefilter.go, and
-- what other messages of the response leave true of them.
use mcp_gateway_lite.Base.{true, Bytes, List, Option, none, some, ◌≡◌, inl, inr, ap, ◌⊎◌}
use mcp_gateway_lite.Codec.{Codec, RpcResponseProbe}
use mcp_gateway_lite.Rewrite.{RewriteState, has_id, has_scan_id, has_scanned_id, handle_message}
use mcp_gateway_lite.Rewrite.Strict.{Vetted, Cleared, Passes, examine-Vetted}
use mcp_gateway_lite.Rewrite.Settings.{settings, Settings, handle_message-Examined}

-- The message goes to the scanner, or is vetted.
abbrev pub Kept : Codec → RewriteState → Option RpcResponseProbe → Type 0
Kept codec st o = (has_scanned_id o st ≡ true) ⊎ Vetted codec st o

module _ (codec : Codec) where
  Cleared-settings :
      (s st : RewriteState) (els : List Bytes)
      → settings s ≡ settings st
      → Cleared codec s els
      → Cleared codec st els
  Cleared-settings s st els e c =
      let policy : s.policy ≡ st.policy = ap (λ (q : Settings). q.policy) e in
      let lock : s.lock ≡ st.lock = ap (λ (q : Settings). q.lock) e in
      record { seen = rw policy at c.seen; named = c.named; undrifted = rw lock at c.undrifted }

  pub Vetted-settings :
      (s st : RewriteState) (o : Option RpcResponseProbe)
      → settings s ≡ settings st
      → Vetted codec s o
      → Vetted codec st o
  unfolding has_id
  Vetted-settings s st none e v = absurd v
  Vetted-settings s st (some probe) e v =
      let ids : s.ids ≡ st.ids = ap (λ (q : Settings). q.ids) e in
      elim v [
        | inl a ↦ inl a
        | inr (inl b) ↦ inr (inl (rw ids at b))
        | inr (inr (inl c)) ↦ inr (inr (inl c))
        | inr (inr (inr (result, els, l, c))) ↦
            inr (inr (inr (result, els, l, Cleared-settings s st els e c)))
      ]

  pub scanned-settings :
      (s st : RewriteState) (o : Option RpcResponseProbe)
      → settings s ≡ settings st
      → has_scanned_id o s ≡ true
      → has_scanned_id o st ≡ true
  unfolding has_scan_id
  scanned-settings s st none e v = absurd (cc v)
  scanned-settings s st (some probe) e v =
      let ids : s.scan_ids ≡ st.scan_ids = ap (λ (q : Settings). q.scan_ids) e in rw ids at v

  pub Kept-settings :
      (s st : RewriteState) (o : Option RpcResponseProbe)
      → settings s ≡ settings st
      → Kept codec s o
      → Kept codec st o
  Kept-settings s st o e (inl a) = inl (scanned-settings s st o e a)
  Kept-settings s st o e (inr b) = inr (Vetted-settings s st o e b)

  -- A message that passes and is not marked as invalid is kept.
  pub handle_message-Kept :
      (m : Bytes) (st : RewriteState)
      → st.strict ≡ true
      → Passes (handle_message codec m st).0
      → Kept codec st (codec.decode_response m)
  handle_message-Kept m st on p = elim (handle_message-Examined codec m st) [
    | inl e ↦ inr (examine-Vetted codec st on m (rw e at p))
    | inr (sc, e, f, g) ↦ inl f
  ]
