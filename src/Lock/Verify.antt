-- ===== src/Lock/Verify.antt =====
-- What the check of gateway/lock.go accepts.
use mcp_gateway_lite.Base.{
  true, false, Bytes, codes, same, same_iff, List, [], ◌∷◌, some, is_nil, All, ◌≡◌, ◌≢◌, ◌↔◌, inl,
  inr, refl, sym, ap, ◌∙◌, arith, Bool-cases, Option-cases,
}
use mcp_gateway_lite.Base.Dict.{Dict, lookup}
use mcp_gateway_lite.Codec.{Codec}
use mcp_gateway_lite.Lock.{
  Checked, ok, err, RawTool, PreparedLock, parse_lock_tool, add_tool, parse_lock_tools,
  tools_list_hash, check_failed, not_in_lock, schema_drifted, list_drifted, verify_tools,
  verify_detail, verify_whole, verify,
}

-- The tool parses, and the lock has its name with its hash.
abbrev pub Locked : Codec → Dict Bytes → Bytes → Type 0
Locked codec detail el =
    (t : RawTool) × (parse_lock_tool codec el ≡ ok t) × (lookup t.name detail ≡ some t.hash)

schema_drifted-ne-nil : (x : Bytes) → schema_drifted x ≢ []
unfolding schema_drifted codes
schema_drifted-ne-nil x e = ground arith

not_in_lock-ne-nil : (x : Bytes) → not_in_lock x ≢ []
unfolding not_in_lock codes
not_in_lock-ne-nil x e = ground arith

check_failed-ne-nil : (x : Bytes) → check_failed x ≢ []
unfolding check_failed codes
check_failed-ne-nil x e = ground arith

list_drifted-ne-nil : (x y : Bytes) → list_drifted x y ≢ []
unfolding list_drifted codes
list_drifted-ne-nil x y e = ground arith

abbrev pub Known : Dict Bytes → RawTool → Type 0
Known detail t = lookup t.name detail ≡ some t.hash

verify_tools-Known :
    (detail : Dict Bytes) (ts : List RawTool)
    → (verify_tools detail ts ≡ []) ↔ All (Known detail) ts
unfolding verify_tools
verify_tools-Known detail [] = (λ e. tt, λ k. refl)
verify_tools-Known detail (t ∷ ts) = elim (Option-cases (lookup t.name detail)) [
  | inl missing ↦ ground (arith, missing, not_in_lock-ne-nil t.name)
  | inr (h, found) ↦
      ground (
        arith,
        found,
        same_iff h t.hash,
        schema_drifted-ne-nil t.name,
        verify_tools-Known detail ts,
      )
]

err-ne-ok : {x : Bytes} {t : RawTool} → Path (Checked RawTool) (err x) (ok t) → ⊥
err-ne-ok e = cc e

ok-injective {ℓ} : {A : Type ℓ} {s t : A} → Path (Checked A) (ok s) (ok t) → t ≡ s
ok-injective e = cc e

-- What a parsed list says of its elements.
abbrev pub Parsed : Codec → Dict Bytes → List Bytes → Checked (List RawTool) → Type 0
Parsed codec detail els (err e) = ¬ All (Locked codec detail) els
Parsed codec detail els (ok ts) = All (Known detail) ts ↔ All (Locked codec detail) els

pub parse_lock_tools-Parsed :
    (codec : Codec) (detail : Dict Bytes) (els : List Bytes)
    → Parsed codec detail els (parse_lock_tools codec els)
unfolding parse_lock_tools
parse_lock_tools-Parsed codec detail [] = (λ k. tt, λ k. tt)
parse_lock_tools-Parsed codec detail (el ∷ els) =
    go (parse_lock_tool codec el) (parse_lock_tools codec els) refl
      (parse_lock_tools-Parsed codec detail els)
  where
    go :
        (c : Checked RawTool) (rest : Checked (List RawTool))
        → parse_lock_tool codec el ≡ c
        → Parsed codec detail els rest
        → Parsed codec detail (el ∷ els) (add_tool c rest)
    go (err x) rest e p = λ locked. absurd (err-ne-ok (sym e ∙ locked.0.1))
    go (ok t) (err x) e p = λ locked. p locked.1
    go (ok t) (ok ts) e p = (
      λ k. ((t, e, k.0), p.0 k.1),
      λ locked. (rw (← ok-injective (sym e ∙ locked.0.1)) locked.0.2, p.1 locked.1),
    )

verify_detail-Locked :
    (codec : Codec) (detail : Dict Bytes) (els : List Bytes) (c : Checked (List RawTool))
    → Parsed codec detail els c
    → (verify_detail detail c ≡ []) ↔ All (Locked codec detail) els
verify_detail-Locked codec detail els (err x) p =
    (λ k. absurd (check_failed-ne-nil x k), λ locked. absurd (p locked))
verify_detail-Locked codec detail els (ok ts) p =
    let known = verify_tools-Known detail ts in
    (λ k. p.0 (known.0 k), λ locked. known.1 (p.1 locked))

-- A lock with an entry per tool finds no drift in a list exactly if every tool of the list parses
-- and the entry under its name holds its hash.
pub verify-Locked :
    (codec : Codec) (l : PreparedLock) (els : List Bytes)
    → is_nil l.detail ≡ false
    → (verify codec l els ≡ []) ↔ All (Locked codec l.detail) els
unfolding verify
verify-Locked codec l els e = rw e (
    verify_detail-Locked codec l.detail els (parse_lock_tools codec els)
      (parse_lock_tools-Parsed codec l.detail els))

verify_whole-ok :
    (locked : Bytes) (c : Checked Bytes) → (verify_whole locked c ≡ []) ↔ (c ≡ ok locked)
verify_whole-ok locked (err x) = (λ k. absurd (check_failed-ne-nil x k), λ k. absurd (cc k))
verify_whole-ok locked (ok h) = elim (Bool-cases (same h locked)) [
  | inl e ↦ rw e (λ k. ap ok ((same_iff h locked).0 e), λ k. refl)
  | inr e ↦ rw e (
    λ k. absurd (list_drifted-ne-nil locked h k),
    λ k. absurd (cc (e, (same_iff h locked).1 (sym (ok-injective k)))),
  )
]

-- A lock with one hash finds no drift in a list exactly if the hash of the list is the lock's.
verify-whole_hash :
    (codec : Codec) (l : PreparedLock) (els : List Bytes)
    → is_nil l.detail ≡ true
    → (verify codec l els ≡ []) ↔ (tools_list_hash codec els ≡ ok l.whole_hash)
unfolding verify
verify-whole_hash codec l els e = rw e (verify_whole-ok l.whole_hash (tools_list_hash codec els))
