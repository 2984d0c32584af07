-- ===== src/Lock/Recorded.antt =====
-- What gateway/lockinit.go has captured passes the check of gateway/lock.go.
use mcp_gateway_lite.Base.{
  false, Bytes, same, same_iff, same_refl, List, [], ◌∷◌, none, some, is_nil, All, ◌≡◌, ◌⊎◌, inl,
  inr, refl, sym, subst, ◌∙◌, Bool-cases, Option-cases,
}
use mcp_gateway_lite.Base.Dict.{Dict, lookup, insert, lookup-insert}
use mcp_gateway_lite.Codec.{Codec}
use mcp_gateway_lite.Lock.{
  Checked, ok, err, RawTool, PreparedLock, parse_lock_tools, tools_list_hash, verify,
}
use mcp_gateway_lite.Lock.Prepare.{LockServer}
use mcp_gateway_lite.Lock.Capture.{
  add_details, capture_hash, capture_details, capture_tools, capture,
}
use mcp_gateway_lite.Lock.Verify.{Locked, Known, Parsed, parse_lock_tools-Parsed, verify-Locked}

-- What holds of a result that is no error.
abbrev pub Holds : {A : Type 0} → (A → Type 0) → Checked A → Type 0
Holds P (ok a) = P a
Holds P (err e) = Unit

Holds-map :
    {A : Type 0} {P Q : A → Type 0} (x : Checked A) → ((a : A) → P a → Q a) → Holds P x → Holds Q x
Holds-map (ok a) h p = h a p
Holds-map (err e) h p = tt

-- The entries of the table are kept.
abbrev Extends : Dict Bytes → Dict Bytes → Type 0
Extends d e = (k h : Bytes) → lookup k d ≡ some h → lookup k e ≡ some h

abbrev Recorded : List RawTool → Dict Bytes → Dict Bytes → Type 0
Recorded ts d e = All (Known e) ts × Extends d e

Recorded-step :
    (t : RawTool) (ts : List RawTool) (d e : Dict Bytes)
    → lookup t.name d ≡ none
    → Recorded ts (insert t.name t.hash d) e
    → Recorded (t ∷ ts) d e
Recorded-step t ts d e new (known, kept) = (
  (kept t.name t.hash (lookup-insert t.name t.name t.hash d ∙ rw (same_refl t.name) refl), known),
  λ k h found. elim (Bool-cases (same t.name k)) [
    | inl x ↦ absurd (cc (new, found, (same_iff t.name k).0 x))
    | inr x ↦ kept k h (lookup-insert t.name k t.hash d ∙ rw x found)
  ],
)

add_details-Recorded :
    (codec : Codec) (ts : List RawTool) (d : Dict Bytes)
    → Holds (Recorded ts d) (add_details codec ts d)
unfolding add_details
add_details-Recorded codec [] d = (tt, λ k h found. found)
add_details-Recorded codec (t ∷ ts) d = elim (Bool-cases (is_nil t.name)) [
  | inl e ↦ rw (add_details, e) tt
  | inr e ↦ elim (Option-cases (lookup t.name d)) [
    | inr (h, f) ↦ rw (add_details, e, f) tt
    | inl f ↦
        rw (add_details, e, f)
          (Holds-map (add_details codec ts (insert t.name t.hash d))
            (λ x r. Recorded-step t ts d x f r)
            (add_details-Recorded codec ts (insert t.name t.hash d)))
  ]
]

-- The tools are locked by the record.
abbrev pub Captured : Codec → List Bytes → LockServer → Type 0
Captured codec els rec = All (Locked codec rec.tools_detail) els

capture_hash-Captured :
    (codec : Codec) (els : List Bytes) (detail : Dict Bytes) (c : Checked Bytes)
    → All (Locked codec detail) els
    → Holds (Captured codec els) (capture_hash detail c)
capture_hash-Captured codec els detail (err e) l = tt
capture_hash-Captured codec els detail (ok h) l = l

capture_details-Captured :
    (codec : Codec) (els : List Bytes) (c : Checked (Dict Bytes))
    → Holds (λ d. All (Locked codec d) els) c
    → Holds (Captured codec els) (capture_details codec els c)
capture_details-Captured codec els (err e) l = tt
capture_details-Captured codec els (ok detail) l =
    capture_hash-Captured codec els detail (tools_list_hash codec els) l

capture_tools-Captured :
    (codec : Codec) (els : List Bytes) (c : Checked (List RawTool))
    → ((detail : Dict Bytes) → Parsed codec detail els c)
    → Holds (Captured codec els) (capture_tools codec els c)
capture_tools-Captured codec els (err e) p = tt
capture_tools-Captured codec els (ok ts) p =
    capture_details-Captured codec els (add_details codec ts [])
      (Holds-map (add_details codec ts []) (λ d r. (p d).0 r.0) (add_details-Recorded codec ts []))

pub capture-Captured :
    (codec : Codec) (els : List Bytes) → Holds (Captured codec els) (capture codec els)
unfolding capture
capture-Captured codec els =
    capture_tools-Captured codec els (parse_lock_tools codec els)
      (λ detail. parse_lock_tools-Parsed codec detail els)

-- `el` is one of the elements.
abbrev pub Member : {A : Type 0} → A → List A → Type 0
Member el [] = ⊥
Member el (x ∷ els) = (el ≡ x) ⊎ Member el els

-- Every element of the page is one of the listing.
abbrev pub PageOf : List Bytes → List Bytes → Type 0
PageOf els page = All (λ el. Member el els) page

pub All-Member :
    {A : Type 0} (P : A → Type 0) (el : A) (els : List A) → All P els → Member el els → P el
All-Member P el [] a i = absurd i
All-Member P el (x ∷ els) a (inl e) = subst P (sym e) a.0
All-Member P el (x ∷ els) a (inr i) = All-Member P el els a.1 i

pub page-Locked :
    (codec : Codec) (detail : Dict Bytes) (els page : List Bytes)
    → All (Locked codec detail) els
    → PageOf els page
    → All (Locked codec detail) page
page-Locked codec detail els [] l p = tt
page-Locked codec detail els (el ∷ page) l p =
    (All-Member (Locked codec detail) el els l p.0, page-Locked codec detail els page l p.1)

-- A lock with the per-tool record that lock-init has captured of a listing finds no drift in any page of
-- that listing: in any tools of it, in any order and any number, repeated or left out.
verify-capture :
    (codec : Codec) (els page : List Bytes) (rec : LockServer) (l : PreparedLock)
    → capture codec els ≡ ok rec
    → l.detail ≡ rec.tools_detail
    → is_nil l.detail ≡ false
    → PageOf els page
    → verify codec l page ≡ []
verify-capture codec els page rec l captured same_detail some_detail p =
    let all_locked = subst (Holds (Captured codec els)) captured (capture-Captured codec els) in
    (verify-Locked codec l page some_detail).1 (
      subst (λ (d : Dict Bytes). All (Locked codec d) page) (sym same_detail)
        (page-Locked codec rec.tools_detail els page all_locked p))
