-- ===== src/PromptProof/Categories.antt =====
-- The categories of a report, by parseReport of gateway/promptproof.go.
use mcp_gateway_lite.Base.{
  true, false, not, ◌&&◌, ◌||◌, Bytes, same, same_iff, trim_space, List, [], ◌∷◌, ◌++◌, Option,
  none, some, is_nil, ◌≡◌, ◌↔◌, ◌⊎◌, inl, inr, refl, sym, ap, arith, Bool-cases, Option-cases,
}
use mcp_gateway_lite.Codec.{Codec, PpReport}
use mcp_gateway_lite.PromptProof.{
  ScanReply, report, scan_error, contains_string, add_categories, parse_report,
}

-- No string stands twice in the list.
abbrev pub Once : List Bytes → Type 0
Once [] = Unit
Once (x ∷ xs) = (contains_string xs x ≡ false) × Once xs

contains-snoc :
    (xs : List Bytes) (x y : Bytes)
    → contains_string (xs ++ x ∷ []) y ≡ (contains_string xs y || same x y)
unfolding contains_string
contains-snoc [] x y = ground arith
contains-snoc (z ∷ xs) x y = ground (arith, contains-snoc xs x y)

Once-snoc :
    (xs : List Bytes) (x : Bytes) → Once xs → contains_string xs x ≡ false → Once (xs ++ x ∷ [])
unfolding contains_string
Once-snoc [] x o e = (refl, tt)
Once-snoc (z ∷ xs) x o e = (
  ground (arith, contains-snoc xs x z, o.0, e, same_iff x z, same_iff z x),
  Once-snoc xs x o.1 (ground (arith, e)),
)

-- What the loop holds in the end: each string once, and exactly those seen before and those that are
-- not empty.
record Gathered (seen cs out : List Bytes) : Type 0 where
  once : Once out
  exact :
      (x : Bytes)
      → (contains_string out x ≡ true)
        ↔ (contains_string seen x ≡ true) ⊎ ((is_nil x ≡ false) × (contains_string cs x ≡ true))

same-is_nil : (c x : Bytes) → same c x ≡ true → is_nil x ≡ is_nil c
same-is_nil c x e = ap is_nil (sym ((same_iff c x).0 e))

same-contains :
    (l : List Bytes) (c x : Bytes) → same c x ≡ true → contains_string l x ≡ contains_string l c
same-contains l c x e = ap (contains_string l) (sym ((same_iff c x).0 e))

add_categories-Gathered :
    (cs seen : List Bytes) → Once seen → Gathered seen cs (add_categories seen cs)
unfolding add_categories contains_string
add_categories-Gathered [] seen o = record {
  once = o;
  exact = λ x. (λ e. inl e, λ e. ground arith);
}
add_categories-Gathered (c ∷ cs) seen o =
    elim (Bool-cases (not (is_nil c) && not (contains_string seen c))) [
      | inl new ↦
          let g =
            add_categories-Gathered cs (seen ++ c ∷ [])
              (Once-snoc seen c o (ground (arith, new))) in
          rw (add_categories, new)
            (record {
              once = g.once;
              exact = λ x. ground (arith, new, g.exact x, contains-snoc seen c x, same-is_nil c x);
            })
      | inr old ↦
          let g = add_categories-Gathered cs seen o in
          rw (add_categories, old)
            (record {
              once = g.once;
              exact = λ x. ground (arith, old, g.exact x, same-is_nil c x, same-contains seen c x);
            })
    ]

-- What a line gives: an error, or a result with the verdict and the score of the decoded report and
-- its categories.
abbrev pub Reported : Option PpReport → ScanReply → Type 0
Reported none (scan_error e) = Unit
Reported none (report res) = ⊥
Reported (some rep) (scan_error e) = ⊥
Reported (some rep) (report res) =
    (res.verdict ≡ rep.verdict)
    × (res.score ≡ rep.score)
    × Once res.categories
    × ((x : Bytes)
        → (contains_string res.categories x ≡ true)
          ↔ ((is_nil x ≡ false) × (contains_string rep.findings x ≡ true)))

-- A line that is not blank gives a result exactly if it decodes, with the report's verdict and score; its
-- categories are the report's that are not empty, each once.
pub parse_report-Reported :
    (codec : Codec) (raw : Bytes)
    → is_nil (trim_space raw) ≡ false
    → Reported (codec.decode_report (trim_space raw)) (parse_report codec raw)
unfolding parse_report contains_string
parse_report-Reported codec raw e = elim (Option-cases (codec.decode_report (trim_space raw))) [
  | inl bad ↦ rw (parse_report, e, bad) tt
  | inr (rep, good) ↦
      let g = add_categories-Gathered rep.findings [] tt in
      rw (parse_report, e, good) (refl, refl, g.once, λ x. ground (arith, g.exact x))
]
