-- ===== src/Config/Names.antt =====
-- The names of the upstreams of a configuration that gateway/config.go accepts.
use mcp_gateway_lite.Base.{
  ℕ, suc, Bool, true, false, not, Bytes, same, same_iff, same_refl, List, [], ◌∷◌, Option, none,
  some, is_nil, All, ◌≡◌, ◌≢◌, inl, inr, refl, sym, arith, Bool-cases,
}
use mcp_gateway_lite.Config.Types.{Upstream, Config}
use mcp_gateway_lite.PromptProof.{contains_string}
use mcp_gateway_lite.Config.{
  ParsedUrl, bad_name, duplicate_name, no_upstream, then_check, fail_if, matches_name, to_lower,
  check_upstream, check_upstreams, validate,
}

-- No two upstreams have names that differ in case alone.
abbrev pub DistinctNames : {F : Type 0} → List (Upstream F) → Type 0
DistinctNames [] = Unit
DistinctNames (u ∷ us) = All (λ v. to_lower v.name ≢ to_lower u.name) us × DistinctNames us

then_check-none : {E : Type 0} (o p : Option E) → then_check o p ≡ none → (o ≡ none) × (p ≡ none)
then_check-none none p e = (refl, e)
then_check-none (some x) p e = absurd (cc e)

fail_if-none : {E : Type 0} (b : Bool) (x : E) → fail_if b x ≡ none → b ≡ false
fail_if-none true x e = absurd (cc e)
fail_if-none false x e = refl

contains-head : (x : Bytes) (seen : List Bytes) → contains_string (x ∷ seen) x ≡ true
unfolding contains_string
contains-head x seen = rw (same_refl x) refl

contains-tail :
    (x y : Bytes) (seen : List Bytes)
    → contains_string (x ∷ seen) y ≡ false
    → (y ≢ x) × (contains_string seen y ≡ false)
unfolding contains_string
contains-tail x y seen e = elim (Bool-cases (same x y)) [
  | inl same_xy ↦ absurd (cc (rw same_xy at e))
  | inr other ↦ (λ yx. absurd (cc (other, (same_iff x y).1 (sym yx))), rw other at e)
]

module _ {F : Type 0} (not_positive : F → Bool) (parse : Bytes → Option ParsedUrl) where
  -- Names that match, are distinct, and are none of those seen before.
  record Fresh (seen : List Bytes) (us : List (Upstream F)) : Type 0 where
    matching : All (λ u. matches_name u.name ≡ true) us
    distinct : DistinctNames us
    unseen : All (λ u. contains_string seen (to_lower u.name) ≡ false) us

  upstreams-ne-nil : (us : List (Upstream F)) → fail_if (is_nil us) no_upstream ≡ none → us ≢ []
  upstreams-ne-nil [] e empty = absurd (cc e)
  upstreams-ne-nil (u ∷ us) e empty = absurd (cc empty)

  unseen-split :
      (key : Bytes) (seen : List Bytes) (us : List (Upstream F))
      → All (λ u. contains_string (key ∷ seen) (to_lower u.name) ≡ false) us
      → All (λ u. to_lower u.name ≢ key) us
        × All (λ u. contains_string seen (to_lower u.name) ≡ false) us
  unseen-split key seen [] a = (tt, tt)
  unseen-split key seen (u ∷ us) a =
      let (other, old) = contains-tail key (to_lower u.name) seen a.0 in
      let (rest_other, rest_old) = unseen-split key seen us a.1 in
      ((other, rest_other), (old, rest_old))

  check_upstreams-Fresh :
      (us : List (Upstream F)) (i : ℕ) (seen : List Bytes)
      → check_upstreams not_positive parse i seen us ≡ none
      → Fresh seen us
  unfolding check_upstreams
  check_upstreams-Fresh [] i seen e = record { matching = tt; distinct = tt; unseen = tt }
  check_upstreams-Fresh (u ∷ us) i seen e =
      let key = to_lower u.name in
      let (name_ok, e1) =
        then_check-none (fail_if (not (matches_name u.name)) (bad_name i u.name)) _ e in
      let (new_ok, e2) =
        then_check-none (fail_if (contains_string seen key) (duplicate_name u.name)) _ e1 in
      let (own_ok, rest_ok) = then_check-none (check_upstream not_positive parse u) _ e2 in
      let rest = check_upstreams-Fresh us (suc i) (key ∷ seen) rest_ok in
      let (other, old) = unseen-split key seen us rest.unseen in
      record {
        matching = (ground (arith, fail_if-none _ _ name_ok), rest.matching);
        distinct = (other, rest.distinct);
        unseen = (fail_if-none _ _ new_ok, old);
      }

  -- A configuration that is accepted has an upstream, each upstream's name has the form of a name, and
  -- no two names differ in case alone.
  pub validate-names :
      (c : Config F)
      → (validate not_positive parse c).0 ≡ none
      → (c.upstreams ≢ [])
        × All (λ u. matches_name u.name ≡ true) c.upstreams
        × DistinctNames c.upstreams
  unfolding validate
  validate-names c e =
      let (url_ok, e1) = then_check-none _ _ e in
      let (some_ok, e2) = then_check-none (fail_if (is_nil c.upstreams) no_upstream) _ e1 in
      let fresh = check_upstreams-Fresh c.upstreams 0 [] e2 in
      (upstreams-ne-nil c.upstreams some_ok, fresh.matching, fresh.distinct)
