-- ===== src/PromptProof/Fuel.antt =====
-- The walk of gateway/promptproof.go over a JSON text ends.
use mcp_gateway_lite.Base.{
  ℕ, zero, suc, ◌≤◌, ◌<◌, Bytes, List, [], ◌∷◌, ◌++◌, Option, none, some, length, All, ◌≡◌, inl,
  inr, refl, sym, ap, ◌∙◌, arith, Option-cases,
}
use mcp_gateway_lite.Base.Dict.{Dict}
use mcp_gateway_lite.Codec.{Codec}
use mcp_gateway_lite.PromptProof.{values, collect_each, elements_of, collect_strings}

abbrev pub Shorter : Bytes → List Bytes → Type 0
Shorter raw els = All (λ el. length el < length raw) els

-- What the walk relies on of the decoder: no text is empty, and the elements of an array and the
-- values of an object are shorter than its text.
pub record Nests (codec : Codec) : Type 0 where
  pub no_string : codec.decode_string [] ≡ none
  pub no_array : codec.decode_array [] ≡ none
  pub no_object : codec.decode_object [] ≡ none
  pub array : (raw : Bytes) (els : List Bytes) → codec.decode_array raw ≡ some els → Shorter raw els
  pub object :
      (raw : Bytes) (m : Dict Bytes)
      → codec.decode_object raw ≡ some (some m)
      → Shorter raw (values m)

collect_each-same :
    (f g : Bytes → List Bytes) (els : List Bytes)
    → All (λ el. f el ≡ g el) els
    → collect_each f els ≡ collect_each g els
unfolding collect_each
collect_each-same f g [] e = refl
collect_each-same f g (x ∷ els) e =
    ap (λ (a : List Bytes). a ++ collect_each f els) e.0
    ∙ ap (◌++◌ (g x)) (collect_each-same f g els e.1)

module _ (codec : Codec) (n : Nests codec) where
  elements-Shorter :
      (raw : Bytes) (o : Option (Option (Dict Bytes)))
      → codec.decode_object raw ≡ o
      → Shorter raw (elements_of o)
  unfolding elements_of
  elements-Shorter raw none e = tt
  elements-Shorter raw (some none) e = tt
  elements-Shorter raw (some (some m)) e = n.object raw m e

  -- Two amounts of fuel that do as well as each other on texts of some length.
  Agree : ℕ → ℕ → Bytes → Type 0
  Agree fuel more el = collect_strings codec fuel el ≡ collect_strings codec more el

  each-same :
      (fuel more : ℕ) (raw : Bytes)
      → length raw ≤ suc fuel
      → length raw ≤ suc more
      → ((el : Bytes) → length el ≤ fuel → length el ≤ more → Agree fuel more el)
      → (els : List Bytes) → Shorter raw els
      → collect_each (collect_strings codec fuel) els
        ≡ collect_each (collect_strings codec more) els
  unfolding Agree
  each-same fuel more raw p q h els s =
      collect_each-same (collect_strings codec fuel) (collect_strings codec more) els (each els s)
    where
      each : (els : List Bytes) → Shorter raw els → All (Agree fuel more) els
      each [] s = tt
      each (x ∷ els) s = (h x (omega (arith, p, s.0)) (omega (arith, q, s.0)), each els s.1)

  step-same :
      (fuel more : ℕ) (raw : Bytes)
      → ((els : List Bytes)
          → Shorter raw els
          → collect_each (collect_strings codec fuel) els
            ≡ collect_each (collect_strings codec more) els)
      → Agree (suc fuel) (suc more) raw
  unfolding Agree collect_strings
  step-same fuel more raw same = elim (Option-cases (codec.decode_string raw)) [
    | inr (s, e) ↦ rw (collect_strings, e) refl
    | inl e ↦ elim (Option-cases (codec.decode_array raw)) [
      | inr (els, f) ↦ rw (collect_strings, e, f) (same els (n.array raw els f))
      | inl f ↦
          rw (collect_strings, e, f)
            (same (elements_of (codec.decode_object raw))
              (elements-Shorter raw (codec.decode_object raw) refl))
    ]
  ]

  empty_text : (more : ℕ) → collect_strings codec more [] ≡ []
  unfolding collect_strings collect_each elements_of
  empty_text zero = refl
  empty_text (suc more) = rw (collect_strings, n.no_string, n.no_array, n.no_object) refl

  -- Fuel that is at least the length of the text is enough: more of it changes nothing. So the walk
  -- from the length of the text reaches every string of it, if the decoder nests texts in longer ones.
  pub collect_strings-enough :
      (fuel more : ℕ) (raw : Bytes)
      → length raw ≤ fuel
      → length raw ≤ more
      → collect_strings codec fuel raw ≡ collect_strings codec more raw
  unfolding Agree
  collect_strings-enough zero more [] p q = empty_text 0 ∙ sym (empty_text more)
  collect_strings-enough zero more (c ∷ raw) p q = absurd (omega (arith, p))
  collect_strings-enough (suc fuel) zero [] p q = empty_text (suc fuel) ∙ sym (empty_text 0)
  collect_strings-enough (suc fuel) zero (c ∷ raw) p q = absurd (omega (arith, q))
  collect_strings-enough (suc fuel) (suc more) raw p q =
      step-same fuel more raw
        (each-same fuel more raw p q (λ el r t. collect_strings-enough fuel more el r t))
