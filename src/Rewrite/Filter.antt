-- ===== src/Rewrite/Filter.antt =====
-- The loop of gateway/responsefilter.go over the tools of a listing, against a filter.
use mcp_gateway_lite.Base.{
  ℕ, suc, ◌+◌, ◌≤◌, Bool, true, false, Bytes, List, [], ◌∷◌, Option, none, some, length,
  if◌then◌else◌, All, ◌≡◌, ◌≢◌, inl, inr, sym, ap, ◌∙◌, arith, Bool-cases, Option-cases,
}
use mcp_gateway_lite.Codec.{Codec}
use mcp_gateway_lite.Policy.{ToolPolicy, allows}
use mcp_gateway_lite.Rewrite.{element_name, filter_tools, keep_tool, drop_tool}

-- Whether a client may see an element that shows this name, or none.
unfoldable pub visible_name : Option ToolPolicy → Option Bytes → Bool
visible_name policy none = true
visible_name policy (some name) = allows policy name

abbrev pub visible : Codec → Option ToolPolicy → Bytes → Bool
visible codec policy el = visible_name policy (element_name codec el)

unfoldable pub select : (Bytes → Bool) → List Bytes → List Bytes
select f [] = []
select f (x ∷ xs) = if f x then x ∷ select f xs else select f xs

-- What the loop has kept and counted, for the tools `els`.
pub record Filtered (codec : Codec) (strict : Bool) (policy : Option ToolPolicy)
    (els kept : List Bytes) (removed : ℕ) : Type 0 where
  pub selected : kept ≡ select (visible codec policy) els
  pub counted : length kept + removed ≡ length els
  pub named : strict ≡ true → All (λ el. element_name codec el ≢ none) els

module _ (codec : Codec) (strict : Bool) (policy : Option ToolPolicy) where
  keep_tool-inv :
      (el : Bytes) (o : Option (List Bytes × ℕ)) (kept : List Bytes) (removed : ℕ)
      → keep_tool el o ≡ some (kept, removed)
      → (rest : List Bytes) × (o ≡ some (rest, removed)) × (kept ≡ el ∷ rest)
  keep_tool-inv el none kept removed e = cc
  keep_tool-inv el (some (rest, n)) kept removed e = (rest, ground arith, ground arith)

  drop_tool-inv :
      (o : Option (List Bytes × ℕ)) (kept : List Bytes) (removed : ℕ)
      → drop_tool o ≡ some (kept, removed)
      → (n : ℕ) × (o ≡ some (kept, n)) × (removed ≡ suc n)
  drop_tool-inv none kept removed e = cc
  drop_tool-inv (some (rest, n)) kept removed e = (n, ground arith, ground arith)

  kept-Filtered :
      (el : Bytes) (els rest : List Bytes) (removed : ℕ)
      → visible codec policy el ≡ true
      → (strict ≡ true → element_name codec el ≢ none)
      → Filtered codec strict policy els rest removed
      → Filtered codec strict policy (el ∷ els) (el ∷ rest) removed
  unfolding select
  kept-Filtered el els rest removed seen named f = record {
    selected = rw seen (ap (◌∷◌ el) f.selected);
    counted = omega (arith, f.counted);
    named = λ h. (named h, f.named h);
  }

  dropped-Filtered :
      (el : Bytes) (els rest : List Bytes) (removed : ℕ)
      → visible codec policy el ≡ false
      → (strict ≡ true → element_name codec el ≢ none)
      → Filtered codec strict policy els rest removed
      → Filtered codec strict policy (el ∷ els) rest (suc removed)
  unfolding select
  dropped-Filtered el els rest removed hidden named f = record {
    selected = rw hidden f.selected;
    counted = omega (arith, f.counted);
    named = λ h. (named h, f.named h);
  }

  step-kept :
      (el : Bytes) (els : List Bytes)
      → visible codec policy el ≡ true
      → (strict ≡ true → element_name codec el ≢ none)
      → filter_tools codec strict policy (el ∷ els)
        ≡ keep_tool el (filter_tools codec strict policy els)
  unfolding filter_tools visible_name
  step-kept el els seen named = elim (Option-cases (element_name codec el)) [
    | inl nameless ↦ elim (Bool-cases strict) [
      | inl on ↦ absurd (named on nameless)
      | inr lax ↦ rw (nameless, lax, filter_tools)
    ]
    | inr (name, shown) ↦ ground arith
  ]

  step-dropped :
      (el : Bytes) (els : List Bytes)
      → visible codec policy el ≡ false
      → filter_tools codec strict policy (el ∷ els)
        ≡ drop_tool (filter_tools codec strict policy els)
  unfolding filter_tools visible_name
  step-dropped el els hidden = elim (Option-cases (element_name codec el)) [
    | inl nameless ↦ absurd (ground arith)
    | inr (name, shown) ↦ ground arith
  ]

  step-refused :
      (el : Bytes) (els : List Bytes)
      → strict ≡ true
      → element_name codec el ≡ none
      → filter_tools codec strict policy (el ∷ els) ≡ none
  unfolding filter_tools
  step-refused el els on nameless = rw (nameless, on, filter_tools)

  -- In strict mode an element without a name ends the loop.
  named_or_refused :
      (el : Bytes) (els : List Bytes)
      → (filter_tools codec strict policy (el ∷ els) ≢ none)
      → strict ≡ true
      → element_name codec el ≢ none
  named_or_refused el els some_result on nameless = some_result (step-refused el els on nameless)

  some-ne-none : {x : List Bytes × ℕ} {o : Option (List Bytes × ℕ)} → o ≡ some x → o ≢ none
  some-ne-none e n = cc

  -- The loop keeps the elements that the policy lets a client see, in their order, and counts the
  -- others; in strict mode, every element shows a name where the loop comes to its end.
  pub filter_tools-Filtered :
      (els kept : List Bytes) (removed : ℕ)
      → filter_tools codec strict policy els ≡ some (kept, removed)
      → Filtered codec strict policy els kept removed
  filter_tools-Filtered [] kept removed e =
      unfold filter_tools select in
      record { selected = ground arith; counted = ground arith; named = λ h. tt }
  filter_tools-Filtered (el ∷ els) kept removed e =
      let named = named_or_refused el els (some-ne-none e) in
      elim (Bool-cases (visible codec policy el)) [
        | inl seen ↦
            let (rest, inner, eq) =
              keep_tool-inv el (filter_tools codec strict policy els) kept removed
                (sym (step-kept el els seen named) ∙ e) in
            rw eq (
              kept-Filtered el els rest removed seen named
                (filter_tools-Filtered els rest removed inner))
        | inr hidden ↦
            let (n, inner, eq) =
              drop_tool-inv (filter_tools codec strict policy els) kept removed
                (sym (step-dropped el els hidden) ∙ e) in
            rw eq
              (dropped-Filtered el els kept n hidden named (filter_tools-Filtered els kept n inner))
      ]

length-select-le : (f : Bytes → Bool) (els : List Bytes) → length (select f els) ≤ length els
unfolding select
length-select-le f [] = omega arith
length-select-le f (el ∷ els) = ground (arith, length-select-le f els)

-- What nothing is dropped from is selected as a whole.
pub select_everything :
    (f : Bytes → Bool) (els : List Bytes)
    → length (select f els) ≡ length els
    → All (λ el. f el ≡ true) els
unfolding select
select_everything f [] e = tt
select_everything f (el ∷ els) e = elim (Bool-cases (f el)) [
  | inl seen ↦ (seen, select_everything f els (ground arith))
  | inr hidden ↦ absurd (ground (arith, length-select-le f els))
]
