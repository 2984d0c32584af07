-- ===== src/Tests/Walk.antt =====
-- The walk over a JSON text, with a decoder of nested brackets, and a line of the scanner.
use mcp_gateway_lite.Base.{
  is_nil, false, trim_space, ◌==◌, Bytes, List, [], ◌∷◌, Option, none, some, if◌then◌else◌,
  Bool-cases, inl, inr, subst, ◌≡◌, refl, arith,
}
use mcp_gateway_lite.Base.Int.{pos}
use mcp_gateway_lite.Codec.{Codec, PpReport}
use mcp_gateway_lite.PromptProof.{collect_strings, parse_report}
use mcp_gateway_lite.PromptProof.Categories.{Reported, parse_report-Reported}
use mcp_gateway_lite.PromptProof.Fuel.{Nests, Shorter, collect_strings-enough}
use mcp_gateway_lite.Tests.Toy.{toy}

-- A bracket holds what is behind it, and the letter x is a string.
abbrev nested_array : Bytes → Option (List Bytes)
nested_array [] = none
nested_array (c ∷ s) = if c == b'[' then some (s ∷ []) else none

abbrev letter : Bytes → Option Bytes
letter [] = none
letter (c ∷ s) = if c == b'x' then some (c ∷ []) else none

abbrev brackets : Codec
brackets = record toy {
  decode_string = letter;
  decode_array = nested_array;
  decode_object = λ s. none;
}

some-injective : {x y : List Bytes} → some x ≡ some y → x ≡ y
some-injective e = cc e

nested_array-Shorter :
    (raw : Bytes) (els : List Bytes) → nested_array raw ≡ some els → Shorter raw els
nested_array-Shorter [] els e = absurd (cc e)
nested_array-Shorter (c ∷ s) els e = elim (Bool-cases (c == b'[')) [
  | inl b ↦
      let same : (s ∷ []) ≡ els = some-injective (rw b at e) in
      subst (Shorter (c ∷ s)) same (omega arith, tt)
  | inr b ↦ absurd (cc (rw b at e))
]

brackets-Nests : Nests brackets
brackets-Nests = record {
  no_string = refl;
  no_array = refl;
  no_object = refl;
  array = nested_array-Shorter;
  object = λ raw m e. absurd (cc e);
}

abbrev text : Bytes
text = b'[' ∷ b'[' ∷ b'x' ∷ []

collect_strings-enough_example : collect_strings brackets 3 text ≡ collect_strings brackets 9 text
collect_strings-enough_example =
    collect_strings-enough brackets brackets-Nests 3 9 text (omega arith) (omega arith)

abbrev found : PpReport
found = record { verdict = []; score = pos 3; findings = (b'a' ∷ []) ∷ [] ∷ (b'a' ∷ []) ∷ [] }

abbrev finder : Codec
finder = record toy { decode_report = λ s. some found }

not_blank : is_nil (trim_space text) ≡ false
unfolding trim_space
not_blank = refl

parse_report-Reported_example : Reported (some found) (parse_report finder text)
parse_report-Reported_example = parse_report-Reported finder text not_blank
