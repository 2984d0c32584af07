-- ===== src/Base/Text.antt =====
-- Go's strings and byte slices: lists of byte values, with the tests of the packages `bytes` and
-- `strings` that the program uses.
use Prim.Native.Nat.{ℕ, zero, suc}
use Prim.Native.Char.{code}
use Prim.Native.String.{String}
use mathlib.Core.Path.{◌≡◌, refl}
use mathlib.Core.Logic.{◌↔◌}
use mathlib.Core.Bool.{Bool, true, false, ◌&&◌, ◌||◌}
use mathlib.Core.Option.{Option, none, some}
use mathlib.Core.List.{List, [], ◌∷◌, ◌++◌, reverse}
use native.Mathlib.Omega.{arith}
use mcp_gateway_lite.Base.Tests.{◌==◌, leb, if◌then◌else◌}

abbrev pub Bytes : Type 0
Bytes = List ℕ

-- The bytes of a literal; every literal of the program is ASCII.
unfoldable pub codes : String → Bytes
codes String.[] = []
codes (String.◌∷◌ c s) = code c ∷ codes s

-- Equality of strings.
unfoldable pub same : Bytes → Bytes → Bool
same [] [] = true
same (x ∷ a) (y ∷ b) = x == y && same a b
same _ _ = false

pub same_iff : (a b : Bytes) → (same a b ≡ true) ↔ (a ≡ b)
unfolding same
same_iff (x ∷ a) (y ∷ b) = ground (arith, same_iff a b)
same_iff _ _ = ground arith

pub same_refl : (a : Bytes) → same a a ≡ true
same_refl a = (same_iff a a).1 refl

-- strings.TrimPrefix, bytes.HasPrefix and the rest behind a prefix
unfoldable pub strip_prefix : Bytes → Bytes → Option Bytes
strip_prefix [] s = some s
strip_prefix (x ∷ p) [] = none
strip_prefix (x ∷ p) (y ∷ s) = if x == y then strip_prefix p s else none

unfoldable pub has_prefix : Bytes → Bytes → Bool
unfolding strip_prefix
has_prefix p s = elim (strip_prefix p s) [ none ↦ false | some r ↦ true ]

unfoldable pub trim_prefix : Bytes → Bytes → Bytes
unfolding strip_prefix
trim_prefix p s = elim (strip_prefix p s) [ none ↦ s | some r ↦ r ]

pub strip_prefix-append : (p s : Bytes) → strip_prefix p (p ++ s) ≡ some s
unfolding strip_prefix
strip_prefix-append [] s = refl
strip_prefix-append (x ∷ p) s = ground (arith, strip_prefix-append p s)

-- strings.TrimSuffix for a suffix of one byte
unfoldable pub trim_last : ℕ → Bytes → Bytes
trim_last c [] = []
trim_last c (x ∷ []) = if x == c then [] else x ∷ []
trim_last c (x ∷ y ∷ s) = x ∷ trim_last c (y ∷ s)

-- White space of bytes.TrimSpace: in ASCII, and the UTF-8 of U+0085, U+00A0, U+1680, U+2000 to U+200A,
-- U+2028, U+2029, U+202F, U+205F and U+3000.
unfoldable pub is_space : ℕ → Bool
is_space c = c == 9 || c == 10 || c == 11 || c == 12 || c == 13 || c == 32

unfoldable pub is_space2 : ℕ → ℕ → Bool
is_space2 c d = c == 194 && (d == 133 || d == 160)

unfoldable pub is_space3 : ℕ → ℕ → ℕ → Bool
is_space3 c d e =
    (c == 225 && d == 154 && e == 128)
    || (c == 226 && d == 128 && ((leb 128 e && leb e 138) || e == 168 || e == 169 || e == 175))
    || (c == 226 && d == 129 && e == 159)
    || (c == 227 && d == 128 && e == 128)

-- The number of bytes of the white space that two or three bytes begin with, at the front of a text or,
-- in reverse order, at its back.
unfoldable pub wide_space : Bool → ℕ → ℕ → Option ℕ → ℕ
unfolding is_space2 is_space3
wide_space back c d none = if (if back then is_space2 d c else is_space2 c d) then 2 else 0
wide_space back c d (some e) =
    if (if back then is_space2 d c else is_space2 c d)
    then 2
    else if (if back then is_space3 e d c else is_space3 c d e)
    then 3
    else 0

abbrev head_of : Bytes → Option ℕ
head_of [] = none
head_of (c ∷ s) = some c

-- Drops what stands before the first byte that is kept: `n` bytes, then white space.
unfoldable pub trim_ahead : Bool → ℕ → Bytes → Bytes
unfolding is_space wide_space
trim_ahead back n [] = []
trim_ahead back (suc n) (c ∷ s) = trim_ahead back n s
trim_ahead back zero (c ∷ []) = if is_space c then [] else c ∷ []
trim_ahead back zero (c ∷ d ∷ s) = elim (is_space c) [
  | true ↦ trim_ahead back zero (d ∷ s)
  | false ↦ elim (wide_space back c d (head_of s)) [
    | zero ↦ c ∷ d ∷ s
    | suc n ↦ trim_ahead back n (d ∷ s)
  ]
]

unfoldable pub trim_space : Bytes → Bytes
unfolding trim_ahead
trim_space s = reverse (trim_ahead true 0 (reverse (trim_ahead false 0 s)))

-- strings.Join with a separator of one byte
unfoldable pub join : ℕ → List Bytes → Bytes
join c [] = []
join c (x ∷ []) = x
join c (x ∷ y ∷ xs) = x ++ (c ∷ join c (y ∷ xs))

-- The concatenation of a list of slices.
unfoldable pub concat : List Bytes → Bytes
concat [] = []
concat (x ∷ xs) = x ++ concat xs
