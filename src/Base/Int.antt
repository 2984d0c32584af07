-- ===== src/Base/Int.antt =====
-- Go's `int` as a signed number: `negsuc n` is -(n + 1).
use mcp_gateway_lite.Base.Tests.{Bool-cases, leb, ltb, if◌then◌else◌}
use Prim.Native.Nat.{ℕ, ◌≤◌}
use mathlib.Core.Path.{◌≡◌, refl, ap}
use mathlib.Core.Logic.{inl, inr}
use native.Mathlib.Omega.{arith}
use mathlib.Core.Bool.{Bool, true, false}
use Prim.Native.Nat.{zero, suc, ◌+◌, ◌/◌, ◌%◌}
use mathlib.Core.List.{[], ◌∷◌, ◌++◌}
use mcp_gateway_lite.Base.Text.{Bytes}

pub data ℤ : Type 0 where
  pos : ℕ → ℤ
  negsuc : ℕ → ℤ

-- n < 0
abbrev pub is_negative : ℤ → Bool
is_negative (pos n) = false
is_negative (negsuc n) = true

-- n <= 0
abbrev pub is_non_positive : ℤ → Bool
is_non_positive (pos n) = leb n 0
is_non_positive (negsuc n) = true

-- The natural number that a positive int stands for.
abbrev pub to_ℕ : ℤ → ℕ
to_ℕ (pos n) = n
to_ℕ (negsuc n) = 0

-- The decimal digits of a number. The number itself is fuel enough.
unfoldable pub digits : ℕ → ℕ → Bytes
digits zero n = (48 + n % 10) ∷ []
digits (suc fuel) n =
    let front = digits fuel (n / 10) in
    if ltb n 10 then (48 + n) ∷ [] else front ++ (48 + n % 10) ∷ []

-- strconv.Itoa
unfoldable pub itoa : ℤ → Bytes
unfolding digits
itoa (pos n) = digits n n
itoa (negsuc n) = b'-' ∷ digits (suc n) (suc n)

-- Fuel of the number itself is enough.
pub digits-enough : (f g n : ℕ) → n ≤ f → n ≤ g → digits f n ≡ digits g n
unfolding digits
digits-enough zero zero n p q = refl
digits-enough zero (suc g) zero p q = refl
digits-enough zero (suc g) (suc n) p q = absurd (omega (arith, p))
digits-enough (suc f) zero zero p q = refl
digits-enough (suc f) zero (suc n) p q = absurd (omega (arith, q))
digits-enough (suc f) (suc g) n p q = elim (Bool-cases (ltb n 10)) [
  | inl e ↦ rw e refl
  | inr e ↦ rw e (
      ap (λ (front : Bytes). front ++ (48 + n % 10) ∷ [])
        (digits-enough f g (n / 10) (ground (arith, p, e)) (ground (arith, q, e))))
]
