-- ===== src/PromptProof/Pool/Counts.antt =====
-- Sums over lists, and what a call of Scan in gateway/promptproof.go holds.
use mcp_gateway_lite.Base.{ℕ, ◌+◌, ◌*◌, Bool, true, ◌≡◌, List, [], ◌∷◌, ◌++◌, All, arith}
use mcp_gateway_lite.PromptProof.Process.{Proc}
use mcp_gateway_lite.PromptProof.Accounts.{owned}
use mcp_gateway_lite.PromptProof.Pool.{
  Scanning, waiting, holding, replied, ending, returning, finished, Shared,
}

abbrev pub sum {ℓ} : {A : Type ℓ} → (A → ℕ) → List A → ℕ
sum f [] = 0
sum f (x ∷ xs) = f x + sum f xs

pub sum-append {ℓ} :
    {A : Type ℓ} (f : A → ℕ) (xs ys : List A) → sum f (xs ++ ys) ≡ sum f xs + sum f ys
sum-append f [] ys = omega arith
sum-append f (x ∷ xs) ys = omega (arith, sum-append f xs ys)

-- What `All` says of the middle of a list.
pub All-middle {ℓ κ} :
    {A : Type ℓ} (P : A → Type κ) (xs : List A) (y : A) (ys : List A) → All P (xs ++ y ∷ ys) → P y
All-middle P [] y ys a = a.0
All-middle P (x ∷ xs) y ys a = All-middle P xs y ys a.1

-- A list keeps `All` where its middle is replaced.
pub All-replace {ℓ κ} :
    {A : Type ℓ} (P : A → Type κ) (xs : List A) (y z : A) (ys : List A)
    → All P (xs ++ y ∷ ys)
    → P z
    → All P (xs ++ z ∷ ys)
All-replace P [] y z ys a p = (p, a.1)
All-replace P (x ∷ xs) y z ys a p = (a.0, All-replace P xs y z ys a.1 p)

-- A running process has its pipe ends.
abbrev pub Sound : Proc → Type 0
Sound p = (p.cmd ≡ true → p.stdin ≡ true) × (p.cmd ≡ true → p.stdout_r ≡ true)

-- The process that a call holds satisfies `P`.
abbrev pub Held : (Proc → Type 0) → Scanning → Type 0
Held P (waiting c) = Unit
Held P (holding c p) = P p
Held P (replied r p) = P p
Held P (ending r p) = P p
Held P (returning r p) = P p
Held P (finished r) = Unit

-- A measure of the process that a call holds.
abbrev pub of_held : (Proc → ℕ) → Scanning → ℕ
of_held f (waiting c) = 0
of_held f (holding c p) = f p
of_held f (replied r p) = f p
of_held f (ending r p) = f p
of_held f (returning r p) = f p
of_held f (finished r) = 0

-- How many processes a call holds.
abbrev pub held : Scanning → ℕ
held = of_held (λ p. 1)

-- A call that ends its process has seen the flag.
abbrev pub Aware : Bool → Scanning → Type 0
Aware b (ending r p) = b ≡ true
Aware b pc = Unit

-- The channel and one call, where others own `c` children and `d` descriptors.
pub record Tally (c d : ℕ) (m : Shared) (pc : Scanning) : Type 0 where
  pub sound_idle : All Sound m.idle
  pub sound_held : Held Sound pc
  pub children : m.os.children ≡ c + sum owned m.idle + of_held owned pc
  pub descriptors : m.os.descriptors ≡ d + 3 * sum owned m.idle + 3 * of_held owned pc
