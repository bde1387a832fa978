-- ===== src/Base/Digits.antt =====
-- The bit operations unfold to `digits`, whose fuel is its left operand; any fuel from there on
-- gives the same, so that an operation is determined by its equation for the lowest digit.
use Prim.Native.Nat.{ℕ, zero, suc, ◌+◌, ◌*◌, ◌/◌, ◌%◌, ◌≤◌, digits}
use mathlib.Core.Path.{◌≡◌, refl, sym, ap, ◌∙◌}
use native.Mathlib.Omega.{arith}

module _ (one_left : ℕ → ℕ) (digit : ℕ → ℕ → ℕ) where
  nothing_left : (fuel b : ℕ) → digits one_left digit fuel 0 b ≡ one_left b
  nothing_left zero b = refl
  nothing_left (suc fuel) b = refl

  pub any_fuel :
      (a b fuel more : ℕ)
      → a ≤ fuel
      → a ≤ more
      → digits one_left digit fuel a b ≡ digits one_left digit more a b
  any_fuel zero b fuel more h k = nothing_left fuel b ∙ sym (nothing_left more b)
  any_fuel (suc a) b zero more h k = absurd (omega arith)
  any_fuel (suc a) b (suc fuel) zero h k = absurd (omega arith)
  any_fuel (suc a) b (suc fuel) (suc more) h k =
      ap (λ high. high * 2 + digit (suc a % 2) (b % 2))
        (any_fuel (suc a / 2) (b / 2) fuel more (omega arith) (omega arith))

  -- One digit, when what remains has its own fuel.
  pub first_digit :
      (a b : ℕ)
      → digits one_left digit (suc a) (suc a) b
        ≡ digits one_left digit (suc a / 2) (suc a / 2) (b / 2) * 2 + digit (suc a % 2) (b % 2)
  first_digit a b =
      ap (λ high. high * 2 + digit (suc a % 2) (b % 2))
        (any_fuel (suc a / 2) (b / 2) a (suc a / 2) (omega arith) (omega arith))
