-- ===== src/Base/Memory.antt =====
-- `memcmp(xs, ys, n) == 0` on arrays that hold `n` bytes.
use Prim.Native.Nat.{ℕ, zero, suc, ◌≤◌}
use mathlib.Core.Path.{◌≡◌, refl, ap, ap₂}
use mathlib.Core.Bool.{Bool, true, false, ◌&&◌}
use mathlib.Core.List.{List, [], ◌∷◌}
use native.Mathlib.Omega.{arith}
use hill_grov.Base.Tests.{◌==◌}
use hill_grov.Base.Lists.{length, take}

unfoldable pub memeq : ℕ → List ℕ → List ℕ → Bool
memeq zero xs ys = true
memeq (suc n) [] ys = false
memeq (suc n) (x ∷ xs) [] = false
memeq (suc n) (x ∷ xs) (y ∷ ys) = x == y && memeq n xs ys

pub memeq_refl : (n : ℕ) (xs : List ℕ) → n ≤ length xs → memeq n xs xs ≡ true
unfolding memeq
memeq_refl zero xs h = refl
memeq_refl (suc n) [] h = absurd (omega arith)
memeq_refl (suc n) (x ∷ xs) h = ground (arith, memeq_refl n xs)

pub memeq→take : (n : ℕ) (xs ys : List ℕ) → memeq n xs ys ≡ true → take n xs ≡ take n ys
unfolding memeq
memeq→take zero xs ys h = refl
memeq→take (suc n) [] ys h = absurd (ground arith)
memeq→take (suc n) (x ∷ xs) [] h = absurd (ground arith)
memeq→take (suc n) (x ∷ xs) (y ∷ ys) h = ground (arith, memeq→take n xs ys)

-- The copy of an array equals it.
pub memeq-take : (n : ℕ) (xs : List ℕ) → n ≤ length xs → memeq n (take n xs) xs ≡ true
unfolding memeq
memeq-take zero xs h = refl
memeq-take (suc n) [] h = absurd (omega arith)
memeq-take (suc n) (x ∷ xs) h = ground (arith, memeq-take n xs)

pub memeq-take_right : (n : ℕ) (xs ys : List ℕ) → memeq n xs (take n ys) ≡ memeq n xs ys
unfolding memeq
memeq-take_right zero xs ys = refl
memeq-take_right (suc n) [] [] = refl
memeq-take_right (suc n) [] (y ∷ ys) = refl
memeq-take_right (suc n) (x ∷ xs) [] = refl
memeq-take_right (suc n) (x ∷ xs) (y ∷ ys) = ap (λ b. x == y && b) (memeq-take_right n xs ys)

==_sym : (x y : ℕ) → (x == y) ≡ (y == x)
==_sym x y = ground arith

pub memeq_sym : (n : ℕ) (xs ys : List ℕ) → memeq n xs ys ≡ memeq n ys xs
unfolding memeq
memeq_sym zero xs ys = refl
memeq_sym (suc n) [] [] = refl
memeq_sym (suc n) [] (y ∷ ys) = refl
memeq_sym (suc n) (x ∷ xs) [] = refl
memeq_sym (suc n) (x ∷ xs) (y ∷ ys) = ap₂ ◌&&◌ (==_sym x y) (memeq_sym n xs ys)

-- The six bytes of an address.
pub mac-cases : (m : List ℕ) → length m ≡ 6 → (a b c d e f : ℕ) × (m ≡ a ∷ b ∷ c ∷ d ∷ e ∷ f ∷ [])
mac-cases (a ∷ b ∷ c ∷ d ∷ e ∷ f ∷ []) h = (a, b, c, d, e, f, refl)
mac-cases [] h = absurd (omega arith)
mac-cases (a ∷ []) h = absurd (omega arith)
mac-cases (a ∷ b ∷ []) h = absurd (omega arith)
mac-cases (a ∷ b ∷ c ∷ []) h = absurd (omega arith)
mac-cases (a ∷ b ∷ c ∷ d ∷ []) h = absurd (omega arith)
mac-cases (a ∷ b ∷ c ∷ d ∷ e ∷ []) h = absurd (omega arith)
mac-cases (a ∷ b ∷ c ∷ d ∷ e ∷ f ∷ g ∷ m) h = absurd (omega arith)

-- `strcmp` of two texts, for equality
unfoldable pub text_eq : List ℕ → List ℕ → Bool
text_eq [] [] = true
text_eq [] (y ∷ ys) = false
text_eq (x ∷ xs) [] = false
text_eq (x ∷ xs) (y ∷ ys) = x == y && text_eq xs ys

pub text_eq_refl : (xs : List ℕ) → text_eq xs xs ≡ true
unfolding text_eq
text_eq_refl [] = refl
text_eq_refl (x ∷ xs) = ground (arith, text_eq_refl xs)
