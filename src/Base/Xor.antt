-- ===== src/Base/Xor.antt =====
-- `^` digit by digit, and what it leaves alone.
use Prim.Native.Nat.{ℕ, zero, suc, ◌+◌, ◌*◌, ◌/◌, ◌%◌, ◌^◌, ◌<◌, bit_xor, differ, bit_xor-bitwise}
use mathlib.Core.Path.{◌≡◌, refl, sym, subst, ap, ap₂, ◌∙◌}
use native.Mathlib.Nat.{pow-suc, one-le-pow}
use native.Mathlib.Omega.{arith}
use hill_grov.Base.Digits.{first_digit}

zero-bit_xor : (b : ℕ) → bit_xor 0 b ≡ b
zero-bit_xor b = bit_xor-bitwise 0 b

pub bit_xor_step : (a b : ℕ) → bit_xor a b ≡ bit_xor (a / 2) (b / 2) * 2 + differ (a % 2) (b % 2)
bit_xor_step zero b = omega (arith, zero-bit_xor b, zero-bit_xor (b / 2))
bit_xor_step (suc a) b =
    bit_xor-bitwise (suc a) b
    ∙ first_digit (λ b. b) differ a b
    ∙ ap (λ high. high * 2 + differ (suc a % 2) (b % 2)) (sym (bit_xor-bitwise (suc a / 2) (b / 2)))

double_mod : (q d m : ℕ) → d < 2 → 0 < m → (q * 2 + d) % (m * 2) ≡ q % m * 2 + d
double_mod q d m h p = grind arith

differ-lt : (a b : ℕ) → a < 2 → b < 2 → differ a b < 2
differ-lt zero b p q = q
differ-lt (suc zero) zero p q = omega arith
differ-lt (suc zero) (suc b) p q = omega arith
differ-lt (suc (suc a)) b p q = absurd (omega arith)

differ-zero : (a : ℕ) → differ a 0 ≡ a
differ-zero zero = refl
differ-zero (suc a) = refl

split_mod : (a m : ℕ) → 0 < m → a % (m * 2) ≡ a / 2 % m * 2 + a % 2
split_mod a m p = omega (
  arith,
  double_mod (a / 2) (a % 2) m (omega arith) p,
  ap (λ (t : ℕ). t % (m * 2)) (half_twice a),
)
  where
    half_twice : (a : ℕ) → a / 2 * 2 + a % 2 ≡ a
    half_twice a = omega arith

pow_pos : (k : ℕ) → 0 < 2 ^ k
pow_pos k = one-le-pow k 2 (omega arith)

step_mod :
    (a b m : ℕ)
    → 0 < m
    → bit_xor a b % (m * 2) ≡ bit_xor (a / 2) (b / 2) % m * 2 + differ (a % 2) (b % 2)
step_mod a b m p =
    ap (λ t. t % (m * 2)) (bit_xor_step a b)
    ∙ double_mod (bit_xor (a / 2) (b / 2)) (differ (a % 2) (b % 2)) m
        (differ-lt (a % 2) (b % 2) (omega arith) (omega arith)) p

-- The low `k` bits of the result do not see what stands above them on the left.
pub xor-mod : (k a b : ℕ) → bit_xor a b % 2 ^ k ≡ bit_xor (a % 2 ^ k) b % 2 ^ k
xor-mod zero a b = omega arith
xor-mod (suc k) a b =
    let m : ℕ = 2 ^ k in
    let a' : ℕ = a % (m * 2) in
    let high : a' / 2 ≡ a / 2 % m = omega (arith, split_mod a m (pow_pos k)) in
    let low : a' % 2 ≡ a % 2 = omega (arith, split_mod a m (pow_pos k)) in
    let whole : bit_xor a b % (m * 2) ≡ bit_xor a' b % (m * 2) =
      step_mod a b m (pow_pos k)
      ∙ ap (λ t. t * 2 + differ (a % 2) (b % 2)) (xor-mod k (a / 2) (b / 2))
      ∙ ap₂ (λ t u. bit_xor t (b / 2) % m * 2 + differ u (b % 2)) (sym high) (sym low)
      ∙ sym (step_mod a' b m (pow_pos k)) in
    subst (λ n. bit_xor a b % n ≡ bit_xor (a % n) b % n) (sym (pow-suc 2 k)) whole

double_pow : (q k : ℕ) → q * 2 ^ suc k ≡ q * 2 ^ k * 2
double_pow q k = omega (arith, ap (λ (t : ℕ). q * t) (pow-suc 2 k))

-- A left operand's low bits pass by a right operand that has none.
pub xor_shifted :
    (k h l b : ℕ) → l < 2 ^ k → bit_xor (h * 2 ^ k + l) (b * 2 ^ k) ≡ bit_xor h b * 2 ^ k + l
xor_shifted zero h l b lt = ap₂ bit_xor (omega arith) (omega arith) ∙ whole
  where
    whole : bit_xor h b ≡ bit_xor h b * 2 ^ 0 + l
    whole = omega arith
xor_shifted (suc k) h l b lt =
    let a : ℕ = h * 2 ^ suc k + l in
    let c : ℕ = b * 2 ^ suc k in
    let a_half : a / 2 ≡ h * 2 ^ k + l / 2 = omega (arith, double_pow h k) in
    let c_half : c / 2 ≡ b * 2 ^ k = omega (arith, double_pow b k) in
    let a_low : a % 2 ≡ l % 2 = omega (arith, double_pow h k) in
    let c_low : c % 2 ≡ 0 = omega (arith, double_pow b k) in
    let fits : l / 2 < 2 ^ k = omega (arith, pow-suc 2 k) in
    bit_xor_step a c
    ∙ ap₂ (λ t u. t * 2 + u) (ap₂ bit_xor a_half c_half ∙ xor_shifted k h (l / 2) b fits)
        (ap₂ differ a_low c_low ∙ differ-zero (l % 2))
    ∙ omega (arith, double_pow (bit_xor h b) k)
