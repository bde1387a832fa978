-- ===== src/Base/Bits.antt =====
-- `|` of fields that share no bit is a sum, at every width, from the equation for the lowest digit.
use Prim.Native.Nat.{ℕ, zero, suc, ◌+◌, ◌*◌, ◌/◌, ◌%◌, ◌^◌, ◌<◌, max, bit_or, bit_or-bitwise}
use mathlib.Core.Path.{◌≡◌, ap, ◌∙◌}
use native.Mathlib.Nat.{pow-suc}
use native.Mathlib.Omega.{arith}
use hill_grov.Base.Digits.{first_digit}
use hill_grov.Base.Words.{rd16, rd32, rd64}

zero-bit_or : (b : ℕ) → bit_or 0 b ≡ b
zero-bit_or b = bit_or-bitwise 0 b

pub bit_or_step : (a b : ℕ) → bit_or a b ≡ bit_or (a / 2) (b / 2) * 2 + max (a % 2) (b % 2)
bit_or_step zero b = omega (arith, zero-bit_or b, zero-bit_or (b / 2))
bit_or_step (suc a) b = omega (
  arith,
  bit_or-bitwise (suc a) b,
  bit_or-bitwise (suc a / 2) (b / 2),
  first_digit (λ b. b) max a b,
)

double_pow : (q k : ℕ) → q * 2 ^ suc k ≡ q * 2 ^ k * 2
double_pow q k = omega (arith, ap (λ (t : ℕ). q * t) (pow-suc 2 k))

-- `low | (high << k)` is a sum when `low` fits `k` bits.
pub bit_or_shifted : (k low high : ℕ) → low < 2 ^ k → bit_or low (high * 2 ^ k) ≡ low + high * 2 ^ k
bit_or_shifted zero zero high h = omega (arith, zero-bit_or (high * 2 ^ 0))
bit_or_shifted zero (suc low) high h = absurd (omega arith)
bit_or_shifted (suc k) low high h = omega (
  arith,
  bit_or_step low (high * 2 ^ suc k),
  double_pow high k,
  pow-suc 2 k,
  ap (bit_or (low / 2)) (half_shifted high k),
  bit_or_shifted k (low / 2) high (omega (arith, pow-suc 2 k)),
)
  where
    half_shifted : (q k : ℕ) → q * 2 ^ suc k / 2 ≡ q * 2 ^ k
    half_shifted q k = omega (arith, double_pow q k)

pub rd16_sum : (a b : ℕ) → a < 256 → rd16 a b ≡ a + b * 256
unfolding rd16
rd16_sum a b ha = bit_or_shifted 8 a b (omega arith)

pub rd32_sum :
    (a b c d : ℕ)
    → a < 256
    → b < 256
    → c < 256
    → rd32 a b c d ≡ a + b * 256 + c * 65536 + d * 16777216
unfolding rd32
rd32_sum a b c d ha hb hc =
    ap (λ t. bit_or (bit_or t (c * 2 ^ 16)) (d * 2 ^ 24)) (bit_or_shifted 8 a b (omega arith))
    ∙ ap (λ t. bit_or t (d * 2 ^ 24)) (bit_or_shifted 16 (a + b * 2 ^ 8) c (omega arith))
    ∙ bit_or_shifted 24 (a + b * 2 ^ 8 + c * 2 ^ 16) d (omega arith)

-- What a writer stores, a reader gives back.
pub rd16-le16 : (v : ℕ) → v < 65536 → rd16 (v % 256) (v / 256 % 256) ≡ v
rd16-le16 v h = omega (arith, rd16_sum (v % 256) (v / 256 % 256))

pub rd32-le32 :
    (v : ℕ)
    → v < 4294967296
    → rd32 (v % 256) (v / 256 % 256) (v / 65536 % 256) (v / 16777216 % 256) ≡ v
rd32-le32 v h =
    omega (arith, rd32_sum (v % 256) (v / 256 % 256) (v / 65536 % 256) (v / 16777216 % 256))

pub rd64-le64 :
    (v : ℕ)
    → v < 18446744073709551616
    → rd64
        (v % 256)
        (v / 256 % 256)
        (v / 65536 % 256)
        (v / 16777216 % 256)
        (v / 4294967296 % 256)
        (v / 1099511627776 % 256)
        (v / 281474976710656 % 256)
        (v / 72057594037927936 % 256)
      ≡ v
unfolding rd64
rd64-le64 v h =
    ap
      (λ t.
        bit_or (bit_or (bit_or (bit_or t (b4 * 2 ^ 32)) (b5 * 2 ^ 40)) (b6 * 2 ^ 48)) (b7 * 2 ^ 56))
      low
    ∙ ap (λ t. bit_or (bit_or (bit_or t (b5 * 2 ^ 40)) (b6 * 2 ^ 48)) (b7 * 2 ^ 56))
        (bit_or_shifted 32 (v % 4294967296) b4 (omega arith))
    ∙ ap (λ t. bit_or (bit_or t (b6 * 2 ^ 48)) (b7 * 2 ^ 56))
        (bit_or_shifted 40 (v % 4294967296 + b4 * 2 ^ 32) b5 (omega arith))
    ∙ ap (λ t. bit_or t (b7 * 2 ^ 56))
        (bit_or_shifted 48 (v % 4294967296 + b4 * 2 ^ 32 + b5 * 2 ^ 40) b6 (omega arith))
    ∙ bit_or_shifted 56 (v % 4294967296 + b4 * 2 ^ 32 + b5 * 2 ^ 40 + b6 * 2 ^ 48) b7 (omega arith)
    ∙ omega arith
  where
    b4 : ℕ
    b4 = v / 4294967296 % 256

    b5 : ℕ
    b5 = v / 1099511627776 % 256

    b6 : ℕ
    b6 = v / 281474976710656 % 256

    b7 : ℕ
    b7 = v / 72057594037927936 % 256

    low : rd32 (v % 256) (v / 256 % 256) (v / 65536 % 256) (v / 16777216 % 256) ≡ v % 4294967296
    low = omega (arith, rd32_sum (v % 256) (v / 256 % 256) (v / 65536 % 256) (v / 16777216 % 256))
