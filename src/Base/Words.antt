-- ===== src/Base/Words.antt =====
-- Machine words as native numbers: each operation of the source keeps its wrap-around.
use Prim.Native.Nat.{ℕ, ◌+◌, ◌-◌, ◌*◌, ◌/◌, ◌%◌, ◌^◌, ◌<◌, bit_or}
use mathlib.Core.List.{List, [], ◌∷◌}

-- The casts `(uint8_t)`, `(uint16_t)` and `(uint32_t)`.
abbrev pub u8 : ℕ → ℕ
u8 n = n % 256

abbrev pub u16 : ℕ → ℕ
u16 n = n % 65536

abbrev pub u32 : ℕ → ℕ
u32 n = n % 4294967296

-- `a - b` and `a + b` on `uint32_t`; `-` on ℕ stops at 0, so the modulus is added first.
abbrev pub sub32 : ℕ → ℕ → ℕ
sub32 a b = (a + 4294967296 - b) % 4294967296

abbrev pub add32 : ℕ → ℕ → ℕ
add32 a b = (a + b) % 4294967296

abbrev pub Byte : ℕ → Type 0
Byte b = b < 256

-- The bytes that the source stores for a word, lowest first.
abbrev pub le16 : ℕ → List ℕ
le16 v = u8 v ∷ u8 (v / 256) ∷ []

abbrev pub le32 : ℕ → List ℕ
le32 v = u8 v ∷ u8 (v / 256) ∷ u8 (v / 65536) ∷ u8 (v / 16777216) ∷ []

-- `p[0] | (p[1] << 8)`, and so on for 32 bits.
unfoldable pub rd16 : ℕ → ℕ → ℕ
rd16 a b = bit_or a (b * 2 ^ 8)

unfoldable pub rd32 : ℕ → ℕ → ℕ → ℕ → ℕ
rd32 a b c d = bit_or (bit_or (bit_or a (b * 2 ^ 8)) (c * 2 ^ 16)) (d * 2 ^ 24)

unfoldable pub rd64 : ℕ → ℕ → ℕ → ℕ → ℕ → ℕ → ℕ → ℕ → ℕ
rd64 a b c d e f g h =
    bit_or (bit_or (bit_or (bit_or (rd32 a b c d) (e * 2 ^ 32)) (f * 2 ^ 40)) (g * 2 ^ 48))
      (h * 2 ^ 56)

abbrev pub le64 : ℕ → List ℕ
le64 v =
    u8 v
    ∷ u8 (v / 256)
    ∷ u8 (v / 65536)
    ∷ u8 (v / 16777216)
    ∷ u8 (v / 4294967296)
    ∷ u8 (v / 1099511627776)
    ∷ u8 (v / 281474976710656)
    ∷ u8 (v / 72057594037927936)
    ∷ []
