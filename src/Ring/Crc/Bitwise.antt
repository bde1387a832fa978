-- ===== src/Ring/Crc/Bitwise.antt =====
-- The table-driven loop against the shift register that CRC-16/CCITT-FALSE is defined by.
use hill_grov.Base.{
  ==_iff, All, Byte, List, [], all_below, all_below_sound, ap, arith, bit_xor, get_or,
  if◌then◌else◌, ltb, ltb→lt, refl, suc, sym, true, u16, u8, xor-mod, xor_shifted, zero, ℕ, ◌%◌,
  ◌*◌, ◌+◌, ◌/◌, ◌<◌, ◌==◌, ◌∙◌, ◌∷◌, ◌≡◌,
}
use hill_grov.Ring.Crc.{crc16_table, crc_byte, crc_loop, crc16}
use hill_grov.Ring.Crc.Bounds.{crc_byte-lt}

-- One clock of the register: shift left, and take the polynomial in where a one fell out.
abbrev pub clock : ℕ → ℕ
clock r = if ltb r 0x8000 then r * 2 else bit_xor (u16 (r * 2)) 0x1021

abbrev pub clocks : ℕ → ℕ → ℕ
clocks zero r = r
clocks (suc n) r = clocks n (clock r)

-- A byte goes into the top of the register, which is then clocked for each of its bits.
unfoldable pub register : ℕ → List ℕ → ℕ
register r [] = r
register r (byte ∷ rest) = register (clocks 8 (bit_xor r (byte * 256))) rest

-- Every state of the register, with no byte.
clocks_table :
    all_below 256 (λ h. all_below 256 (λ l. crc_byte (h * 256 + l) 0 == clocks 8 (h * 256 + l)))
    ≡ true
unfolding all_below crc_byte
clocks_table = refl

crc_byte-zero : (h l : ℕ) → h < 256 → l < 256 → crc_byte (h * 256 + l) 0 ≡ clocks 8 (h * 256 + l)
crc_byte-zero h l hh hl = (==_iff _ _).0 (
    all_below_sound 256 (λ l. crc_byte (h * 256 + l) 0 == clocks 8 (h * 256 + l)) l
      (all_below_sound 256
        (λ h. all_below 256 (λ l. crc_byte (h * 256 + l) 0 == clocks 8 (h * 256 + l))) h
        clocks_table hh)
      hl)

byte_table : all_below 256 (λ h. all_below 256 (λ b. ltb (bit_xor h b) 256)) ≡ true
unfolding all_below
byte_table = refl

bit_xor-lt : (h b : ℕ) → h < 256 → b < 256 → bit_xor h b < 256
bit_xor-lt h b hh hb = ltb→lt _ _ (
    all_below_sound 256 (λ b. ltb (bit_xor h b) 256) b
      (all_below_sound 256 (λ h. all_below 256 (λ b. ltb (bit_xor h b) 256)) h byte_table hh) hb)

zero_table : all_below 256 (λ x. bit_xor x 0 == x) ≡ true
unfolding all_below
zero_table = refl

bit_xor-zero : (x : ℕ) → x < 256 → bit_xor x 0 ≡ x
bit_xor-zero x h = (==_iff _ _).0 (all_below_sound 256 (λ x. bit_xor x 0 == x) x zero_table h)

abbrev entry : ℕ → ℕ
entry i = get_or crc16_table (u8 i) 0

-- The byte may be taken into the top of the register first.
crc_byte-absorbed :
    (h l b : ℕ)
    → h < 256
    → l < 256
    → b < 256
    → crc_byte (h * 256 + l) b ≡ crc_byte (bit_xor h b * 256 + l) 0
unfolding crc_byte
crc_byte-absorbed h l b hh hl hb =
    let x : ℕ = bit_xor h b in
    let x_lt : x < 256 = bit_xor-lt h b hh hb in
    let top : (h * 256 + l) / 256 ≡ h = omega arith in
    let top' : (x * 256 + l) / 256 ≡ x = omega arith in
    let low : (h * 256 + l) * 256 % 65536 ≡ (x * 256 + l) * 256 % 65536 = omega arith in
    let same : bit_xor ((x * 256 + l) / 256) 0 ≡ bit_xor ((h * 256 + l) / 256) b =
      ap (λ t. bit_xor t 0) top' ∙ bit_xor-zero x x_lt ∙ ap (λ t. bit_xor t b) (sym top) in
    xor-mod 16 ((h * 256 + l) * 256) (entry (bit_xor ((h * 256 + l) / 256) b))
    ∙ ap (λ t. bit_xor t (entry (bit_xor ((h * 256 + l) / 256) b)) % 65536) low
    ∙ sym (xor-mod 16 ((x * 256 + l) * 256) (entry (bit_xor ((h * 256 + l) / 256) b)))
    ∙ ap (λ t. bit_xor ((x * 256 + l) * 256) (entry t) % 65536) (sym same)

pub crc_byte-clocks :
    (r byte : ℕ) → r < 65536 → byte < 256 → crc_byte r byte ≡ clocks 8 (bit_xor r (byte * 256))
crc_byte-clocks r byte hr hb =
    let h : ℕ = r / 256 in
    let l : ℕ = r % 256 in
    let whole : r ≡ h * 256 + l = omega arith in
    let hh : h < 256 = omega arith in
    let hl : l < 256 = omega arith in
    ap (λ t. crc_byte t byte) whole
    ∙ crc_byte-absorbed h l byte hh hl hb
    ∙ crc_byte-zero (bit_xor h byte) l (bit_xor-lt h byte hh hb) hl
    ∙ ap (clocks 8) (sym (ap (λ t. bit_xor t (byte * 256)) whole ∙ xor_shifted 8 h l byte hl))

crc_loop-register : (r : ℕ) (p : List ℕ) → r < 65536 → All Byte p → crc_loop r p ≡ register r p
unfolding crc_loop register
crc_loop-register r [] hr hp = refl
crc_loop-register r (byte ∷ rest) hr hp =
    crc_loop-register (crc_byte r byte) rest (crc_byte-lt r byte) hp.1
    ∙ ap (λ t. register t rest) (crc_byte-clocks r byte hr hp.0)

-- On bytes ring_crc16 is what the shift register of CRC-16/CCITT-FALSE holds that starts with
-- all ones.
pub crc16-register : (p : List ℕ) → All Byte p → crc16 p ≡ register 0xffff p
unfolding crc16
crc16-register p hp = crc_loop-register 0xffff p (omega arith) hp
