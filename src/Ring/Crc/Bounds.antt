-- ===== src/Ring/Crc/Bounds.antt =====
-- The check sequence is a `uint16_t`, so that its two bytes give it back.
use hill_grov.Base.{List, [], arith, ℕ, ◌<◌, ◌∷◌}
use hill_grov.Ring.Crc.{crc_byte, crc_loop, crc16}

pub crc_byte-lt : (crc byte : ℕ) → crc_byte crc byte < 65536
unfolding crc_byte
crc_byte-lt crc byte = omega arith

crc_loop-lt : (crc : ℕ) (p : List ℕ) → crc < 65536 → crc_loop crc p < 65536
unfolding crc_loop
crc_loop-lt crc [] h = h
crc_loop-lt crc (byte ∷ rest) h = crc_loop-lt (crc_byte crc byte) rest (crc_byte-lt crc byte)

pub crc16-lt : (p : List ℕ) → crc16 p < 65536
unfolding crc16
crc16-lt p = crc_loop-lt 0xffff p (omega arith)
