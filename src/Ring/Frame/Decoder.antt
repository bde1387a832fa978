-- ===== src/Ring/Frame/Decoder.antt =====
-- The decoder's state: what it buffers, that it stays in its array, and how it finds a frame again.
use hill_grov.Base.{arith, length, length-set, ℕ, ◌≡◌, ◌≤◌, ◌⊎◌}
use hill_grov.Ring.Frame.{RingDec, reset, feed, ring_dec_discard, ring_wire_max}

-- Either the bytes in use fit, with two spare places, or the rest of the line is being discarded.
pub record IsValid (d : RingDec) : Type 0 where
  pub size : length d.buf ≡ ring_wire_max
  pub fill : (d.n ≤ 141) ⊎ (d.n ≡ ring_dec_discard)

-- Whatever byte comes, a decoder that has its array of 143 bytes and either at most 141 of them
-- in use or the discard mark keeps to this.
pub feed-IsValid : (d : RingDec) (byte : ℕ) → IsValid d → IsValid (feed d byte).0
unfolding feed reset
feed-IsValid d byte v = ground (arith, length-set d.buf d.n byte)
