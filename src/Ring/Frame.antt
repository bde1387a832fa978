-- ===== src/Ring/Frame.antt =====
-- components/ring_proto/ring_frame.c: frames with a header, a check sequence and zero delimiters,
-- and the byte-by-byte decoder. Lengths and identifiers are those of ring_proto.h.
pub mod Decoder
pub mod RoundTrip
use hill_grov.Base.{
  List, Option, [], drop, get_or, if◌then◌else◌, le16, leb, length, ltb, none, not, rd16, set, some,
  take, u8, ℕ, ◌++◌, ◌+◌, ◌-◌, ◌/◌, ◌==◌, ◌||◌, ◌∷◌,
}
use hill_grov.Ring.Crc.{crc16}
use hill_grov.Ring.Cobs

abbrev pub ring_magic : ℕ
ring_magic = 0xa1

abbrev pub ring_hdr_len : ℕ
ring_hdr_len = 9

abbrev pub ring_max_payload : ℕ
ring_max_payload = 128

abbrev pub ring_wire_max : ℕ
ring_wire_max = 143

abbrev pub ring_dec_discard : ℕ
ring_dec_discard = 0xffff

-- `ring_hdr_t`
pub record Hdr : Type 0 where
  pub src : ℕ
  pub dst : ℕ
  pub type : ℕ
  pub flags : ℕ
  pub ttl : ℕ
  pub len : ℕ
  pub seq : ℕ

-- The bytes of `raw` ahead of the payload.
abbrev pub raw_header : Hdr → List ℕ
raw_header h =
    ring_magic ∷ h.src ∷ h.dst ∷ h.type ∷ h.flags ∷ h.ttl ∷ h.len ∷ u8 h.seq ∷ u8 (h.seq / 256) ∷ []

-- `raw[0..rn)` when the check sequence is in.
unfoldable pub raw_frame : Hdr → List ℕ → List ℕ
raw_frame h payload = let raw = raw_header h ++ take h.len payload in raw ++ le16 (crc16 raw)

-- `ring_frame_encode`: the wire bytes, or `none` for -1.
unfoldable pub encode : Hdr → List ℕ → ℕ → Option (List ℕ)
encode h payload cap =
    let cobs = Cobs.encode (raw_frame h payload) in
    if ltb ring_max_payload h.len
    then none
    else if ltb cap (length cobs + 2)
    then none
    else some (0 ∷ (cobs ++ 0 ∷ []))

-- `ring_dec_t`: the array and how much of it is in use, or the discard mark.
pub record RingDec : Type 0 where
  pub buf : List ℕ
  pub n : ℕ

-- What a call reports: 0, -1, or 1 with the frame.
pub data Feed : Type 0 where
  more dropped : Feed
  frame : Hdr → List ℕ → Feed

-- `ring_dec_init` and `ring_dec_reset` both do this.
unfoldable pub reset : RingDec → RingDec
reset d = record d { n = 0 }

-- The tests at a delimiter, on the decoded bytes.
unfoldable pub check_raw : List ℕ → Feed
check_raw raw =
    let dn = length raw in
    let at = λ (i : ℕ). get_or raw i 0 in
    let len = at 6 in
    let h : Hdr = record {
      src = at 1;
      dst = at 2;
      type = at 3;
      flags = at 4;
      ttl = at 5;
      len = len;
      seq = rd16 (at 7) (at 8);
    } in
    if ltb dn ring_hdr_len
    then dropped
    else if not (at 0 == ring_magic)
    then dropped
    else if not (dn == ring_hdr_len + len + 2)
    then dropped
    else if ltb ring_max_payload len
    then dropped
    else if not (
        crc16 (take (ring_hdr_len + len) raw)
        == rd16 (at (ring_hdr_len + len)) (at (ring_hdr_len + len + 1)))
    then dropped
    else frame h (take len (drop ring_hdr_len raw))

-- A decode of -1 is below the header length.
unfoldable pub check_cobs : Option (List ℕ) → Feed
check_cobs none = dropped
check_cobs (some raw) = check_raw raw

-- `ring_dec_feed`
unfoldable pub feed : RingDec → ℕ → RingDec × Feed
feed d byte =
    if byte == 0
    then (if d.n == 0 || d.n == ring_dec_discard
        then (reset d, more)
        else (reset d, check_cobs (Cobs.decode (take d.n d.buf))))
    else if d.n == ring_dec_discard
    then (d, more)
    else if leb (ring_wire_max - 2) d.n
    then (record d { n = ring_dec_discard }, dropped)
    else (record { buf = set d.buf d.n byte; n = d.n + 1 }, more)

-- A run of calls, with what each that did not return 0 reported.
unfoldable pub report : Feed → List Feed → List Feed
report more rest = rest
report dropped rest = dropped ∷ rest
report (frame h payload) rest = frame h payload ∷ rest

unfoldable pub feed_all : RingDec → List ℕ → RingDec × List Feed
feed_all d [] = (d, [])
feed_all d (byte ∷ rest) =
    let (d', r) = feed d byte in let (d'', rs) = feed_all d' rest in (d'', report r rs)
