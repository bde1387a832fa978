-- ===== src/Blob.antt =====
-- components/hg_blob/hg_blob.c: the envelope of what is kept in flash, with its check sequence.
pub mod RoundTrip
use hill_grov.Base.{
  List, Option, [], bit_or, bit_xor, drop, get_or, if◌then◌else◌, le16, le32, length, ltb, none,
  not, rd16, replicate, some, suc, take, zero, ℕ, ◌%◌, ◌*◌, ◌++◌, ◌+◌, ◌-◌, ◌/◌, ◌==◌, ◌^◌, ◌||◌,
  ◌∷◌,
}

-- `~c` on 32 bits.
abbrev pub complement : ℕ → ℕ
complement c = 0xffffffff - c % 2 ^ 32

-- The inner loop of `hg_crc32`, for the given number of bits.
unfoldable pub crc32_bits : ℕ → ℕ → ℕ
crc32_bits zero c = c
crc32_bits (suc k) c = crc32_bits k (bit_xor (c / 2) (if c % 2 == 1 then 0xedb88320 else 0))

unfoldable pub crc32_loop : ℕ → List ℕ → ℕ
crc32_loop c [] = c
crc32_loop c (byte ∷ rest) = crc32_loop (crc32_bits 8 (bit_xor c byte)) rest

-- `hg_crc32`
unfoldable pub crc32 : ℕ → List ℕ → ℕ
crc32 seed buf = complement (crc32_loop (complement seed) buf)

-- `rd32`, of two halves
unfoldable pub rd32_halves : ℕ → ℕ → ℕ → ℕ → ℕ
rd32_halves a b c d = bit_or (rd16 a b) (rd16 c d * 2 ^ 16)

-- `hg_blob_rc_t`
pub data BlobRc : Type 0 where
  blob_ok migrated e_short e_magic e_length e_crc e_version_newer e_version_old : BlobRc

abbrev pub blob_hdr_len : ℕ
blob_hdr_len = 16

-- The twelve bytes ahead of the check sequence.
abbrev pub blob_header : ℕ → ℕ → ℕ → ℕ → List ℕ
blob_header magic version len generation =
    le32 magic ++ (le16 version ++ (le16 len ++ le32 generation))

-- `hg_blob_wrap` of `length payload` bytes; `none` is 0.
unfoldable pub blob_wrap : ℕ → ℕ → ℕ → List ℕ → ℕ → Option (List ℕ)
blob_wrap magic version generation payload cap =
    let len = length payload in
    let header = blob_header magic version len generation in
    if ltb cap (blob_hdr_len + len)
    then none
    else some (header ++ (le32 (crc32 (crc32 0 header) payload) ++ payload))

-- What `hg_blob_unwrap` returns, with the payload array and the generation where it writes them.
pub data Unwrapped : Type 0 where
  refused : BlobRc → Unwrapped
  loaded : BlobRc → List ℕ → ℕ → Unwrapped

-- `hg_blob_unwrap`; the payload array has `payload_cap` bytes.
unfoldable pub blob_unwrap : ℕ → ℕ → ℕ → List ℕ → ℕ → Unwrapped
blob_unwrap magic cur_ver min_compat bytes payload_cap =
    let at = λ (i : ℕ). get_or bytes i 0 in
    let len = rd16 (at 6) (at 7) in
    let payload = take len (drop blob_hdr_len bytes) in
    let ver = rd16 (at 4) (at 5) in
    let filled = payload ++ replicate (payload_cap - len) 0 in
    let rc = if ltb ver cur_ver || ltb len payload_cap then migrated else blob_ok in
    if ltb (length bytes) blob_hdr_len
    then refused e_short
    else if not (rd32_halves (at 0) (at 1) (at 2) (at 3) == magic)
    then refused e_magic
    else if ltb payload_cap len || ltb (length bytes) (blob_hdr_len + len)
    then refused e_length
    else if not
        (crc32 (crc32 0 (take 12 bytes)) payload == rd32_halves (at 12) (at 13) (at 14) (at 15))
    then refused e_crc
    else if ltb cur_ver ver
    then refused e_version_newer
    else if ltb ver min_compat
    then refused e_version_old
    else loaded rc filled (rd32_halves (at 8) (at 9) (at 10) (at 11))
