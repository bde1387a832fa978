-- ===== src/Blob/RoundTrip.antt =====
-- An envelope that was written is read back, by this version of the firmware and by another.
use hill_grov.Base.{
  List, ap₂, arith, bit_or, bit_or_shifted, if◌then◌else◌, le32, length, length-append, ltb, min,
  rd16-le16, rd16_sum, refl, replicate, some, take-append, take_all, u8, ℕ, ◌*◌, ◌++◌, ◌+◌, ◌-◌,
  ◌/◌, ◌<◌, ◌^◌, ◌||◌, ◌∙◌, ◌≡◌, ◌≤◌,
}
use hill_grov.Blob.{
  rd32_halves, crc32, blob_ok, migrated, e_version_newer, e_version_old, blob_header, blob_wrap,
  Unwrapped, refused, loaded, blob_unwrap,
}

-- The numbers fit their fields.
pub record IsEnvelope (magic version generation : ℕ) (payload : List ℕ) : Type 0 where
  pub magic_fits : magic < 4294967296
  pub version_fits : version < 65536
  pub generation_fits : generation < 4294967296
  pub payload_fits : length payload < 65536

rd32_halves-le32 :
    (v : ℕ)
    → v < 4294967296
    → rd32_halves (u8 v) (u8 (v / 256)) (u8 (v / 65536)) (u8 (v / 16777216)) ≡ v
unfolding rd32_halves
rd32_halves-le32 v h =
    let low : ℕ = u8 v + u8 (v / 256) * 256 in
    let high : ℕ = u8 (v / 65536) + u8 (v / 16777216) * 256 in
    let fits : low < 2 ^ 16 = omega arith in
    ap₂ (λ a b. bit_or a (b * 2 ^ 16)) (rd16_sum (u8 v) (u8 (v / 256)) (omega arith))
      (rd16_sum (u8 (v / 65536)) (u8 (v / 16777216)) (omega arith))
    ∙ bit_or_shifted 16 low high fits
    ∙ omega arith

crc32-lt : (seed : ℕ) (buf : List ℕ) → crc32 seed buf < 4294967296
unfolding crc32
crc32-lt seed buf = omega arith

-- What a reader of version `cur` that accepts versions from `min` on makes of it.
unfoldable pub reading : ℕ → ℕ → ℕ → ℕ → List ℕ → ℕ → Unwrapped
reading version cur min generation payload cap =
    if ltb cur version
    then refused e_version_newer
    else if ltb version min
    then refused e_version_old
    else loaded (if ltb version cur || ltb (length payload) cap then migrated else blob_ok)
        (payload ++ replicate (cap - length payload) 0) generation

unwrap-parts :
    (magic version cur min generation cap c : ℕ) (payload later : List ℕ)
    → IsEnvelope magic version generation payload
    → length payload ≤ cap
    → c < 4294967296
    → c ≡ crc32 (crc32 0 (blob_header magic version (length payload) generation)) payload
    → blob_unwrap magic cur min
        ((blob_header magic version (length payload) generation ++ (le32 c ++ payload)) ++ later)
        cap
      ≡ reading version cur min generation payload cap
unfolding blob_unwrap reading
unwrap-parts magic version cur min generation cap c payload later v fits lt e = ground (
  arith,
  rd32_halves-le32 magic,
  rd16-le16 version,
  rd16-le16 (length payload),
  rd32_halves-le32 generation,
  rd32_halves-le32 c,
  length-append payload later,
  take-append (length payload) payload later,
  take_all (length payload) payload,
)

-- Numbers that fit their fields and a payload that fits the reader are wrapped when the buffer
-- has 16 bytes more, and unwrapped with any bytes behind them: refused only for a version too
-- new or too old, and otherwise given back with the generation, filled up with zeros, as
-- migrated when the version is older or the payload shorter.
pub unwrap-wrap :
    (magic version cur min generation cap out_cap : ℕ) (payload later : List ℕ)
    → IsEnvelope magic version generation payload
    → length payload ≤ cap
    → 16 + length payload ≤ out_cap
    → (out : List ℕ) × (blob_wrap magic version generation payload out_cap ≡ some out)
      × (blob_unwrap magic cur min (out ++ later) cap
          ≡ reading version cur min generation payload cap)
unfolding blob_wrap
unwrap-wrap magic version cur min generation cap out_cap payload later v fits room =
    let header = blob_header magic version (length payload) generation in
    let c = crc32 (crc32 0 header) payload in
    (
      header ++ (le32 c ++ payload),
      ground arith,
      unwrap-parts magic version cur min generation cap c payload later v fits
          (crc32-lt (crc32 0 header) payload) refl,
    )
