-- ===== src/Ring/Chunks.antt =====
-- components/ring_proto/ring_cfgx.c: a configuration blob cut into chunks for the ring, and the
-- reassembler at the other end.
pub mod Build
pub mod Copy
pub mod Mask
pub mod Gathered
pub mod Reassembly
use hill_grov.Base.{
  Bool, List, Option, [], bit_or, drop, false, get_or, if◌then◌else◌, le16, le32, leb, length, ltb,
  none, not, rd16, rd32, replicate, set, some, sub32, take, true, u16, u8, ℕ, ◌&&◌, ◌*◌, ◌++◌, ◌+◌,
  ◌-◌, ◌/◌, ◌==◌, ◌^◌, ◌||◌, ◌∷◌,
}

abbrev pub ring_cfg_hdr_len : ℕ
ring_cfg_hdr_len = 9

abbrev pub ring_cfg_data_max : ℕ
ring_cfg_data_max = 112

abbrev pub ring_cfg_buf_max : ℕ
ring_cfg_buf_max = 768

abbrev pub ring_cfg_max_chunks : ℕ
ring_cfg_max_chunks = 7

abbrev pub ring_cfg_idle_ms : ℕ
ring_cfg_idle_ms = 2000

-- `ring_cfg_chunk_count`
unfoldable pub chunk_count : ℕ → ℕ
chunk_count blob_len = (blob_len + ring_cfg_data_max - 1) / ring_cfg_data_max

-- The bytes of chunk `idx` that carry data.
unfoldable pub chunk_data_len : ℕ → ℕ → ℕ
chunk_data_len blob_len idx =
    let remaining = blob_len - idx * ring_cfg_data_max in
    if ltb remaining ring_cfg_data_max then remaining else ring_cfg_data_max

-- `ring_cfg_chunk_build`, for a buffer of `cap` bytes that is there; `none` is -1.
unfoldable pub chunk_build : ℕ → ℕ → List ℕ → ℕ → ℕ → Option (List ℕ)
chunk_build kind gen blob idx cap =
    let blob_len = length blob in
    let data_len = chunk_data_len blob_len idx in
    if ltb ring_cfg_buf_max blob_len
    then none
    else if leb (chunk_count blob_len) idx
    then none
    else if ltb cap (ring_cfg_hdr_len + data_len)
    then none
    else some (
        (kind ∷ le32 gen ++ idx ∷ u8 (chunk_count blob_len) ∷ le16 (u16 blob_len))
        ++ take data_len (drop (idx * ring_cfg_data_max) blob))

-- `ring_casm_t`
pub record Casm : Type 0 where
  pub active : Bool
  pub kind : ℕ
  pub gen : ℕ
  pub total : ℕ
  pub count : ℕ
  pub got_mask : ℕ
  pub last_ms : ℕ
  pub buf : List ℕ

-- `ring_casm_init`
abbrev pub casm_init : Casm
casm_init = record {
  active = false;
  kind = 0;
  gen = 0;
  total = 0;
  count = 0;
  got_mask = 0;
  last_ms = 0;
  buf = replicate ring_cfg_buf_max 0;
}

-- `casm_start`
unfoldable pub casm_start : Casm → ℕ → ℕ → ℕ → ℕ → Casm
casm_start a kind gen count total = record a {
  active = true;
  kind = kind;
  gen = gen;
  count = count;
  total = total;
  got_mask = 0;
  buf = replicate ring_cfg_buf_max 0;
}

-- `memcpy(buf + off, src, length src)`
unfoldable pub write_at : List ℕ → ℕ → List ℕ → List ℕ
write_at buf off [] = buf
write_at buf off (x ∷ src) = write_at (set buf off x) (off + 1) src

-- What `ring_casm_feed` returns: 0, 1 or -1.
pub data Fed : Type 0 where
  progress complete rejected : Fed

-- The data length that a chunk of this index has to have; `none` is a return of -1.
unfoldable pub expected_len : ℕ → ℕ → ℕ → Option ℕ
expected_len idx count total =
    let behind = ring_cfg_data_max * idx in
    if idx == count - 1
    then (if leb total behind || ltb ring_cfg_data_max (total - behind)
        then none
        else some (total - behind))
    else some ring_cfg_data_max

-- The copy into the buffer and the answer, once the transfer is settled.
unfoldable pub casm_store : Casm → ℕ → List ℕ → ℕ → Casm × Fed
casm_store a idx chunk now =
    let a' = record a {
      buf = write_at a.buf (idx * ring_cfg_data_max) chunk;
      got_mask = u8 (bit_or a.got_mask (2 ^ idx));
      last_ms = now;
    } in
    (a', if a'.got_mask == u8 (2 ^ a.count - 1) then complete else progress)

-- The part of `ring_casm_feed` behind the tests of the header.
unfoldable pub casm_accept : Casm → ℕ → ℕ → ℕ → ℕ → ℕ → List ℕ → ℕ → Casm × Fed
casm_accept a kind gen idx count total chunk now =
    let fresh = (not a.active || not (a.kind == kind)) || not (a.gen == gen) in
    if fresh
    then casm_store (casm_start a kind gen count total) idx chunk now
    else if not (a.count == count) || not (a.total == total)
    then (a, rejected)
    else casm_store a idx chunk now

-- `ring_casm_feed`, on a payload that is there.
unfoldable pub casm_feed : Casm → List ℕ → ℕ → Casm × Fed
casm_feed a payload now =
    let at = λ (i : ℕ). get_or payload i 0 in
    let kind = at 0 in
    let gen = rd32 (at 1) (at 2) (at 3) (at 4) in
    let idx = at 5 in
    let count = at 6 in
    let total = rd16 (at 7) (at 8) in
    let chunk = drop ring_cfg_hdr_len payload in
    if ltb (length payload) ring_cfg_hdr_len
    then (a, rejected)
    else if count == 0 || ltb ring_cfg_max_chunks count
    then (a, rejected)
    else if leb count idx
    then (a, rejected)
    else if ltb ring_cfg_buf_max total
    then (a, rejected)
    else if not (count == chunk_count total)
    then (a, rejected)
    else elim (expected_len idx count total) [
      | none ↦ (a, rejected)
      | some len ↦
          if length payload - ring_cfg_hdr_len == len
          then casm_accept a kind gen idx count total chunk now
          else (a, rejected)
    ]

-- `ring_casm_idle_expired`
unfoldable pub casm_idle_expired : Casm → ℕ → Bool
casm_idle_expired a now = a.active && ltb ring_cfg_idle_ms (sub32 now a.last_ms)
