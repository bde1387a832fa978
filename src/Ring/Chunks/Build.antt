-- ===== src/Ring/Chunks/Build.antt =====
-- A chunk that was built is one that the reassembler accepts, with the header that was given.
use hill_grov.Base.{
  List, arith, drop, le16, le32, length, length-drop, length-take, rd16-le16, rd32-le32, some, take,
  u16, u8, ℕ, ◌*◌, ◌++◌, ◌<◌, ◌∷◌, ◌≡◌, ◌≤◌,
}
use hill_grov.Ring.Chunks.{
  chunk_count, chunk_data_len, chunk_build, expected_len, Casm, casm_feed, casm_accept,
}

-- A blob that fits, and a generation number.
pub record IsBlob (gen : ℕ) (blob : List ℕ) : Type 0 where
  pub pos : 0 < length blob
  pub fits : length blob ≤ 768
  pub gen_fits : gen < 4294967296

-- The data of one chunk.
abbrev pub chunk_data : List ℕ → ℕ → List ℕ
chunk_data blob idx = take (chunk_data_len (length blob) idx) (drop (idx * 112) blob)

abbrev pub chunk_header : ℕ → ℕ → List ℕ → ℕ → List ℕ
chunk_header kind gen blob idx =
    kind ∷ le32 gen ++ idx ∷ u8 (chunk_count (length blob)) ∷ le16 (u16 (length blob))

abbrev pub chunk : ℕ → ℕ → List ℕ → ℕ → List ℕ
chunk kind gen blob idx = chunk_header kind gen blob idx ++ chunk_data blob idx

pub chunk_count_bounds : (n : ℕ) → 0 < n → n ≤ 768 → (0 < chunk_count n) × (chunk_count n ≤ 7)
unfolding chunk_count
chunk_count_bounds n p h = (omega arith, omega arith)

pub length-chunk_data :
    (blob : List ℕ) (idx : ℕ) → length (chunk_data blob idx) ≡ chunk_data_len (length blob) idx
unfolding chunk_data_len
length-chunk_data blob idx = ground (
  arith,
  length-take (chunk_data_len (length blob) idx) (drop (idx * 112) blob),
  length-drop (idx * 112) blob,
)

-- Every chunk of a blob that fits is built, in a buffer of 121 bytes.
pub chunk_build-chunk :
    (kind gen idx cap : ℕ) (blob : List ℕ)
    → IsBlob gen blob
    → idx < chunk_count (length blob)
    → 121 ≤ cap
    → chunk_build kind gen blob idx cap ≡ some (chunk kind gen blob idx)
unfolding chunk_build chunk_data_len
chunk_build-chunk kind gen idx cap blob v lt c = ground arith

expected_len-chunk :
    (n idx : ℕ)
    → 0 < n
    → n ≤ 768
    → idx < chunk_count n
    → expected_len idx (chunk_count n) n ≡ some (chunk_data_len n idx)
unfolding expected_len chunk_data_len chunk_count
expected_len-chunk n idx p h lt = ground arith

-- The reassembler reads the header back and gets through all its tests.
pub casm_feed-chunk :
    (a : Casm) (kind gen idx now : ℕ) (blob : List ℕ)
    → IsBlob gen blob
    → idx < chunk_count (length blob)
    → casm_feed a (chunk kind gen blob idx) now
      ≡ casm_accept a kind gen idx
          (chunk_count (length blob))
          (length blob)
          (chunk_data blob idx)
          now
unfolding casm_feed
casm_feed-chunk a kind gen idx now blob v lt =
    let n = length blob in
    ground (
      arith,
      rd32-le32 gen,
      rd16-le16 n,
      chunk_count_bounds n v.pos v.fits,
      expected_len-chunk n idx v.pos v.fits lt,
      length-chunk_data blob idx,
    )
