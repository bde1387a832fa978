-- ===== src/Tests/Transfer.antt =====
-- A blob of two chunks, fed out of order and with a chunk repeated.
use hill_grov.Base.{List, [], all_below, arith, refl, replicate, take, ℕ, ◌++◌, ◌∷◌, ◌≡◌}
use hill_grov.Ring.Chunks.{casm_init, chunk_count, progress}
use hill_grov.Ring.Chunks.Build.{IsBlob}
use hill_grov.Ring.Chunks.Reassembly.{feed_order, answer, fed, feed_order-answer, feed_order-blob}

abbrev blob : List ℕ
blob = replicate 112 7 ++ 1 ∷ 2 ∷ 3 ∷ []

blob-IsBlob : IsBlob 9 blob
blob-IsBlob = record { pos = omega arith; fits = omega arith; gen_fits = omega arith }

abbrev order : List (ℕ × ℕ)
order = (1, 20) ∷ (0, 30) ∷ []

feed_order-answer_example :
    (feed_order 1 9 blob blob-IsBlob casm_init progress ((1, 10) ∷ order)).1
    ≡ answer 1 9 blob blob-IsBlob (fed 1 9 blob blob-IsBlob ((1, 10) ∷ order) [])
feed_order-answer_example =
    feed_order-answer 1 9 blob blob-IsBlob casm_init 1 10 order refl
      (unfold chunk_count in (omega arith, (omega arith, (omega arith, tt))))

feed_order-blob_example :
    let a = (feed_order 1 9 blob blob-IsBlob casm_init progress ((1, 10) ∷ order)).0 in
    take a.total a.buf ≡ blob
feed_order-blob_example =
    feed_order-blob 1 9 blob blob-IsBlob casm_init 1 10 order refl
      (unfold chunk_count in (omega arith, (omega arith, (omega arith, tt))))
      (unfold chunk_count fed all_below in refl)
