-- ===== src/Ring/Chunks/Gathered.antt =====
-- What a reassembler holds when some of the chunks of one blob have arrived.
use hill_grov.Base.{
  All, Bool, List, [], all_below, all_below_sound, ap, arith, drop, false, get_or, get_or-drop,
  get_or-take, get_or_ext, if◌then◌else◌, inl, inr, length, length-replicate, length-take, refl,
  subst, take, true, u8, ℕ, ℕ-cases, ◌%◌, ◌*◌, ◌+◌, ◌-◌, ◌/◌, ◌<◌, ◌==◌, ◌^◌, ◌||◌, ◌∙◌, ◌∷◌, ◌≡◌,
  ◌≤◌,
}
use hill_grov.Ring.Chunks.{chunk_count, chunk_data_len, Casm, casm_start, casm_store, write_at}
use hill_grov.Ring.Chunks.Build.{IsBlob, chunk_data, length-chunk_data, chunk_count_bounds}
use hill_grov.Ring.Chunks.Copy.{
  length-write_at, get_or-write_at_before, get_or-write_at_after, get_or-write_at_within,
}
use hill_grov.Ring.Chunks.Mask.{bit, bit-set, set-lt, all_below_ext, full-mask}

abbrev contains : ℕ → List ℕ → Bool
contains i [] = false
contains i (x ∷ xs) = x == i || contains i xs

digit_one : (b : Bool) → ((if b then 1 else 0) == 1) ≡ b
digit_one true = refl
digit_one false = refl

module _ (kind gen : ℕ) (blob : List ℕ) (blob_ok : IsBlob gen blob) where
  abbrev total : ℕ
  total = length blob

  abbrev count : ℕ
  count = chunk_count total

  -- The state in the middle of this transfer, when the chunks `seen` have arrived.
  pub record Gathered (a : Casm) (seen : List ℕ) : Type 0 where
    pub active : a.active ≡ true
    pub same_kind : a.kind ≡ kind
    pub same_gen : a.gen ≡ gen
    pub same_count : a.count ≡ count
    pub same_total : a.total ≡ total
    size : length a.buf ≡ 768
    mask_lt : a.got_mask < 128
    mask : (j : ℕ) → j < 7 → bit a.got_mask j ≡ (if contains j seen then 1 else 0)
    stored :
        (j k : ℕ)
        → contains j seen ≡ true
        → k < chunk_data_len total j
        → get_or a.buf (j * 112 + k) 0 ≡ get_or blob (j * 112 + k) 0

  pub start-Gathered : (a : Casm) → Gathered (casm_start a kind gen count total) []
  unfolding casm_start
  start-Gathered a = record {
    active = refl;
    same_kind = refl;
    same_gen = refl;
    same_count = refl;
    same_total = refl;
    size = length-replicate {A = ℕ} 768 0;
    mask_lt = omega arith;
    mask = λ j lt. omega arith;
    stored = λ j k h lt. absurd (ground arith);
  }

  abbrev stored_at : Casm → ℕ → List ℕ
  stored_at a i = write_at a.buf (i * 112) (chunk_data blob i)

  chunk_data_len_bounds :
      (i : ℕ)
      → i < count
      → (i * 112 + chunk_data_len total i ≤ total) × (chunk_data_len total i ≤ 112)
  unfolding chunk_data_len chunk_count
  chunk_data_len_bounds i lt = (ground arith, ground arith)

  chunk_data_len_le : (j : ℕ) → chunk_data_len total j ≤ 112
  unfolding chunk_data_len
  chunk_data_len_le j = ground arith

  get_or-chunk_data :
      (i k : ℕ)
      → k < chunk_data_len total i
      → get_or (chunk_data blob i) k 0 ≡ get_or blob (i * 112 + k) 0
  get_or-chunk_data i k lt =
      get_or-take (chunk_data_len total i) (drop (i * 112) blob) k 0 lt
      ∙ get_or-drop (i * 112) blob k 0

  -- The buffer after one more chunk.
  get_or-stored_at :
      (a : Casm) (seen : List ℕ) (i j k : ℕ)
      → Gathered a seen
      → i < count
      → contains j (i ∷ seen) ≡ true
      → k < chunk_data_len total j
      → get_or (stored_at a i) (j * 112 + k) 0 ≡ get_or blob (j * 112 + k) 0
  get_or-stored_at a seen i j k g lt h kl = elim (ℕ-cases j i) [
    | inl below ↦
        get_or-write_at_before a.buf (i * 112) (chunk_data blob i) (j * 112 + k)
          (omega (arith, chunk_data_len_le j))
        ∙ g.stored j k (ground arith) kl
    | inr (inl same) ↦ rw same (
        get_or-write_at_within a.buf (i * 112) (chunk_data blob i) k room
          (rw length-chunk_data (rw same at kl))
        ∙ get_or-chunk_data i k (rw same at kl))
    | inr (inr above) ↦
        get_or-write_at_after a.buf (i * 112) (chunk_data blob i) (j * 112 + k)
          (omega (arith, length-chunk_data blob i, chunk_data_len_le i))
        ∙ g.stored j k (ground arith) kl
  ]
    where
      room : i * 112 + length (chunk_data blob i) ≤ length a.buf
      room =
          omega (arith, length-chunk_data blob i, chunk_data_len_bounds i lt, g.size, blob_ok.fits)

  -- One more chunk, wherever it stands in the blob and whether or not it was there before.
  pub store-Gathered :
      (a : Casm) (seen : List ℕ) (i now : ℕ)
      → Gathered a seen
      → i < count
      → Gathered (casm_store a i (chunk_data blob i) now).0 (i ∷ seen)
  unfolding casm_store
  store-Gathered a seen i now g lt = record {
    active = g.active;
    same_kind = g.same_kind;
    same_gen = g.same_gen;
    same_count = g.same_count;
    same_total = g.same_total;
    size = length-write_at a.buf (i * 112) (chunk_data blob i) ∙ g.size;
    mask_lt = set-lt a.got_mask i g.mask_lt small;
    mask = λ j hj. bit-set a.got_mask i j g.mask_lt small hj ∙ ground (arith, g.mask j hj);
    stored = λ j k h kl. get_or-stored_at a seen i j k g lt h kl;
  }
    where
      small : i < 7
      small = omega (arith, chunk_count_bounds total blob_ok.pos blob_ok.fits)

  -- Every chunk of the blob has arrived.
  abbrev pub covered : List ℕ → Bool
  covered seen = all_below count (λ i. contains i seen)

  -- No chunk beyond the last.
  abbrev pub InRange : List ℕ → Type 0
  InRange seen = All (λ i. i < count) seen

  contains-lt : (seen : List ℕ) (i : ℕ) → InRange seen → contains i seen ≡ true → i < count
  contains-lt [] i r h = absurd (ground arith)
  contains-lt (x ∷ seen) i r h = ground (arith, r.0, contains-lt seen i r.1)

  pub full-covered :
      (a : Casm) (seen : List ℕ)
      → Gathered a seen
      → InRange seen
      → (a.got_mask == u8 (2 ^ a.count - 1)) ≡ covered seen
  full-covered a seen g r = rw g.same_count (
      full-mask count a.got_mask (omega (arith, bounds)) g.mask_lt high
      ∙ all_below_ext count (λ i. bit a.got_mask i == 1) (λ i. contains i seen) agree)
    where
      bounds : (0 < count) × (count ≤ 7)
      bounds = chunk_count_bounds total blob_ok.pos blob_ok.fits

      high : (i : ℕ) → i < 7 → count ≤ i → bit a.got_mask i ≡ 0
      high i lt le = ground (arith, g.mask i lt, contains-lt seen i r)

      agree : (i : ℕ) → i < count → (bit a.got_mask i == 1) ≡ contains i seen
      agree i lt =
          ap (λ t. t == 1) (g.mask i (omega (arith, lt, bounds))) ∙ digit_one (contains i seen)

  pub Gathered-blob :
      (a : Casm) (seen : List ℕ) → Gathered a seen → covered seen ≡ true → take a.total a.buf ≡ blob
  Gathered-blob a seen g all = rw g.same_total (
      get_or_ext 0 (take total a.buf) blob
        (omega (arith, length-take total a.buf, g.size, blob_ok.fits))
        (λ k lt. get_or-take total a.buf k 0 (below k lt) ∙ at k (below k lt)))
    where
      below : (k : ℕ) → k < length (take total a.buf) → k < total
      below k lt = omega (arith, length-take total a.buf)

      in_chunk :
          (k : ℕ) → k < total → (k / 112 < count) × (k % 112 < chunk_data_len total (k / 112))
      in_chunk k lt = unfold chunk_count chunk_data_len in (omega arith, ground arith)

      at : (k : ℕ) → k < total → get_or a.buf k 0 ≡ get_or blob k 0
      at k lt =
          let (lo, hi) = in_chunk k lt in
          let e : k / 112 * 112 + k % 112 ≡ k = omega arith in
          subst (λ t. get_or a.buf t 0 ≡ get_or blob t 0) e
            (g.stored (k / 112) (k % 112)
              (all_below_sound count (λ i. contains i seen) (k / 112) all lo) hi)
