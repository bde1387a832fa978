-- ===== src/Ring/Cobs/Blocks.antt =====
-- The encoder's single pass, which goes back to fill in code bytes, against a description of its
-- output block by block.
use hill_grov.Base.{
  Bool-cases, List, [], ap, append_assoc, arith, false, if◌then◌else◌, inl, inr, length,
  length-append, set, set-append_right, sym, true, u8, ℕ, ◌++◌, ◌+◌, ◌<◌, ◌==◌, ◌∙◌, ◌∷◌, ◌≡◌,
}
use hill_grov.Ring.Cobs.{Encoder, close_block, encode_byte, encode_loop, encode}

-- The output for the input `block ++ xs`, where the bytes of `block` are not zero.
unfoldable pub blocks : List ℕ → List ℕ → List ℕ
blocks block [] = (length block + 1) ∷ block
blocks block (x ∷ xs) =
    let whole = 0xff ∷ block ++ x ∷ blocks [] xs in
    let ended = (length block + 1) ∷ block ++ blocks [] xs in
    let longer = blocks (block ++ x ∷ []) xs in
    if x == 0 then ended else if length block + 1 == 254 then whole else longer

abbrev finish : Encoder → List ℕ
finish e = set e.out e.code_pos (u8 (e.count + 1))

-- The encoder in the middle of a block, with `pre` behind it.
abbrev within : List ℕ → List ℕ → Encoder
within pre block = record { out = pre ++ 0 ∷ block; code_pos = length pre; count = length block }

close_block-within :
    (pre block : List ℕ) (c : ℕ) → close_block (within pre block) c ≡ within (pre ++ c ∷ block) []
unfolding close_block
close_block-within pre block c = λ i. record {
  out = set-append_right pre block 0 c i ++ 0 ∷ [];
  code_pos = same_length i;
  count = 0;
}
  where
    same_length : length (pre ++ 0 ∷ block) ≡ length (pre ++ c ∷ block)
    same_length = omega (arith, length-append pre (0 ∷ block), length-append pre (c ∷ block))

abbrev grown : List ℕ → List ℕ → ℕ → Encoder
grown pre block x = record {
  out = (pre ++ 0 ∷ block) ++ x ∷ [];
  code_pos = length pre;
  count = u8 (length block + 1);
}

grown-within :
    (pre block : List ℕ) (x : ℕ)
    → length block < 254
    → grown pre block x ≡ within pre (block ++ x ∷ [])
grown-within pre block x h = λ i. record {
  out = append_assoc pre (0 ∷ block) (x ∷ []) i;
  code_pos = length pre;
  count = same_count i;
}
  where
    same_count : u8 (length block + 1) ≡ length (block ++ x ∷ [])
    same_count = omega (arith, length-append block (x ∷ []))

encode_byte-zero :
    (pre block : List ℕ) (x : ℕ)
    → length block < 254
    → (x == 0) ≡ true
    → encode_byte (within pre block) x ≡ within (pre ++ (length block + 1) ∷ block) []
unfolding encode_byte
encode_byte-zero pre block x h z = rw z (rw count (close_block-within pre block (length block + 1)))
  where
    count : u8 (length block + 1) ≡ length block + 1
    count = omega arith

encode_byte-grows :
    (pre block : List ℕ) (x : ℕ)
    → length block < 254
    → (x == 0) ≡ false
    → (length block + 1 == 254) ≡ false
    → encode_byte (within pre block) x ≡ within pre (block ++ x ∷ [])
unfolding encode_byte
encode_byte-grows pre block x h z f =
    rw (z, count, f)
      (ap (λ c. record (grown pre block x) { count = c }) (sym count) ∙ grown-within pre block x h)
  where
    count : u8 (length block + 1) ≡ length block + 1
    count = omega arith

encode_byte-full :
    (pre block : List ℕ) (x : ℕ)
    → length block < 254
    → (x == 0) ≡ false
    → (length block + 1 == 254) ≡ true
    → encode_byte (within pre block) x ≡ within (pre ++ (0xff ∷ block ++ x ∷ [])) []
unfolding encode_byte
encode_byte-full pre block x h z f =
    rw (z, count, f)
      (ap (λ c. close_block (record (grown pre block x) { count = c }) 0xff) (sym count)
        ∙ ap (λ e. close_block e 0xff) (grown-within pre block x h)
        ∙ close_block-within pre (block ++ x ∷ []) 0xff)
  where
    count : u8 (length block + 1) ≡ length block + 1
    count = omega arith

-- The pass over `xs`, seen from the middle of a block, appends what the description says.
encode_loop-blocks :
    (pre block xs : List ℕ)
    → length block < 254
    → finish (encode_loop (within pre block) xs) ≡ pre ++ blocks block xs
unfolding encode_loop blocks
encode_loop-blocks pre block [] h =
    set-append_right pre block 0 (u8 (length block + 1)) ∙ ap (λ c. pre ++ c ∷ block) (omega arith)
encode_loop-blocks pre block (x ∷ xs) h = elim (Bool-cases (x == 0)) [
  | inl z ↦ rw z (
      ap (λ e. finish (encode_loop e xs)) (encode_byte-zero pre block x h z)
      ∙ encode_loop-blocks (pre ++ (length block + 1) ∷ block) [] xs (omega arith)
      ∙ append_assoc pre ((length block + 1) ∷ block) (blocks [] xs))
  | inr z ↦ elim (Bool-cases (length block + 1 == 254)) [
    | inl f ↦
        rw (z, f)
          (ap (λ e. finish (encode_loop e xs)) (encode_byte-full pre block x h z f)
            ∙ encode_loop-blocks (pre ++ (0xff ∷ block ++ x ∷ [])) [] xs (omega arith)
            ∙ append_assoc pre (0xff ∷ block ++ x ∷ []) (blocks [] xs)
            ∙ ap (λ r. pre ++ 0xff ∷ r) (append_assoc block (x ∷ []) (blocks [] xs)))
    | inr f ↦
        rw (z, f)
          (ap (λ e. finish (encode_loop e xs)) (encode_byte-grows pre block x h z f)
            ∙ encode_loop-blocks pre (block ++ x ∷ []) xs (short f))
  ]
]
  where
    short : (length block + 1 == 254) ≡ false → length (block ++ x ∷ []) < 254
    short f = ground (arith, length-append block (x ∷ []))

-- `ring_cobs_encode` writes the blocks of its input.
pub encode-blocks : (xs : List ℕ) → encode xs ≡ blocks [] xs
unfolding encode
encode-blocks xs = encode_loop-blocks [] [] xs (omega arith)
