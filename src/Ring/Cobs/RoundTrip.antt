-- ===== src/Ring/Cobs/RoundTrip.antt =====
-- What ring_cobs.c promises its callers: delimiters stay unambiguous, the output fits the buffer
-- that ring_proto.h states, and decoding gives the input back.
use hill_grov.Base.{
  ==_iff, All, All-append, Bool-cases, List, [], ap, append-nil, append_assoc, ap₂, arith, false,
  if◌then◌else◌, inl, inr, length, length-append, ltb, lt→ltb, refl, some, suc, sym, true, zero, ℕ,
  ◌++◌, ◌+◌, ◌-◌, ◌/◌, ◌<◌, ◌==◌, ◌∙◌, ◌∷◌, ◌≡◌, ◌≢◌, ◌≤◌,
}
use native.Mathlib.Nat.{zero-add}
use hill_grov.Ring.Cobs.{copy, implicit_zero, decode_loop, encode, decode}
use hill_grov.Ring.Cobs.Blocks.{blocks, encode-blocks}

abbrev pub NonZero : ℕ → Type 0
NonZero b = b ≢ 0

blocks-NonZero : (block xs : List ℕ) → All NonZero block → All NonZero (blocks block xs)
unfolding blocks
blocks-NonZero block [] h = ((λ e. omega arith), h)
blocks-NonZero block (x ∷ xs) h = elim (Bool-cases (x == 0)) [
  | inl z ↦
      rw z ((λ e. omega arith), All-append NonZero block (blocks [] xs) h (blocks-NonZero [] xs tt))
  | inr z ↦ elim (Bool-cases (length block + 1 == 254)) [
    | inl f ↦
        rw (z, f)
          (
            (λ e. omega arith),
            All-append NonZero block (x ∷ blocks [] xs) h (nonzero z, blocks-NonZero [] xs tt),
          )
    | inr f ↦
        rw (z, f)
          (blocks-NonZero (block ++ x ∷ []) xs
            (All-append NonZero block (x ∷ []) h (nonzero z, tt)))
  ]
]
  where
    nonzero : (x == 0) ≡ false → NonZero x
    nonzero z e = ground arith

length-blocks :
    (block xs : List ℕ)
    → length block < 254
    → length (blocks block xs) ≤ length block + length xs + (length block + length xs) / 254 + 1
unfolding blocks
length-blocks block [] h = omega arith
length-blocks block (x ∷ xs) h = elim (Bool-cases (x == 0)) [
  | inl z ↦
      rw z (omega (arith, length-append block (blocks [] xs), length-blocks [] xs (omega arith)))
  | inr z ↦ elim (Bool-cases (length block + 1 == 254)) [
    | inl f ↦
        rw (z, f)
          (omega (
            arith,
            (==_iff (length block + 1) 254).0 f,
            length-append block (x ∷ blocks [] xs),
            length-blocks [] xs (omega arith),
          ))
    | inr f ↦
        rw (z, f)
          (omega
            (arith, length-append block (x ∷ []), length-blocks (block ++ x ∷ []) xs (short f)))
  ]
]
  where
    short : (length block + 1 == 254) ≡ false → length (block ++ x ∷ []) < 254
    short f = ground (arith, length-append block (x ∷ []))

copy-block :
    (block rest out : List ℕ)
    → All NonZero block
    → copy (length block) (block ++ rest) out ≡ some (rest, out ++ block)
unfolding copy
copy-block [] rest out h = rw append-nil
copy-block (b ∷ block) rest out h =
    ground (arith, h.0, copy-block block rest (out ++ b ∷ []) h.1, append_assoc out (b ∷ []) block)

decode_loop-block :
    (fuel : ℕ) (block rest out : List ℕ)
    → All NonZero block
    → decode_loop (suc fuel) ((length block + 1) ∷ (block ++ rest)) out
      ≡ decode_loop fuel rest (implicit_zero (length block + 1) rest (out ++ block))
unfolding decode_loop
decode_loop-block fuel block rest out h =
    let e : length block + 1 - 1 ≡ length block = omega arith in
    let z : (length block + 1 == 0) ≡ false = ground arith in
    let l : ltb (length (block ++ rest)) (length block) ≡ false =
      ground (arith, length-append block rest) in
    rw (e, z, l, copy-block block rest out h)

blocks-cons : (block xs : List ℕ) → (c : ℕ) × (cs : List ℕ) × (blocks block xs ≡ c ∷ cs)
unfolding blocks
blocks-cons block [] = (length block + 1, block, refl)
blocks-cons block (x ∷ xs) = elim (Bool-cases (x == 0)) [
  | inl z ↦ (length block + 1, block ++ blocks [] xs, rw z)
  | inr z ↦ elim (Bool-cases (length block + 1 == 254)) [
    | inl f ↦ (0xff, block ++ x ∷ blocks [] xs, rw (z, f))
    | inr f ↦ let (c, cs, e) = blocks-cons (block ++ x ∷ []) xs in (c, cs, rw (z, f) e)
  ]
]

-- Before more input the decoder writes the zero that ended a block, and none after a full one.
implicit_zero-blocks :
    (code : ℕ) (xs out : List ℕ)
    → implicit_zero code (blocks [] xs) out ≡ (if ltb code 0xff then out ++ 0 ∷ [] else out)
unfolding implicit_zero
implicit_zero-blocks code xs out = let (c, cs, e) = blocks-cons [] xs in rw e

implicit_zero-ended :
    (fuel : ℕ) (block xs out : List ℕ)
    → length block < 254
    → decode_loop fuel
        (blocks [] xs)
        (implicit_zero (length block + 1) (blocks [] xs) (out ++ block))
      ≡ decode_loop fuel (blocks [] xs) ((out ++ block) ++ 0 ∷ [])
implicit_zero-ended fuel block xs out lt =
    ap (decode_loop fuel (blocks [] xs))
      (implicit_zero-blocks (length block + 1) xs (out ++ block) ∙ small)
  where
    small :
        (if ltb (length block + 1) 0xff then (out ++ block) ++ 0 ∷ [] else out ++ block)
        ≡ (out ++ block) ++ 0 ∷ []
    small = rw (lt→ltb (length block + 1) 0xff (omega arith))

decode_loop-nil : (fuel : ℕ) (out : List ℕ) → decode_loop fuel [] out ≡ some out
unfolding decode_loop
decode_loop-nil zero out = refl
decode_loop-nil (suc fuel) out = refl

decode_loop-blocks :
    (fuel : ℕ) (block xs out : List ℕ)
    → All NonZero block
    → length block < 254
    → length (blocks block xs) ≤ fuel
    → decode_loop fuel (blocks block xs) out ≡ some (out ++ (block ++ xs))
unfolding blocks implicit_zero
decode_loop-blocks zero block xs out h lt f =
    let (c, cs, e) = blocks-cons block xs in absurd (omega (arith, ap length e))
decode_loop-blocks (suc fuel) block [] out h lt f =
    ap (λ b. decode_loop (suc fuel) ((length block + 1) ∷ b) out) (sym (append-nil block))
    ∙ decode_loop-block fuel block [] out h
    ∙ decode_loop-nil fuel (out ++ block)
    ∙ ap (λ b. some (out ++ b)) (sym (append-nil block))
decode_loop-blocks (suc fuel) block (x ∷ xs) out h lt f = elim (Bool-cases (x == 0)) [
  | inl z ↦ rw z (
      decode_loop-block fuel block (blocks [] xs) out h
      ∙ implicit_zero-ended fuel block xs out lt
      ∙ decode_loop-blocks fuel [] xs ((out ++ block) ++ 0 ∷ []) tt (omega arith) (ended_fits z)
      ∙ ap some (
          append_assoc (out ++ block) (0 ∷ []) xs
          ∙ append_assoc out block (0 ∷ xs)
          ∙ ap (λ y. out ++ (block ++ y ∷ xs)) (sym ((==_iff x 0).0 z))))
  | inr z ↦ elim (Bool-cases (length block + 1 == 254)) [
    | inl full ↦
        rw (z, full)
          (ap (λ c. decode_loop (suc fuel) c out) (whole_block full)
            ∙ decode_loop-block fuel (block ++ x ∷ []) (blocks [] xs) out (longer z)
            ∙ ap (decode_loop fuel (blocks [] xs)) (implicit_zero-whole full)
            ∙ decode_loop-blocks fuel [] xs (out ++ (block ++ x ∷ [])) tt (omega arith)
                (whole_fits z full)
            ∙ ap some (
                append_assoc out (block ++ x ∷ []) xs
                ∙ ap (λ r. out ++ r) (append_assoc block (x ∷ []) xs)))
    | inr room ↦
        rw (z, room)
          (decode_loop-blocks (suc fuel) (block ++ x ∷ []) xs out (longer z) (short room)
              (longer_fits z room)
            ∙ ap (λ r. some (out ++ r)) (append_assoc block (x ∷ []) xs))
  ]
]
  where
    longer : (x == 0) ≡ false → All NonZero (block ++ x ∷ [])
    longer z = All-append NonZero block (x ∷ []) h ((λ e. ground arith), tt)

    short : (length block + 1 == 254) ≡ false → length (block ++ x ∷ []) < 254
    short room = ground (arith, length-append block (x ∷ []))

    ended_fits : (x == 0) ≡ true → length (blocks [] xs) ≤ fuel
    ended_fits z =
        let g : suc (length (block ++ blocks [] xs)) ≤ suc fuel = rw z at f in
        omega (arith, length-append block (blocks [] xs))

    whole_fits : (x == 0) ≡ false → (length block + 1 == 254) ≡ true → length (blocks [] xs) ≤ fuel
    whole_fits z full =
        let g : suc (length (block ++ x ∷ blocks [] xs)) ≤ suc fuel = rw (z, full) at f in
        omega (arith, length-append block (x ∷ blocks [] xs))

    longer_fits :
        (x == 0) ≡ false
        → (length block + 1 == 254) ≡ false
        → length (blocks (block ++ x ∷ []) xs) ≤ suc fuel
    longer_fits z room = rw (z, room) at f

    whole_block :
        (length block + 1 == 254) ≡ true
        → ◌≡◌ {A = List ℕ}
            (0xff ∷ block ++ x ∷ blocks [] xs)
            ((length (block ++ x ∷ []) + 1) ∷ ((block ++ x ∷ []) ++ blocks [] xs))
    whole_block full =
        ap₂ ◌∷◌
          (omega (arith, (==_iff (length block + 1) 254).0 full, length-append block (x ∷ [])))
          (sym (append_assoc block (x ∷ []) (blocks [] xs)))

    implicit_zero-whole :
        (length block + 1 == 254) ≡ true
        → implicit_zero (length (block ++ x ∷ []) + 1) (blocks [] xs) (out ++ (block ++ x ∷ []))
          ≡ out ++ (block ++ x ∷ [])
    implicit_zero-whole full =
        let e : length (block ++ x ∷ []) + 1 ≡ 0xff =
          omega (arith, (==_iff (length block + 1) 254).0 full, length-append block (x ∷ [])) in
        rw e (implicit_zero-blocks 0xff xs (out ++ (block ++ x ∷ [])))

-- The decoder gives back what the encoder was given, whatever its bytes and its length.
pub decode-encode : (xs : List ℕ) → decode (encode xs) ≡ some xs
unfolding decode
decode-encode xs =
    rw encode-blocks
      (decode_loop-blocks (length (blocks [] xs)) [] xs [] tt (omega arith) (omega arith))

-- No byte of the encoding is zero, so that a zero on the wire is always a delimiter.
pub encode-NonZero : (xs : List ℕ) → All NonZero (encode xs)
encode-NonZero xs = rw encode-blocks (blocks-NonZero [] xs tt)

-- The encoding of n bytes takes at most n + n / 254 + 1 bytes.
pub length-encode : (xs : List ℕ) → length (encode xs) ≤ length xs + length xs / 254 + 1
length-encode xs = rw encode-blocks (rw zero-add at (length-blocks [] xs (omega arith)))

pub encode-pos : (xs : List ℕ) → 0 < length (encode xs)
encode-pos xs = let (c, cs, e) = blocks-cons [] xs in rw (encode-blocks, e) (omega arith)
