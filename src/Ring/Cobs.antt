-- ===== src/Ring/Cobs.antt =====
-- components/ring_proto/ring_cobs.c: byte stuffing, so that a frame holds no zero byte.
pub mod Blocks
pub mod RoundTrip
use hill_grov.Base.{
  List, Option, [], false, if◌then◌else◌, length, ltb, none, set, some, suc, true, u8, zero, ℕ,
  ◌++◌, ◌+◌, ◌-◌, ◌==◌, ◌>>=◌, ◌∷◌,
}

-- The locals of `ring_cobs_encode`; `out_idx` is the length of `out`. A code byte that is only
-- reserved stands as 0 in the list: it is written before the function returns.
pub record Encoder : Type 0 where
  pub out : List ℕ
  pub code_pos : ℕ
  pub count : ℕ

-- `out[code_pos] = code; code_pos = out_idx++; count = 0;`
unfoldable pub close_block : Encoder → ℕ → Encoder
close_block e code = record {
  out = set e.out e.code_pos code ++ 0 ∷ [];
  code_pos = length e.out;
  count = 0;
}

-- The body of the loop at one input byte.
unfoldable pub encode_byte : Encoder → ℕ → Encoder
encode_byte e byte =
    if byte == 0
    then close_block e (u8 (e.count + 1))
    else let e' = record e { out = e.out ++ byte ∷ []; count = u8 (e.count + 1) } in
      if e'.count == 254 then close_block e' 0xff else e'

unfoldable pub encode_loop : Encoder → List ℕ → Encoder
encode_loop e [] = e
encode_loop e (byte ∷ rest) = encode_loop (encode_byte e byte) rest

-- `ring_cobs_encode`
unfoldable pub encode : List ℕ → List ℕ
encode xs =
    let e = encode_loop (record { out = 0 ∷ []; code_pos = 0; count = 0 }) xs in
    set e.out e.code_pos (u8 (e.count + 1))

-- The inner loop of `ring_cobs_decode`: it appends `k` bytes of the input to `out`, and fails at a
-- zero. The list is `in[in_idx..n)`; the result is the rest of it and `out`.
unfoldable pub copy : ℕ → List ℕ → List ℕ → Option (List ℕ × List ℕ)
copy zero rest out = some (rest, out)
copy (suc k) [] out = none
copy (suc k) (byte ∷ rest) out = elim (byte == 0) [
  | true ↦ none
  | false ↦ copy k rest (out ++ byte ∷ [])
]

-- `if (code < 0xFF && in_idx < n) out[out_idx++] = 0;`
unfoldable pub implicit_zero : ℕ → List ℕ → List ℕ → List ℕ
implicit_zero code [] out = out
implicit_zero code (_ ∷ _) out = if ltb code 0xff then out ++ 0 ∷ [] else out

-- The outer loop, with fuel for its rounds; `none` is -1.
unfoldable pub decode_loop : ℕ → List ℕ → List ℕ → Option (List ℕ)
decode_loop fuel [] out = some out
decode_loop zero (code ∷ rest) out = none
decode_loop (suc fuel) (code ∷ rest) out =
    let block = (do
      (rest', out') ← copy (code - 1) rest out
      decode_loop fuel rest' (implicit_zero code rest' out')) in
    if code == 0 then none else if ltb (length rest) (code - 1) then none else block

-- `ring_cobs_decode`: every round takes at least the code byte.
unfoldable pub decode : List ℕ → Option (List ℕ)
decode xs = decode_loop (length xs) xs []
