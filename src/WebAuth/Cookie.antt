-- ===== src/WebAuth/Cookie.antt =====
-- The cookie of components/web_auth/web_auth.c: the token is read back from its hexadecimal digits.
use hill_grov.Base.{
  ==_iff, All, Bool, Byte, List, Option, [], all_below, all_below_sound, ap, append-nil,
  append_assoc, arith, bit_xor, false, if◌then◌else◌, length, none, not, refl, some, suc, sym, true,
  zero, ℕ, ◌%◌, ◌&&◌, ◌*◌, ◌++◌, ◌+◌, ◌/◌, ◌<◌, ◌==◌, ◌∙◌, ◌∷◌, ◌≡◌,
}
use hill_grov.WebAuth.{ct_eq, ct_loop, hex_digit, hex_encode, wa_token_len}
use hill_grov.WebAuth.Header.{
  after_name, byte_of, cookie_name, extract_cookie_token, first_token, hex_decode, hexval, segments,
  token_of,
}

-- A digit is read back, and is neither a blank nor the end of a segment.
is_read : ℕ → Bool
is_read n =
    elim (hexval (hex_digit n)) [ none ↦ false | some v ↦ v == n ] && not (hex_digit n == b';')

digits_table : all_below 16 is_read ≡ true
unfolding all_below is_read
digits_table = refl

read_lem :
    (o : Option ℕ) (n : ℕ) (b : Bool)
    → (elim o [ none ↦ false | some v ↦ v == n ] && b) ≡ true
    → (o ≡ some n) × (b ≡ true)
read_lem none n b h = absurd (cc)
read_lem (some v) n b h = (ap some ((==_iff v n).0 (ground (arith, h))), ground (arith, h))

digit-hexval : (n : ℕ) → n < 16 → hexval (hex_digit n) ≡ some n
unfolding is_read
digit-hexval n h =
    (read_lem (hexval (hex_digit n)) n (not (hex_digit n == b';'))
      (all_below_sound 16 is_read n digits_table h)).0

digit_plain : (n : ℕ) → n < 16 → (hex_digit n == b';') ≡ false
unfolding is_read
digit_plain n h =
    let e : not (hex_digit n == b';') ≡ true =
      (read_lem (hexval (hex_digit n)) n (not (hex_digit n == b';'))
        (all_below_sound 16 is_read n digits_table h)).1 in
    off (hex_digit n == b';') e
  where
    off : (b : Bool) → not b ≡ true → b ≡ false
    off true e = absurd (cc)
    off false e = refl

pub hex_decode-hex_encode :
    (bytes : List ℕ) → All Byte bytes → hex_decode (hex_encode bytes) ≡ some bytes
unfolding hex_decode hex_encode
hex_decode-hex_encode [] h = refl
hex_decode-hex_encode (b ∷ bytes) (hb, h) =
    let hi = digit-hexval (b / 16) (omega (arith, hb)) in
    let lo = digit-hexval (b % 16) (omega arith) in
    let rest = hex_decode-hex_encode bytes h in
    let whole : b / 16 * 16 + b % 16 ≡ b = omega arith in
    ap (λ o. byte_of o (hexval (hex_digit (b % 16))) (hex_decode (hex_encode bytes))) hi
    ∙ ap (λ o. byte_of (some (b / 16)) o (hex_decode (hex_encode bytes))) lo
    ∙ ap (byte_of (some (b / 16)) (some (b % 16))) rest
    ∙ ap (λ v. some (v ∷ bytes)) whole

hex_encode-plain :
    (bytes : List ℕ) → All Byte bytes → All (λ c. (c == b';') ≡ false) (hex_encode bytes)
unfolding hex_encode
hex_encode-plain [] h = tt
hex_encode-plain (b ∷ bytes) (hb, h) = (
  digit_plain (b / 16) (omega (arith, hb)),
  (digit_plain (b % 16) (omega arith), hex_encode-plain bytes h),
)

length-hex_encode : (bytes : List ℕ) → length (hex_encode bytes) ≡ 2 * length bytes
unfolding hex_encode
length-hex_encode [] = refl
length-hex_encode (b ∷ bytes) = omega (arith, length-hex_encode bytes)

-- A header without a semicolon is one segment.
segments-plain :
    (seg hdr : List ℕ)
    → All (λ c. (c == b';') ≡ false) hdr
    → segments (some seg) hdr ≡ (seg ++ hdr) ∷ []
unfolding segments
segments-plain seg [] h = ap (λ s. s ∷ []) (sym (append-nil seg))
segments-plain seg (c ∷ hdr) (hc, h) =
    rw (hc, segments)
      (segments-plain (seg ++ c ∷ []) hdr h ∙ ap (λ s. s ∷ []) (append_assoc seg (c ∷ []) hdr))

pub extract-cookie :
    (token : List ℕ)
    → length token ≡ wa_token_len
    → All Byte token
    → extract_cookie_token (cookie_name ++ hex_encode token) ≡ some token
unfolding extract_cookie_token first_token segments after_name token_of
extract-cookie token n h =
    let one = segments-plain cookie_name (hex_encode token) (hex_encode-plain token h) in
    let len : (length (hex_encode token) == 2 * wa_token_len) ≡ true =
      ground (arith, length-hex_encode token, n) in
    ap first_token one
    ∙ ap (λ b. if b then hex_decode (hex_encode token) else none) len
    ∙ hex_decode-hex_encode token h

-- A byte has no difference from itself.
same_table : all_below 256 (λ b. bit_xor b b == 0) ≡ true
unfolding all_below
same_table = refl

ct_loop-same : (n : ℕ) (a : List ℕ) → All Byte a → ct_loop n 0 a a ≡ 0
unfolding ct_loop
ct_loop-same zero a h = refl
ct_loop-same (suc n) [] h = ct_loop-same n [] tt
ct_loop-same (suc n) (b ∷ a) (hb, h) =
    let e : bit_xor b b ≡ 0 =
      (==_iff (bit_xor b b) 0).0 (all_below_sound 256 (λ x. bit_xor x x == 0) b same_table hb) in
    rw (e, ct_loop) (ct_loop-same n a h)

pub ct_eq_refl : (n : ℕ) (a : List ℕ) → All Byte a → ct_eq a a n ≡ true
unfolding ct_eq
ct_eq_refl n a h = rw (ct_loop-same n a h) refl
