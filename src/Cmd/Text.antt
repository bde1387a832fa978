-- ===== src/Cmd/Text.antt =====
-- components/cmd_core/cmd_tok.c, and the `strtol` of the C library it stands on.
use hill_grov.Base.{
  Bool, List, Option, [], false, if◌then◌else◌, leb, length, max, min, neg, none, pos, some, suc,
  true, zero, ℕ, ℤ, ◌&&◌, ◌*◌, ◌++◌, ◌+◌, ◌-◌, ◌==◌, ◌^◌, ◌||◌, ◌∷◌,
}

abbrev is_lower : ℕ → Bool
is_lower c = leb b'a' c && leb c b'z'

-- The upper case of an ASCII letter
abbrev pub upper : ℕ → ℕ
upper c = if is_lower c then c - 32 else c

-- `cmd_ci_eq`
unfoldable pub cmd_ci_eq : List ℕ → List ℕ → Bool
cmd_ci_eq [] [] = true
cmd_ci_eq [] (b ∷ bs) = false
cmd_ci_eq (a ∷ xs) [] = false
cmd_ci_eq (a ∷ xs) (b ∷ bs) = upper a == upper b && cmd_ci_eq xs bs

abbrev pub is_blank : ℕ → Bool
is_blank c = c == b' ' || c == b'\t'

-- One token in front of those of the rest, if there are any to be had
abbrev pub and_then : List ℕ → Option (List (List ℕ)) → Option (List (List ℕ))
and_then word none = none
and_then word (some words) = some (word ∷ words)

-- The loop of `cmd_tokenize`: with `none` it skips blanks and `room` tokens may still come, with
-- `some word` it is in the token that began with `word`.
unfoldable pub scan_tokens : ℕ → Option (List ℕ) → List ℕ → Option (List (List ℕ))
scan_tokens room none [] = some []
scan_tokens room (some word) [] = some (word ∷ [])
scan_tokens room none (c ∷ line) = elim (is_blank c) [
  | true ↦ scan_tokens room none line
  | false ↦ elim room [ zero ↦ none | suc left ↦ scan_tokens left (some (c ∷ [])) line ]
]
scan_tokens room (some word) (c ∷ line) = elim (is_blank c) [
  | true ↦ and_then word (scan_tokens room none line)
  | false ↦ scan_tokens room (some (word ++ c ∷ [])) line
]

-- `cmd_tokenize`: `none` is its -1
unfoldable pub cmd_tokenize : List ℕ → ℕ → Option (List (List ℕ))
cmd_tokenize line max = scan_tokens max none line

-- `isspace`
abbrev is_space : ℕ → Bool
is_space c = c == b' ' || leb 9 c && leb c 13

-- The value of a digit in the bases up to 16; 99 is no digit.
abbrev pub digit_of : ℕ → ℕ
digit_of c =
    if leb b'0' c && leb c b'9'
    then c - b'0'
    else if leb b'a' c && leb c b'f'
    then c - b'a' + 10
    else if leb b'A' c && leb c b'F'
    then c - b'A' + 10
    else 99

abbrev pub is_digit : ℕ → ℕ → Bool
is_digit base c = leb (suc (digit_of c)) base

unfoldable pub skip_spaces : List ℕ → List ℕ
skip_spaces [] = []
skip_spaces (c ∷ s) = elim (is_space c) [ true ↦ skip_spaces s | false ↦ c ∷ s ]

-- The digits from here on, on top of `n`, and what follows them
unfoldable pub digits_from : ℕ → ℕ → List ℕ → ℕ × List ℕ
digits_from base n [] = (n, [])
digits_from base n (c ∷ s) = elim (is_digit base c) [
  | true ↦ digits_from base (n * base + digit_of c) s
  | false ↦ (n, c ∷ s)
]

-- A `0x` in front of a hexadecimal digit
unfoldable pub skip_prefix : ℕ → List ℕ → List ℕ
skip_prefix base (c ∷ x ∷ d ∷ s) =
    if base == 16 && (c == b'0' && ((x == b'x' || x == b'X') && is_digit 16 d))
    then d ∷ s
    else c ∷ x ∷ d ∷ s
skip_prefix base s = s

-- The number without its sign: `none` when there is no digit
unfoldable pub magnitude : ℕ → List ℕ → Option (ℕ × List ℕ)
unfolding digits_from
magnitude base [] = none
magnitude base (c ∷ s) = if is_digit base c then some (digits_from base 0 (c ∷ s)) else none

-- A `long` has 32 bits on the target; `strtol` saturates.
unfoldable pub strtol : ℕ → List ℕ → Option (ℤ × List ℕ)
unfolding skip_prefix magnitude skip_spaces
strtol base s = signed (skip_spaces s)
  where
    positive : Option (ℕ × List ℕ) → Option (ℤ × List ℕ)
    positive none = none
    positive (some (n, rest)) = some (pos (min n (2 ^ 31 - 1)), rest)

    negative : Option (ℕ × List ℕ) → Option (ℤ × List ℕ)
    negative none = none
    negative (some (n, rest)) = some (neg (min n (2 ^ 31)), rest)

    unsigned : List ℕ → Option (ℕ × List ℕ)
    unsigned t = magnitude base (skip_prefix base t)

    signed : List ℕ → Option (ℤ × List ℕ)
    signed [] = none
    signed (c ∷ t) =
        if c == b'-'
        then negative (unsigned t)
        else if c == b'+'
        then positive (unsigned t)
        else positive (unsigned (c ∷ t))

-- What stands before the first colon and what after it, if there is one
unfoldable pub at_colon : List ℕ → Option (List ℕ × List ℕ)
at_colon [] = none
at_colon (c ∷ s) =
    if c == b':'
    then some ([], s)
    else elim (at_colon s) [ none ↦ none | some (before, after) ↦ some (c ∷ before, after) ]

-- A number that a C text holds whole, from 0 to `most`
unfoldable pub whole_number : ℕ → Option (ℤ × List ℕ) → ℕ → Option ℕ
whole_number left none most = none
whole_number left (some (pos v, rest)) most =
    if length rest == left && leb v most then some v else none
whole_number left (some (n, rest)) most = none

-- The minutes of an hour and a minute, if both were read
abbrev pub time_of : Option ℕ → Option ℕ → Option ℕ
time_of none m = none
time_of (some h) none = none
time_of (some h) (some m) = some (h * 60 + m)

unfoldable pub time_at : List ℕ → Option (List ℕ × List ℕ) → Option ℕ
time_at s none = whole_number 0 (strtol 10 s) 1439
time_at s (some ([], after)) = none
time_at s (some (b ∷ before, after)) =
    if length after == 2
    then time_of (whole_number (suc (length after)) (strtol 10 s) 23)
        (whole_number 0 (strtol 10 after) 59)
    else none

-- `cmd_parse_time`: `none` is its -1. The hour's `strtol` reads on from the text's beginning and must
-- stop at the colon.
unfoldable pub cmd_parse_time : List ℕ → Option ℕ
unfolding time_at
cmd_parse_time s = time_at s (at_colon s)
