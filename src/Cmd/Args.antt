-- ===== src/Cmd/Args.antt =====
-- components/cmd_core/cmd_dispatch.c: the row that a line names, and the reading of its arguments
-- (`match`, `parse_int_arg`, `parse_mac`, `enum_index` and the loop over the arguments).
use hill_grov.Base.{
  Bool, List, Option, [], bit_and, false, if◌then◌else◌, inl, inr, leb, length, lez, negsuc, none,
  not, pos, some, suc, true, zero, ℕ, ℤ, ◌&&◌, ◌++◌, ◌+◌, ◌==◌, ◌>>=◌, ◌∷◌, ◌⊎◌,
}
use hill_grov.Cmd.{
  Arg, ArgType, CmdEntry, Result, err, ok, bad_args, out_of_range, internal, arg_int, arg_enum,
  arg_str, arg_time, arg_mac, arg_other,
}
use hill_grov.Cmd.Text.{cmd_ci_eq, cmd_parse_time, strtol}

-- One bit of a byte or half word of flags
abbrev pub has : ℕ → ℕ → Bool
has flags bit = not (bit_and flags bit == 0)

-- The second noun of a row against the token that may be one, if one is wanted
unfoldable pub noun2_fits : Option (List ℕ) → Option (List ℕ) → Bool
noun2_fits none none = true
noun2_fits none (some n2) = false
noun2_fits (some noun) none = false
noun2_fits (some noun) (some n2) = cmd_ci_eq noun n2

abbrev pub fits : ℕ → List ℕ → Option (List ℕ) → CmdEntry → Bool
fits vbit n1 n2 e = has e.verbs vbit && (noun2_fits e.noun2 n2 && cmd_ci_eq e.noun1 n1)

-- `match`
unfoldable pub match_row : List CmdEntry → ℕ → List ℕ → Option (List ℕ) → Option CmdEntry
match_row [] vbit n1 n2 = none
match_row (e ∷ table) vbit n1 n2 = elim (fits vbit n1 n2 e) [
  | true ↦ some e
  | false ↦ match_row table vbit n1 n2
]

-- `parse_int_arg`
unfoldable pub parse_int_arg : List ℕ → Option ℤ
unfolding strtol
parse_int_arg s = all_read (strtol 10 s)
  where
    all_read : Option (ℤ × List ℕ) → Option ℤ
    all_read none = none
    all_read (some (v, [])) = some v
    all_read (some (v, c ∷ rest)) = none

-- One byte of a MAC: two characters, from 0 to 255
unfoldable pub mac_byte : List ℕ → Option (ℕ × List ℕ)
mac_byte s = two (strtol 16 s)
  where
    two : Option (ℤ × List ℕ) → Option (ℕ × List ℕ)
    two none = none
    two (some (negsuc v, rest)) = none
    two (some (pos v, rest)) =
        if length rest + 2 == length s && leb v 255 then some (v, rest) else none

-- The colon behind each byte but the last
unfoldable pub next_byte : ℕ → List ℕ → Option (List ℕ)
next_byte zero s = some s
next_byte (suc left) [] = none
next_byte (suc left) (c ∷ s) = if c == b':' then some s else none

-- The loop of `parse_mac`, with the number of bytes left to read
unfoldable pub mac_bytes : ℕ → List ℕ → Option (List ℕ)
unfolding mac_byte next_byte
mac_bytes zero [] = some []
mac_bytes zero (c ∷ s) = none
mac_bytes (suc left) s = do
  (v, rest) ← mac_byte s
  next ← next_byte left rest
  vs ← mac_bytes left next
  some (v ∷ vs)

-- `parse_mac`
unfoldable pub parse_mac : List ℕ → Option (List ℕ)
unfolding mac_bytes
parse_mac s = mac_bytes 6 s

-- The loop of `enum_index`: the place of the name that is equal to `val`, or the last place. A name of
-- 20 bytes or more is passed over.
unfoldable pub enum_scan : List ℕ → ℕ → List ℕ → List ℕ → ℕ ⊎ ℕ
unfolding cmd_ci_eq
enum_scan val idx [] [] = inr idx
enum_scan val idx (n ∷ name) [] =
    if leb (length (n ∷ name)) 19 && cmd_ci_eq (n ∷ name) val then inl idx else inr idx
enum_scan val idx name (c ∷ enums) = elim (c == b'|') [
  | true ↦ elim (leb (length name) 19 && cmd_ci_eq name val) [
    | true ↦ inl idx
    | false ↦ enum_scan val (suc idx) [] enums
  ]
  | false ↦ enum_scan val idx (name ++ c ∷ []) enums
]

-- A place that was given by its number, among the places 0 to `last`
abbrev pub index_number : ℕ → Option ℤ → Option ℕ
index_number last none = none
index_number last (some (pos v)) = if leb v last then some v else none
index_number last (some (negsuc v)) = none

-- A place that was found, or a number when there are several names
unfoldable pub index_from : ℕ ⊎ ℕ → Option ℤ → Option ℕ
index_from (inl idx) number = some idx
index_from (inr zero) number = none
index_from (inr (suc last)) number = index_number (suc last) number

-- `enum_index`
unfoldable pub enum_index : List ℕ → List ℕ → Option ℕ
unfolding enum_scan parse_int_arg index_from
enum_index enums val = index_from (enum_scan val 0 [] enums) (parse_int_arg val)

-- A number read as the value of its argument
abbrev pub value_of : Option ℕ → Result (ℤ × Option (List ℕ))
value_of none = err bad_args
value_of (some n) = ok (pos n, none)

-- The value of one argument, and the MAC if it is one: a pass of the `switch`
unfoldable pub parse_arg_as : ArgType → Arg → List ℕ → Result (ℤ × Option (List ℕ))
unfolding parse_int_arg enum_index cmd_parse_time parse_mac
parse_arg_as arg_int a tok = elim (parse_int_arg tok) [
  | none ↦ err bad_args
  | some v ↦ if lez a.lo v && lez v a.hi then ok (v, none) else err out_of_range
]
parse_arg_as arg_enum a tok = value_of (enum_index a.enums tok)
parse_arg_as arg_str a tok = if lez (pos (length tok)) a.hi then ok (pos 0, none) else err bad_args
parse_arg_as arg_time a tok = value_of (cmd_parse_time tok)
parse_arg_as arg_mac a tok = elim (parse_mac tok) [
  | none ↦ err bad_args
  | some mac ↦ ok (pos 0, some mac)
]
parse_arg_as arg_other a tok = err internal

abbrev pub last_mac : Option (List ℕ) → List ℕ → List ℕ
last_mac none mac = mac
last_mac (some new) mac = new

abbrev pub cons_value : ℤ → Result (List ℤ × List ℕ) → Result (List ℤ × List ℕ)
cons_value v (err e) = err e
cons_value v (ok (vs, m)) = ok (v ∷ vs, m)

-- The values from an argument on, `rest` reading those behind it
abbrev pub read_then :
    Result (ℤ × Option (List ℕ))
    → List ℕ
    → (List ℕ → Result (List ℤ × List ℕ))
    → Result (List ℤ × List ℕ)
read_then (err e) mac rest = err e
read_then (ok (v, new)) mac rest = cons_value v (rest (last_mac new mac))

-- The loop over the arguments, whose descriptions begin at the row's pointer
unfoldable pub parse_args : (ℕ → Arg) → List (List ℕ) → List ℕ → Result (List ℤ × List ℕ)
unfolding parse_arg_as
parse_args args [] mac = ok ([], mac)
parse_args args (t ∷ toks) mac =
    read_then (parse_arg_as (args 0).type (args 0) t) mac
      (λ m. parse_args (λ i. args (suc i)) toks m)
