-- ===== src/Cmd/Values.antt =====
-- The values that the argument readers of components/cmd_core/cmd_dispatch.c and cmd_tok.c let through.
use hill_grov.Base.{
  Bool, Bool-cases, List, Option, [], arith, false, if◌then◌else◌, inl, inr, leb, length, lez,
  negsuc, none, pos, refl, some, subst, suc, sym, true, ℕ, ℤ, ◌&&◌, ◌++◌, ◌+◌, ◌==◌, ◌∙◌, ◌∷◌, ◌≡◌,
  ◌≤◌, ◌⊎◌,
}
use hill_grov.Cmd.{
  Arg, ArgType, Result, arg_enum, arg_int, arg_mac, arg_other, arg_str, arg_time, err, ok,
}
use hill_grov.Cmd.Args.{
  enum_index, enum_scan, parse_arg_as, parse_args, value_of, read_then, cons_value, last_mac,
}
use hill_grov.Cmd.Text.{at_colon, cmd_parse_time, strtol, time_at, time_of, whole_number}

-- The number of names that follow the first in a list with bars
unfoldable pub bars : List ℕ → ℕ
bars [] = 0
bars (c ∷ enums) = if c == b'|' then suc (bars enums) else bars enums

-- A value that an argument's description allows, for the token it was read from
pub is_allowed : ArgType → Arg → List ℕ → ℤ → Bool
is_allowed arg_int a tok v = lez a.lo v && lez v a.hi
is_allowed arg_enum a tok (pos i) = leb i (bars a.enums)
is_allowed arg_enum a tok (negsuc i) = false
is_allowed arg_str a tok v = lez (pos (length tok)) a.hi
is_allowed arg_time a tok (pos m) = leb m 1439
is_allowed arg_time a tok (negsuc m) = false
is_allowed arg_mac a tok v = true
is_allowed arg_other a tok v = false

-- Each token stands for a value that its place in the row allows.
pub data AreRead : (ℕ → Arg) → List (List ℕ) → List ℤ → Type 0 where
  all_read : {args : ℕ → Arg} → AreRead args [] []
  one_more :
      {args : ℕ → Arg} {t : List ℕ} {toks : List (List ℕ)} {v : ℤ} {vs : List ℤ}
      → is_allowed (args 0).type (args 0) t v ≡ true
      → AreRead (λ i. args (suc i)) toks vs
      → AreRead args (t ∷ toks) (v ∷ vs)

whole_number-le :
    (left : ℕ) (o : Option (ℤ × List ℕ)) (most v : ℕ) → whole_number left o most ≡ some v → v ≤ most
unfolding whole_number
whole_number-le left none most v e = absurd (cc)
whole_number-le left (some (pos n, rest)) most v e = ground arith
whole_number-le left (some (negsuc n, rest)) most v e = absurd (cc)

time_of-lt :
    (h m : Option ℕ) (t : ℕ)
    → ((n : ℕ) → h ≡ some n → n ≤ 23)
    → ((n : ℕ) → m ≡ some n → n ≤ 59)
    → time_of h m ≡ some t
    → t ≤ 1439
time_of-lt none m t a b e = absurd (cc)
time_of-lt (some h) none t a b e = absurd (cc)
time_of-lt (some h) (some m) t a b e = ground (arith, a h refl, b m refl)

time_at-lt : (s : List ℕ) (o : Option (List ℕ × List ℕ)) (m : ℕ) → time_at s o ≡ some m → m ≤ 1439
unfolding time_at
time_at-lt s none m e = whole_number-le 0 (strtol 10 s) 1439 m e
time_at-lt s (some ([], after)) m e = absurd (cc)
time_at-lt s (some (b ∷ before, after)) m e = elim (Bool-cases (length after == 2)) [
  | inl h ↦
      time_of-lt (whole_number (suc (length after)) (strtol 10 s) 23)
        (whole_number 0 (strtol 10 after) 59) m
        (λ n k. whole_number-le (suc (length after)) (strtol 10 s) 23 n k)
        (λ n k. whole_number-le 0 (strtol 10 after) 59 n k) (sym (rw h refl) ∙ e)
  | inr h ↦ absurd (ground (arith, e, h))
]

-- A time is one of the day's minutes.
pub cmd_parse_time-lt : (s : List ℕ) (m : ℕ) → cmd_parse_time s ≡ some m → m ≤ 1439
unfolding cmd_parse_time
cmd_parse_time-lt s m e = time_at-lt s (at_colon s) m e

-- The place that the scan ends at is one of the places there are.
enum_place : ℕ ⊎ ℕ → ℕ
enum_place (inl i) = i
enum_place (inr i) = i

enum_scan-le :
    (val : List ℕ) (idx : ℕ) (name enums : List ℕ)
    → enum_place (enum_scan val idx name enums) ≤ idx + bars enums
unfolding enum_scan bars enum_place
enum_scan-le val idx [] [] = omega arith
enum_scan-le val idx (n ∷ name) [] = ground arith
enum_scan-le val idx [] (c ∷ enums) =
    ground (arith, enum_scan-le val (suc idx) [] enums, enum_scan-le val idx (c ∷ []) enums)
enum_scan-le val idx (n ∷ name) (c ∷ enums) =
    ground (
      arith,
      enum_scan-le val (suc idx) [] enums,
      enum_scan-le val idx ((n ∷ name) ++ c ∷ []) enums,
    )

enum_index-le :
    (enums val : List ℕ) (i : ℕ) → enum_index enums val ≡ some i → leb i (bars enums) ≡ true
unfolding enum_index enum_place
enum_index-le enums val i e = ground (arith, enum_scan-le val 0 [] enums)

-- A number read, as the value of its argument
read-allowed :
    (o : Option ℕ) (v : ℤ) (m : Option (List ℕ)) (P : ℤ → Type 0)
    → ((i : ℕ) → o ≡ some i → P (pos i))
    → value_of o ≡ ok (v, m)
    → P v
read-allowed none v m P h e = absurd (cc)
read-allowed (some i) v m P h e = subst P (cc) (h i refl)

parse_arg-allowed :
    (ty : ArgType) (a : Arg) (t : List ℕ) (v : ℤ) (m : Option (List ℕ))
    → parse_arg_as ty a t ≡ ok (v, m)
    → is_allowed ty a t v ≡ true
unfolding parse_arg_as is_allowed
parse_arg-allowed arg_int a t v m e = ground arith
parse_arg-allowed arg_enum a t v m e =
    read-allowed (enum_index a.enums t) v m (λ x. is_allowed arg_enum a t x ≡ true)
      (λ i f. enum_index-le a.enums t i f) e
parse_arg-allowed arg_str a t v m e = ground arith
parse_arg-allowed arg_time a t v m e =
    read-allowed (cmd_parse_time t) v m (λ x. is_allowed arg_time a t x ≡ true)
      (λ i f. ground (arith, cmd_parse_time-lt t i f)) e
parse_arg-allowed arg_mac a t v m e = refl
parse_arg-allowed arg_other a t v m e = absurd (cc)

cons_value-AreRead :
    (args : ℕ → Arg) (t : List ℕ) (toks : List (List ℕ)) (v : ℤ) (r : Result (List ℤ × List ℕ))
    (vs : List ℤ) (m : List ℕ)
    → is_allowed (args 0).type (args 0) t v ≡ true
    → ((us : List ℤ) (k : List ℕ) → r ≡ ok (us, k) → AreRead (λ i. args (suc i)) toks us)
    → cons_value v r ≡ ok (vs, m)
    → AreRead args (t ∷ toks) vs
cons_value-AreRead args t toks v (err x) vs m hv h e = absurd (cc)
cons_value-AreRead args t toks v (ok (us, k)) vs m hv h e =
    subst (λ ws. AreRead args (t ∷ toks) ws) (cc) (one_more hv (h us k refl))

-- The values of a row's arguments are ones that the row allows.
pub parse_args-AreRead :
    (args : ℕ → Arg) (toks : List (List ℕ)) (mac : List ℕ) (vs : List ℤ) (m : List ℕ)
    → parse_args args toks mac ≡ ok (vs, m)
    → AreRead args toks vs
unfolding parse_args
parse_args-AreRead args [] mac vs m e = subst (λ us. AreRead args [] us) (cc) all_read
parse_args-AreRead args (t ∷ toks) mac vs m e =
    read (parse_arg_as (args 0).type (args 0) t)
      (λ v n f. parse_arg-allowed (args 0).type (args 0) t v n f)
      (λ k us l f. parse_args-AreRead (λ i. args (suc i)) toks k us l f) e
  where
    read :
        (r : Result (ℤ × Option (List ℕ)))
        → ((v : ℤ) (n : Option (List ℕ))
            → r ≡ ok (v, n)
            → is_allowed (args 0).type (args 0) t v ≡ true)
        → ((k : List ℕ) (us : List ℤ) (l : List ℕ)
            → parse_args (λ i. args (suc i)) toks k ≡ ok (us, l)
            → AreRead (λ i. args (suc i)) toks us)
        → read_then r mac (λ k. parse_args (λ i. args (suc i)) toks k) ≡ ok (vs, m)
        → AreRead args (t ∷ toks) vs
    read (err x) hv h e = absurd (cc)
    read (ok (v, n)) hv h e =
        cons_value-AreRead args t toks v (parse_args (λ i. args (suc i)) toks (last_mac n mac)) vs m
          (hv v n refl) (λ us k f. h (last_mac n mac) us k f) e
