-- ===== src/Cmd/Confirm.antt =====
-- The confirmation of a destructive command: an enum of one name, which components/cmd_core/
-- cmd_dispatch.c must not take a number for (`enum_index`).
use hill_grov.Base.{
  Bool-cases, List, [], ap, append-nil, append_assoc, arith, false, if◌then◌else◌, inl, inr, leb,
  length, none, pos, refl, some, sym, true, ℕ, ◌++◌, ◌+◌, ◌<◌, ◌==◌, ◌∙◌, ◌∷◌, ◌≡◌, ◌≤◌, ◌⊎◌,
}
use hill_grov.Cmd.{Arg, arg_enum, bad_args, err, ok}
use hill_grov.Cmd.Args.{enum_index, enum_scan, parse_arg_as}
use hill_grov.Cmd.Text.{cmd_ci_eq, upper}
use hill_grov.Cmd.Values.{bars}

enum_scan-byte :
    (val : List ℕ) (idx : ℕ) (name : List ℕ) (c : ℕ) (rest : List ℕ)
    → (c == b'|') ≡ false
    → enum_scan val idx name (c ∷ rest) ≡ enum_scan val idx (name ++ c ∷ []) rest
unfolding enum_scan
enum_scan-byte val idx [] c rest b = rw (b, enum_scan) refl
enum_scan-byte val idx (n ∷ name) c rest b = rw (b, enum_scan) refl

-- The scan takes a name without a bar whole.
enum_scan-name :
    (val : List ℕ) (idx : ℕ) (name rest : List ℕ)
    → bars rest ≡ 0
    → enum_scan val idx name rest ≡ enum_scan val idx (name ++ rest) []
unfolding bars
enum_scan-name val idx name [] h = ap (λ n. enum_scan val idx n []) (sym (append-nil name))
enum_scan-name val idx name (c ∷ rest) h =
    let b : (c == b'|') ≡ false = ground (arith, h) in
    let r : bars rest ≡ 0 = ground (arith, h) in
    enum_scan-byte val idx name c rest b
    ∙ enum_scan-name val idx (name ++ c ∷ []) rest r
    ∙ ap (λ n. enum_scan val idx n []) (append_assoc name (c ∷ []) rest)

enum_index-single :
    (name val : List ℕ)
    → 0 < length name
    → length name ≤ 19
    → bars name ≡ 0
    → enum_index name val ≡ (if cmd_ci_eq name val then some 0 else none)
unfolding enum_index enum_scan
enum_index-single [] val pos_len small h = absurd (omega arith)
enum_index-single (c ∷ name) val pos_len small h =
    let e : enum_scan val 0 [] (c ∷ name) ≡ enum_scan val 0 (c ∷ name) [] =
      enum_scan-name val 0 [] (c ∷ name) h in
    let short : leb (length (c ∷ name)) 19 ≡ true = ground arith in
    rw (e, enum_index) (ground (arith, short))

-- The same letter in upper or lower case, or the same byte
abbrev pub SameLetter : ℕ → ℕ → Type 0
SameLetter x y =
    (x ≡ y) ⊎ ((b'a' ≤ x) × (x ≤ b'z') × (y + 32 ≡ x)) ⊎ ((b'a' ≤ y) × (y ≤ b'z') × (x + 32 ≡ y))

-- The same text but for the case of its letters, to its end
abbrev pub SameText : List ℕ → List ℕ → Type 0
SameText [] [] = Unit
SameText [] (y ∷ ys) = ⊥
SameText (x ∷ xs) [] = ⊥
SameText (x ∷ xs) (y ∷ ys) = SameLetter x y × SameText xs ys

upper-SameLetter : (x y : ℕ) → (upper x == upper y) ≡ true → SameLetter x y
upper-SameLetter x y h = ground arith

SameLetter-upper : (x y : ℕ) → SameLetter x y → (upper x == upper y) ≡ true
SameLetter-upper x y h = ground arith

cmd_ci_eq-SameText : (xs ys : List ℕ) → cmd_ci_eq xs ys ≡ true → SameText xs ys
unfolding cmd_ci_eq
cmd_ci_eq-SameText [] [] h = tt
cmd_ci_eq-SameText [] (y ∷ ys) h = absurd (cc)
cmd_ci_eq-SameText (x ∷ xs) [] h = absurd (cc)
cmd_ci_eq-SameText (x ∷ xs) (y ∷ ys) h =
    (upper-SameLetter x y (ground arith), cmd_ci_eq-SameText xs ys (ground arith))

SameText-cmd_ci_eq : (xs ys : List ℕ) → SameText xs ys → cmd_ci_eq xs ys ≡ true
unfolding cmd_ci_eq
SameText-cmd_ci_eq [] [] h = refl
SameText-cmd_ci_eq [] (y ∷ ys) h = absurd h
SameText-cmd_ci_eq (x ∷ xs) [] h = absurd h
SameText-cmd_ci_eq (x ∷ xs) (y ∷ ys) h =
    rw (SameLetter-upper x y h.0, SameText-cmd_ci_eq xs ys h.1) refl

-- A row whose enum is one name without a bar, of 1 to 19 bytes, takes that name in upper or
-- lower case, whole, as the value 0, and refuses every other token, the number 0 included.
pub parse_arg-confirm :
    (a : Arg) (tok : List ℕ)
    → 0 < length a.enums
    → length a.enums ≤ 19
    → bars a.enums ≡ 0
    → (SameText a.enums tok × (parse_arg_as arg_enum a tok ≡ ok (pos 0, none)))
      ⊎ (¬ SameText a.enums tok × (parse_arg_as arg_enum a tok ≡ err bad_args))
unfolding parse_arg_as
parse_arg-confirm a tok nonempty small h =
    let e = enum_index-single a.enums tok nonempty small h in
    elim (Bool-cases (cmd_ci_eq a.enums tok)) [
      | inl b ↦ inl (cmd_ci_eq-SameText a.enums tok b, rw (e, b, parse_arg_as) refl)
      | inr b ↦ inr (
        λ s. absurd (ground (arith, b, SameText-cmd_ci_eq a.enums tok s)),
        rw (e, b, parse_arg_as) refl,
      )
    ]
