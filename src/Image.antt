-- ===== src/Image.antt =====
-- components/hg_image/hg_image.c: what a firmware image says that it is, from its first 112 bytes.
use hill_grov.Base.{
  All, Bool, Bool-cases, List, [], arith, drop, false, get_or, if◌then◌else◌, inl, inr, leb, length,
  ltb, not, rd16, rd32, subst, suc, text_eq, zero, ℕ, ◌&&◌, ◌<◌, ◌==◌, ◌∷◌, ◌≡◌, ◌≤◌,
}

-- `hg_image_id_t`; a name is its text.
pub record ImageId : Type 0 where
  pub chip_id : ℕ
  pub version : List ℕ
  pub project : List ℕ

-- What `hg_image_parse` returns: 0 with the names, or -1, -2, -3.
pub data Parsed : Type 0 where
  parsed : ImageId → Parsed
  too_short bad_magic bad_desc_magic : Parsed

abbrev pub printable : ℕ → ℕ
printable c = if leb 0x20 c && ltb c 0x7f then c else 0x2e

-- `copy_name`: its loop over the places that are left of the 32.
unfoldable pub copy_name : ℕ → List ℕ → List ℕ
copy_name zero bytes = []
copy_name (suc left) [] = []
copy_name (suc left) (c ∷ rest) =
    let later = printable c ∷ copy_name left rest in if c == 0 then [] else later

-- `hg_image_parse`
unfoldable pub image_parse : List ℕ → Parsed
image_parse b =
    let at = λ (i : ℕ). get_or b i 0 in
    if ltb (length b) 112
    then too_short
    else if not (at 0 == 0xe9)
    then bad_magic
    else if not (rd32 (at 32) (at 33) (at 34) (at 35) == 0xabcd5432)
    then bad_desc_magic
    else parsed (record {
      chip_id = rd16 (at 12) (at 13);
      version = copy_name 32 (drop 48 b);
      project = copy_name 32 (drop 80 b);
    })

unfoldable pub is_image : Parsed → ℕ → List ℕ → Bool
is_image (parsed id) chip want = id.chip_id == chip && text_eq id.project want
is_image _ chip want = false

-- `hg_image_is`
unfoldable pub image_is : List ℕ → ℕ → List ℕ → Bool
image_is b chip want = is_image (image_parse b) chip want

-- A text of at most 32 printable characters.
abbrev pub IsName : List ℕ → Type 0
IsName name = (length name ≤ 32) × All (λ c. (0x20 ≤ c) × (c < 0x7f)) name

copy_name-printable :
    (left : ℕ) (bytes : List ℕ)
    → (length (copy_name left bytes) ≤ left)
      × All (λ c. (0x20 ≤ c) × (c < 0x7f)) (copy_name left bytes)
unfolding copy_name
copy_name-printable zero bytes = (omega arith, tt)
copy_name-printable (suc left) [] = (omega arith, tt)
copy_name-printable (suc left) (c ∷ rest) = elim (Bool-cases (c == 0)) [
  | inl end ↦ rw end (omega arith, tt)
  | inr more ↦
      let (len, ok) = copy_name-printable left rest in
      rw more (omega (arith, len), ((ground arith, ground arith), ok))
]

abbrev Named : Parsed → Type 0
Named (parsed id) = IsName id.version × IsName id.project
Named _ = Unit {0}

image_parse-Named : (b : List ℕ) → Named (image_parse b)
unfolding image_parse
image_parse-Named b = elim (Bool-cases (ltb (length b) 112)) [
  | inl short ↦ rw short tt
  | inr long ↦ elim (Bool-cases (not (get_or b 0 0 == 0xe9))) [
    | inl other ↦ rw (long, other) tt
    | inr image ↦
        elim (Bool-cases (
          not
            (rd32 (get_or b 32 0) (get_or b 33 0) (get_or b 34 0) (get_or b 35 0) == 0xabcd5432))) [
              | inl other ↦ rw (long, image, other) tt
              | inr desc ↦
                  rw (long, image, desc)
                    (copy_name-printable 32 (drop 48 b), copy_name-printable 32 (drop 80 b))
            ]
  ]
]

-- Whatever the bytes of an accepted image, its two names are at most 32 printable characters.
pub image_parse-IsName :
    (b : List ℕ) (id : ImageId) → image_parse b ≡ parsed id → IsName id.version × IsName id.project
image_parse-IsName b id e = subst Named e (image_parse-Named b)
