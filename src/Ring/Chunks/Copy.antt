-- ===== src/Ring/Chunks/Copy.antt =====
-- `memcpy` into the buffer, index by index.
use hill_grov.Base.{
  List, [], arith, get_or, get_or-set_ne, get_or-set_self, length, length-set, refl, set, suc, zero,
  ℕ, ◌+◌, ◌<◌, ◌∙◌, ◌∷◌, ◌≡◌, ◌≤◌,
}
use native.Mathlib.Nat.{add-zero}
use hill_grov.Ring.Chunks.{write_at}

pub length-write_at :
    (buf : List ℕ) (off : ℕ) (src : List ℕ) → length (write_at buf off src) ≡ length buf
unfolding write_at
length-write_at buf off [] = refl
length-write_at buf off (x ∷ src) =
    length-write_at (set buf off x) (off + 1) src ∙ length-set buf off x

pub get_or-write_at_before :
    (buf : List ℕ) (off : ℕ) (src : List ℕ) (k : ℕ)
    → k < off
    → get_or (write_at buf off src) k 0 ≡ get_or buf k 0
unfolding write_at
get_or-write_at_before buf off [] k h = refl
get_or-write_at_before buf off (x ∷ src) k h =
    get_or-write_at_before (set buf off x) (off + 1) src k (omega arith)
    ∙ get_or-set_ne buf off k x 0 (omega arith)

pub get_or-write_at_after :
    (buf : List ℕ) (off : ℕ) (src : List ℕ) (k : ℕ)
    → off + length src ≤ k
    → get_or (write_at buf off src) k 0 ≡ get_or buf k 0
unfolding write_at
get_or-write_at_after buf off [] k h = refl
get_or-write_at_after buf off (x ∷ src) k h =
    get_or-write_at_after (set buf off x) (off + 1) src k (omega arith)
    ∙ get_or-set_ne buf off k x 0 (omega arith)

pub get_or-write_at_within :
    (buf : List ℕ) (off : ℕ) (src : List ℕ) (j : ℕ)
    → off + length src ≤ length buf
    → j < length src
    → get_or (write_at buf off src) (off + j) 0 ≡ get_or src j 0
unfolding write_at
get_or-write_at_within buf off [] j h lt = absurd (omega arith)
get_or-write_at_within buf off (x ∷ src) zero h lt = rw add-zero (
    get_or-write_at_before (set buf off x) (off + 1) src off (omega arith)
    ∙ get_or-set_self buf off x 0 (omega arith))
get_or-write_at_within buf off (x ∷ src) (suc j) h lt =
    let e : off + suc j ≡ off + 1 + j = omega arith in
    rw e (
      get_or-write_at_within (set buf off x) (off + 1) src j (omega (arith, length-set buf off x))
        (omega arith))
