-- ===== src/Ring/Chunks/Mask.antt =====
-- The bit mask of the chunks that have arrived, by tables over all masks of seven bits.
use hill_grov.Base.{
  ==_iff, Bool, Bool-cases, all_below, all_below_sound, ap₂, arith, bit_or, false, if◌then◌else◌,
  inl, inr, ltb, ltb→lt, not, refl, suc, true, u8, zero, ℕ, ◌%◌, ◌&&◌, ◌-◌, ◌/◌, ◌<◌, ◌==◌, ◌^◌,
  ◌||◌, ◌≡◌, ◌≤◌, ◌⊎◌,
}

abbrev pub bit : ℕ → ℕ → ℕ
bit m i = m / 2 ^ i % 2

-- `mask | (1 << i)` read at bit `j`.
abbrev set_agrees : ℕ → ℕ → ℕ → Bool
set_agrees m i j = bit (u8 (bit_or m (2 ^ i))) j == (if i == j then 1 else bit m j)

abbrev set_below : ℕ → ℕ → Bool
set_below m i = ltb (u8 (bit_or m (2 ^ i))) 128

set_table :
    all_below 128 (λ m. all_below 7 (λ i. set_below m i && all_below 7 (set_agrees m i))) ≡ true
unfolding all_below
set_table = refl

set_row : (m i : ℕ) → m < 128 → i < 7 → (set_below m i && all_below 7 (set_agrees m i)) ≡ true
set_row m i hm hi = all_below_sound 7 _ i (all_below_sound 128 _ m set_table hm) hi

pub bit-set :
    (m i j : ℕ)
    → m < 128
    → i < 7
    → j < 7
    → bit (u8 (bit_or m (2 ^ i))) j ≡ (if i == j then 1 else bit m j)
bit-set m i j hm hi hj =
    (==_iff _ _).0
      (all_below_sound 7 (set_agrees m i) j (right (set_below m i) _ (set_row m i hm hi)) hj)
  where
    right : (a b : Bool) → (a && b) ≡ true → b ≡ true
    right true b h = h
    right false b h = absurd (ground arith)

pub set-lt : (m i : ℕ) → m < 128 → i < 7 → u8 (bit_or m (2 ^ i)) < 128
set-lt m i hm hi = ltb→lt _ 128 (left (set_below m i) _ (set_row m i hm hi))
  where
    left : (a b : Bool) → (a && b) ≡ true → a ≡ true
    left true b h = refl
    left false b h = h

-- The mask of all of `c` chunks, against the test of every bit.
abbrev full_agrees : ℕ → ℕ → Bool
full_agrees c m =
    let want = all_below c (λ i. bit m i == 1) && all_below 7 (λ i. ltb i c || bit m i == 0) in
    if m == u8 (2 ^ c - 1) then want else not want

full_table : all_below 8 (λ c. all_below 128 (full_agrees c)) ≡ true
unfolding all_below
full_table = refl

pub all_below_ext :
    (n : ℕ) (p q : ℕ → Bool) → ((i : ℕ) → i < n → p i ≡ q i) → all_below n p ≡ all_below n q
unfolding all_below
all_below_ext zero p q h = refl
all_below_ext (suc n) p q h =
    ap₂ ◌&&◌ (h n (omega arith)) (all_below_ext n p q (λ i lt. h i (omega arith)))

all_below-true : (n : ℕ) (p : ℕ → Bool) → ((i : ℕ) → i < n → p i ≡ true) → all_below n p ≡ true
unfolding all_below
all_below-true zero p h = refl
all_below-true (suc n) p h = rw (h n (omega arith)) (all_below-true n p (λ i lt. h i (omega arith)))

-- With no bit from `c` on, the mask is full exactly when its `c` bits are ones.
pub full-mask :
    (c m : ℕ)
    → c < 8
    → m < 128
    → ((i : ℕ) → i < 7 → c ≤ i → bit m i ≡ 0)
    → (m == u8 (2 ^ c - 1)) ≡ all_below c (λ i. bit m i == 1)
full-mask c m hc hm high =
    agree (m == u8 (2 ^ c - 1)) (all_below c (λ i. bit m i == 1))
      (all_below 7 (λ i. ltb i c || bit m i == 0))
      (all_below_sound 128 _ m (all_below_sound 8 _ c full_table hc) hm)
      (all_below-true 7 _ (λ i lt. zero_above i lt (Bool-cases (ltb i c))))
  where
    zero_above :
        (i : ℕ) → i < 7 → (ltb i c ≡ true) ⊎ (ltb i c ≡ false) → (ltb i c || bit m i == 0) ≡ true
    zero_above i lt (inl e) = rw e
    zero_above i lt (inr e) = rw (e, high i lt (ground arith))

    agree : (a w z : Bool) → (if a then w && z else not (w && z)) ≡ true → z ≡ true → a ≡ w
    agree true true z h k = refl
    agree true false z h k = absurd (ground arith)
    agree false true true h k = absurd (ground arith)
    agree false true false h k = absurd (ground arith)
    agree false false z h k = refl
