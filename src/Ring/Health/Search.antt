-- ===== src/Ring/Health/Search.antt =====
-- The scan over the table: which row it finds.
use hill_grov.Base.{
  ==_iff, All, Bool, Bool-cases, List, Option, [], arith, false, inl, inr, none, some, subst, true,
  ℕ, ◌&&◌, ◌∷◌, ◌≡◌, ◌⊎◌,
}
use hill_grov.Ring.Health.{Node, better, scan, chain_pos}

module _ (ahead : ℕ → ℕ → Bool) (qualifies : Node → Bool) (tab : List Node)
    (asym : (p q : ℕ) → ahead p q ≡ true → ahead q p ≡ false) (irrefl : (p : ℕ) → ahead p p ≡ false)
    (trans : (p q r : ℕ) → ahead q p ≡ false → ahead r q ≡ false → ahead r p ≡ false) where
  abbrev pub pos : Node → ℕ
  pos nd = chain_pos tab nd

  -- A row that is no better than `b`.
  abbrev pub NotBeaten : Node → Node → Type 0
  NotBeaten b nd = (qualifies nd ≡ false) ⊎ (ahead (pos nd) (pos b) ≡ false)

  -- The row that was found is one of those that qualify and none of the scanned ones beats it.
  pub record Found (b : Node) (rest : List Node) : Type 0 where
    pub good : qualifies b ≡ true
    pub best : All (NotBeaten b) rest

  kept :
      (best nd : Node) → better ahead tab (some best) nd ≡ false → ahead (pos nd) (pos best) ≡ false
  unfolding better
  kept best nd h = ground arith

  replaced :
      (best nd : Node) → better ahead tab (some best) nd ≡ true → ahead (pos best) (pos nd) ≡ false
  unfolding better
  replaced best nd h =
      ground (arith, h, asym (pos nd) (pos best), irrefl (pos nd), (==_iff (pos nd) (pos best)).0)

  some-Found : (b₀ b : Node) → some b₀ ≡ some b → b₀ ≡ b
  some-Found b₀ b e = cc

  scan-some :
      (rest : List Node) (b₀ b : Node)
      → qualifies b₀ ≡ true
      → scan ahead qualifies tab rest (some b₀) ≡ some b
      → (ahead (pos b₀) (pos b) ≡ false) × Found b rest
  unfolding scan
  scan-some [] b₀ b q e =
      let same : b₀ ≡ b = some-Found b₀ b e in
      (
        subst (λ t. ahead (pos b₀) (pos t) ≡ false) same (irrefl (pos b₀)),
        record { good = subst (λ t. qualifies t ≡ true) same q; best = tt },
      )
  scan-some (nd ∷ rest) b₀ b q e = elim (Bool-cases (qualifies nd)) [
    | inl good ↦ elim (Bool-cases (better ahead tab (some b₀) nd)) [
      | inl beats ↦
          let (nb, f) = scan-some rest nd b good (rw (good, beats, scan) at e) in
          (
            trans (pos b) (pos nd) (pos b₀) nb (replaced b₀ nd beats),
            record { good = f.good; best = (inr nb, f.best) },
          )
      | inr stays ↦
          let (nb, f) = scan-some rest b₀ b q (rw (good, stays, scan) at e) in
          (
            nb,
            record {
              good = f.good;
              best = (inr (trans (pos b) (pos b₀) (pos nd) nb (kept b₀ nd stays)), f.best);
            },
          )
    ]
    | inr bad ↦
        let (nb, f) = scan-some rest b₀ b q (rw (bad, scan) at e) in
        (nb, record { good = f.good; best = (inl bad, f.best) })
  ]

  pub scan-Found :
      (rest : List Node) (b : Node) → scan ahead qualifies tab rest none ≡ some b → Found b rest
  unfolding scan better
  scan-Found [] b e = absurd (ground arith)
  scan-Found (nd ∷ rest) b e = elim (Bool-cases (qualifies nd)) [
    | inl good ↦
        let (nb, f) = scan-some rest nd b good (rw (good, scan, better) at e) in
        record { good = f.good; best = (inr nb, f.best) }
    | inr bad ↦
        let f = scan-Found rest b (rw (bad, scan) at e) in
        record { good = f.good; best = (inl bad, f.best) }
  ]

  scan_keeps : (rest : List Node) (b₀ : Node) → scan ahead qualifies tab rest (some b₀) ≡ none → ⊥
  unfolding scan
  scan_keeps [] b₀ e = cc
  scan_keeps (nd ∷ rest) b₀ e = elim (Bool-cases (qualifies nd && better ahead tab (some b₀) nd)) [
    | inl t ↦ scan_keeps rest nd (rw (t, scan) at e)
    | inr t ↦ scan_keeps rest b₀ (rw (t, scan) at e)
  ]

  -- When none is found, none qualifies.
  pub scan-none :
      (rest : List Node)
      → scan ahead qualifies tab rest none ≡ none
      → All (λ nd. qualifies nd ≡ false) rest
  unfolding scan better
  scan-none [] e = tt
  scan-none (nd ∷ rest) e = elim (Bool-cases (qualifies nd)) [
    | inl good ↦ absurd (scan_keeps rest nd (rw (good, scan, better) at e))
    | inr bad ↦ (bad, scan-none rest (rw (bad, scan) at e))
  ]

  -- What is found has every property that all rows have.
  pub scan-All :
      (P : Node → Type 0) (rest : List Node) (best : Option Node) (b : Node)
      → All P rest
      → ((b₀ : Node) → best ≡ some b₀ → P b₀)
      → scan ahead qualifies tab rest best ≡ some b
      → P b
  unfolding scan
  scan-All P [] best b h k e = k b e
  scan-All P (nd ∷ rest) best b h k e =
      elim (Bool-cases (qualifies nd && better ahead tab best nd)) [
        | inl t ↦
            scan-All P rest (some nd) b h.1 (λ b₀ q. subst P (some-Found nd b₀ q) h.0)
              (rw (t, scan) at e)
        | inr t ↦ scan-All P rest best b h.1 k (rw (t, scan) at e)
      ]
