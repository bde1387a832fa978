-- ===== src/Ring/Health/Blame.antt =====
-- What is blamed when one cable is cut or one node is dead.
use hill_grov.Base.{
  All, All-Elem, Bool, Elem, List, Option-cases, arith, false, inl, inr, ltb, none, refl, some,
  true, ℕ, ◌+◌, ◌<◌, ◌≡◌, ◌≢◌, ◌≤◌, ◌⊎◌,
}
use hill_grov.Ring.Health.{
  Node, offline, online, degraded, scan, chain_pos, is_suspect, is_witness, hears_master, health_eq,
  most_downstream_offline, most_upstream_witness, ring_blame, blame_of, dead,
}
use hill_grov.Ring.Health.Search.{NotBeaten, scan-Found, scan-none, scan-All}

-- Positions as seen from the master's receiver: fewer hops is downstream.
abbrev downstream : ℕ → ℕ → Bool
downstream p q = ltb p q

abbrev upstream : ℕ → ℕ → Bool
upstream p q = ltb q p

-- A row above the cut: heard at some time and now silent.
pub record IsAbove (k : ℕ) (nd : Node) : Type 0 where
  pub in_use : nd.used ≡ true
  pub heard : nd.hops_valid ≡ true
  pub silent : nd.health ≡ offline
  pub place : k ≤ nd.hops

-- A row below the cut: alive, long enough up, and out of the master's reach.
pub record IsBelow (k : ℕ) (nd : Node) : Type 0 where
  pub in_use : nd.used ≡ true
  pub heard : nd.hops_valid ≡ true
  pub alive : (nd.health ≡ online) ⊎ (nd.health ≡ degraded)
  pub settled : 10 ≤ nd.uptime_s
  pub starved : hears_master nd ≡ false
  pub place : nd.hops < k

-- Every row of the table when the ring is broken between `k - 1` and `k` hops.
abbrev pub IsCut : ℕ → Node → Type 0
IsCut k nd = (nd.used ≡ false) ⊎ IsAbove k nd ⊎ IsBelow k nd

-- No other row stands at the place of `nd`.
abbrev pub Alone : Node → Node → Type 0
Alone nd other = (other.used ≡ false) ⊎ (other.hops ≢ nd.hops) ⊎ (other.id ≡ nd.id)

suspect-IsAbove : (k : ℕ) (nd : Node) → IsCut k nd → is_suspect nd ≡ true → IsAbove k nd
unfolding is_suspect health_eq
suspect-IsAbove k nd (inl unused) s = absurd (ground arith)
suspect-IsAbove k nd (inr (inl a)) s = a
suspect-IsAbove k nd (inr (inr b)) s = absurd (ground arith)

IsAbove-suspect : (k : ℕ) (nd : Node) → IsAbove k nd → is_suspect nd ≡ true
unfolding is_suspect health_eq
IsAbove-suspect k nd a = ground arith

witness-IsBelow : (k : ℕ) (nd : Node) → IsCut k nd → is_witness nd ≡ true → IsBelow k nd
unfolding is_witness health_eq
witness-IsBelow k nd (inl unused) s = absurd (ground arith)
witness-IsBelow k nd (inr (inl a)) s = absurd (ground arith)
witness-IsBelow k nd (inr (inr b)) s = b

IsBelow-witness : (k : ℕ) (nd : Node) → IsBelow k nd → is_witness nd ≡ true
unfolding is_witness health_eq
IsBelow-witness k nd b = ground arith

chain_pos-heard : (tab : List Node) (nd : Node) → nd.hops_valid ≡ true → chain_pos tab nd ≡ nd.hops
unfolding chain_pos
chain_pos-heard tab nd h = ground arith

-- Both orders are strict, and a row that is not beaten by one that is not beaten is not beaten.
record IsOrder (ahead : ℕ → ℕ → Bool) : Type 0 where
  asym : (p q : ℕ) → ahead p q ≡ true → ahead q p ≡ false
  irrefl : (p : ℕ) → ahead p p ≡ false
  trans : (p q r : ℕ) → ahead q p ≡ false → ahead r q ≡ false → ahead r p ≡ false

downstream-IsOrder : IsOrder downstream
downstream-IsOrder = record {
  asym = λ p q h. ground arith;
  irrefl = λ p. ground arith;
  trans = λ p q r h j. ground arith;
}

upstream-IsOrder : IsOrder upstream
upstream-IsOrder = record {
  asym = λ p q h. ground arith;
  irrefl = λ p. ground arith;
  trans = λ p q r h j. ground arith;
}

-- What a search finds when a given row qualifies: some row that qualifies, has what all rows have,
-- and is not beaten by the given one.
record Outcome (ahead : ℕ → ℕ → Bool) (qualifies : Node → Bool) (tab : List Node)
    (P : Node → Type 0) (u : Node) : Type 0 where
  row : Node
  found : scan ahead qualifies tab tab none ≡ some row
  good : qualifies row ≡ true
  common : P row
  unbeaten : ahead (chain_pos tab u) (chain_pos tab row) ≡ false

search-Outcome :
    (ahead : ℕ → ℕ → Bool) (qualifies : Node → Bool) (tab : List Node) (P : Node → Type 0)
    (u : Node)
    → IsOrder ahead
    → All P tab
    → Elem u tab
    → qualifies u ≡ true
    → Outcome ahead qualifies tab P u
search-Outcome ahead qualifies tab P u o all e q =
    elim (Option-cases (scan ahead qualifies tab tab none)) [
      | inl nothing ↦
          let no_one = scan-none ahead qualifies tab o.asym o.irrefl o.trans tab nothing in
          absurd (clash (All-Elem (λ nd. qualifies nd ≡ false) e no_one))
      | inr (b, found) ↦
          let f = scan-Found ahead qualifies tab o.asym o.irrefl o.trans tab b found in
          record {
            row = b;
            found = found;
            good = f.good;
            common =
                scan-All ahead qualifies tab o.asym o.irrefl o.trans P tab none b all
                  (λ b₀ e₀. absurd (no_start b₀ e₀)) found;
            unbeaten =
                right (All-Elem (NotBeaten ahead qualifies tab o.asym o.irrefl o.trans b) e f.best);
          }
    ]
  where
    clash : qualifies u ≡ false → ⊥
    clash n = ground arith

    no_start : (b₀ : Node) → none ≡ some b₀ → ⊥
    no_start b₀ e₀ = cc

    right : {X : Type 0} → (qualifies u ≡ false) ⊎ X → X
    right (inl n) = absurd (clash n)
    right (inr y) = y

-- The row just above the cut is found, or another with its id.
downstream_found :
    (k : ℕ) (tab : List Node) (u : Node)
    → All (λ nd. IsCut k nd × Alone u nd) tab
    → Elem u tab
    → IsAbove k u
    → u.hops ≡ k
    → (b : Node) × (most_downstream_offline tab ≡ some b) × (b.id ≡ u.id)
unfolding most_downstream_offline
downstream_found k tab u all e a at =
    let r =
      search-Outcome downstream is_suspect tab _ u downstream-IsOrder all e
        (IsAbove-suspect k u a) in
    (r.row, r.found, same r.row (suspect-IsAbove k r.row r.common.0 r.good) r.common.1 r.unbeaten)
  where
    same :
        (b : Node)
        → IsAbove k b
        → Alone u b
        → downstream (chain_pos tab u) (chain_pos tab b) ≡ false
        → b.id ≡ u.id
    same b ab (inl unused) nb = absurd (ground (arith, ab.in_use))
    same b ab (inr (inl ne)) nb = absurd (
        ground (arith, ab.place, chain_pos-heard tab u a.heard, chain_pos-heard tab b ab.heard, ne))
    same b ab (inr (inr eq)) nb = eq

-- The row just below the cut is found, or another with its id.
upstream_found :
    (k : ℕ) (tab : List Node) (d : Node)
    → All (λ nd. IsCut k nd × Alone d nd) tab
    → Elem d tab
    → IsBelow k d
    → d.hops + 1 ≡ k
    → (b : Node) × (most_upstream_witness tab ≡ some b) × (b.id ≡ d.id) × (hears_master b ≡ false)
unfolding most_upstream_witness
upstream_found k tab d all e a at =
    let r =
      search-Outcome upstream is_witness tab _ d upstream-IsOrder all e (IsBelow-witness k d a) in
    let below = witness-IsBelow k r.row r.common.0 r.good in
    (r.row, r.found, same r.row below r.common.1 r.unbeaten, below.starved)
  where
    same :
        (b : Node)
        → IsBelow k b
        → Alone d b
        → upstream (chain_pos tab d) (chain_pos tab b) ≡ false
        → b.id ≡ d.id
    same b ab (inl unused) nb = absurd (ground (arith, ab.in_use))
    same b ab (inr (inl ne)) nb = absurd (
        ground (arith, ab.place, chain_pos-heard tab d a.heard, chain_pos-heard tab b ab.heard, ne))
    same b ab (inr (inr eq)) nb = eq

-- Let the ring be broken between the zones d and u, k - 1 and k hops from the master's receiver,
-- with every zone's hops known, every zone from u on silent and every one up to d alive, up for
-- at least 10 s and without sight of the master, and no other zone at the place of u or d. Then
-- the verdict names exactly the segment from u to d, wherever the rows stand in the table.
pub ring_blame-cut :
    (k : ℕ) (tab : List Node) (u d : Node)
    → All (λ nd. IsCut k nd × Alone u nd) tab
    → All (λ nd. IsCut k nd × Alone d nd) tab
    → Elem u tab
    → Elem d tab
    → IsAbove k u
    → u.hops ≡ k
    → IsBelow k d
    → d.hops + 1 ≡ k
    → ring_blame tab ≡ dead u.id (some d.id)
unfolding ring_blame blame_of
ring_blame-cut k tab u d hu hd eu ed au pu bd pd =
    let (b, found, same) = downstream_found k tab u hu eu au pu in
    let (c, found', same', starved) = upstream_found k tab d hd ed bd pd in
    rw (found, found', starved, same, same') refl
