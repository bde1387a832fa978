-- ===== src/NodeStore/Unique.antt =====
-- No two zones of the master's table share an id or a MAC.
use hill_grov.Base.{
  All, List, [], arith, false, inl, inr, memeq, memeq-take_right, memeq_sym, none, sym, take, ℕ,
  ◌==◌, ◌∙◌, ◌∷◌, ◌≡◌, ◌≢◌, ◌≤◌, ◌⊎◌,
}
use hill_grov.NodeStore.{Entry, Table, find, find_id, find_mac, new_entry, Enrolled, enrol}
use hill_grov.NodeStore.Enrol.{
  find-none, Placed, here, there, place_entry-Placed, Outcome, unchanged, entered, enrol-Outcome,
}

-- An entry in use has another id and another MAC.
abbrev pub Apart : ℕ → List ℕ → Entry → Type 0
Apart id mac e = (e.id ≡ 0) ⊎ ((e.id ≢ id) × (memeq 6 e.mac mac ≡ false))

abbrev pub Distinct : Table → Type 0
Distinct [] = Unit {0}
Distinct (e ∷ rest) = ((e.id ≡ 0) ⊎ All (Apart e.id e.mac) rest) × Distinct rest

Placed-All {ℓ} :
    (P : Entry → Type ℓ) (x : Entry) {t t' : Table} → Placed x t t' → P x → All P t → All P t'
Placed-All P x (here e rest free) px h = (px, h.1)
Placed-All P x (there e used p) px h = (h.0, Placed-All P x p px h.1)

Apart-sym : (e x : Entry) → e.id ≢ 0 → Apart x.id x.mac e → Apart e.id e.mac x
Apart-sym e x used (inl free) = absurd (used free)
Apart-sym e x used (inr (ne, m)) = inr ((λ q. ne (sym q)), memeq_sym 6 x.mac e.mac ∙ m)

Placed-Distinct :
    (x : Entry) {t t' : Table} → Placed x t t' → All (Apart x.id x.mac) t → Distinct t → Distinct t'
Placed-Distinct x (here e rest free) apart d = (inr apart.1, d.1)
Placed-Distinct x (there e used p) apart (inl free, d) = absurd (used free)
Placed-Distinct x (there e used p) apart (inr others, d) = (
  inr (Placed-All (Apart e.id e.mac) x p (Apart-sym e x used apart.0) others),
  Placed-Distinct x p apart.1 d,
)

All-Apart :
    (id : ℕ) (mac : List ℕ) (t : Table)
    → All (λ e. (e.id == id) ≡ false) t
    → All (λ e. memeq 6 e.mac mac ≡ false) t
    → All (Apart id (take 6 mac)) t
All-Apart id mac [] hs ms = tt
All-Apart id mac (e ∷ t) hs ms = (
  inr ((λ q. ground (arith, hs.0)), memeq-take_right 6 e.mac mac ∙ ms.0),
  All-Apart id mac t hs.1 ms.1,
)

-- In a table whose entries in use share neither an id nor a MAC, this stays so when a zone is
-- enrolled, whatever its MAC and the id that it claims.
pub enrol-Distinct :
    (t : Table) (mac : List ℕ) (claimed : ℕ) → Distinct t → Distinct (enrol t mac claimed).table
unfolding find_id
enrol-Distinct t mac claimed d = go (enrol t mac claimed) (enrol-Outcome t mac claimed)
  where
    go : (r : Enrolled) → Outcome t mac r → Distinct r.table
    go _ (unchanged v out other) = d
    go _ (entered id t' unknown f) =
        Placed-Distinct (new_entry mac id) (place_entry-Placed t t' mac id f.placed)
          (All-Apart id mac t (find-none (λ e. e.id == id) t (vacant f.low f.free))
            (find-none (λ e. memeq 6 e.mac mac) t (unfold find_mac in unknown)))
          d
      where
        vacant : 1 ≤ id → find_id t id ≡ none → find (λ e. e.id == id) t ≡ none
        vacant lo h = ground (arith, h)
