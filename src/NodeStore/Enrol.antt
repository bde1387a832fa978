-- ===== src/NodeStore/Enrol.antt =====
-- What the master's table keeps to when zones are enrolled, and what a zone that comes again finds.
use hill_grov.Base.{
  ==_iff, All, Bool, Bool-cases, List, Option, Option-cases, [], ap, arith, false, inl, inr, leb,
  length, memeq, memeq-take, none, refl, some, subst, suc, true, zero, ℕ, ◌&&◌, ◌+◌, ◌==◌, ◌∷◌, ◌≡◌,
  ◌≢◌, ◌≤◌,
}
use hill_grov.NodeStore.{
  Entry, Table, find, find_mac, find_id, id_at, new_entry, place_entry, assign_from, assign,
  EnrolVerdict, known, assigned, stale, Enrolled, enrol_new, enrol,
}

some_equal {ℓ} : {A : Type ℓ} {a b : A} → some a ≡ some b → a ≡ b
some_equal e = cc

-- A search that fails has failed at every entry.
pub find-none : (test : Entry → Bool) (t : Table) → find test t ≡ none → All (λ e. test e ≡ false) t
unfolding find
find-none test [] h = tt
find-none test (e ∷ rest) h = elim (Bool-cases (test e)) [
  | inl hit ↦ absurd (ground (arith, hit))
  | inr miss ↦ elim (Option-cases (find test rest)) [
    | inl none_later ↦ (miss, find-none test rest none_later)
    | inr (i, at) ↦ absurd (ground (arith, miss, at))
  ]
]

-- An entry goes into a slot that was empty, behind entries in use.
pub data Placed (x : Entry) : Table → Table → Type 0 where
  here : (e : Entry) (rest : Table) → e.id ≡ 0 → Placed x (e ∷ rest) (x ∷ rest)
  there :
      (e : Entry) {rest rest' : Table}
      → e.id ≢ 0
      → Placed x rest rest'
      → Placed x (e ∷ rest) (e ∷ rest')

pub place_entry-Placed :
    (t t' : Table) (mac : List ℕ) (id : ℕ)
    → place_entry t mac id ≡ some t'
    → Placed (new_entry mac id) t t'
unfolding place_entry
place_entry-Placed [] t' mac id h = absurd (ground arith)
place_entry-Placed (e ∷ rest) t' mac id h = elim (Bool-cases (e.id == 0)) [
  | inl free ↦
      let same : new_entry mac id ∷ rest ≡ t' = some_equal (rw free at h) in
      rw (← same) (here e rest ((==_iff e.id 0).0 free))
  | inr used ↦ elim (Option-cases (place_entry rest mac id)) [
    | inl no_room ↦ absurd (ground (arith, used, no_room))
    | inr (rest', found) ↦
        let same : e ∷ rest' ≡ t' = ground (arith, used, found) in
        rw (← same)
          (there e (λ q. ground (arith, used)) (place_entry-Placed rest rest' mac id found))
  ]
]

-- The first slot that passes a test is the new one when nothing passed it before.
pub find-Placed :
    (test : Entry → Bool) (x : Entry) {t t' : Table}
    → Placed x t t'
    → test x ≡ true
    → All (λ e. test e ≡ false) t
    → (i : ℕ) × (find test t' ≡ some i) × (id_at t' i ≡ x.id)
unfolding find id_at
find-Placed test x (here e rest free) hit misses = (0, ground (arith, hit), refl)
find-Placed test x (there e used p) hit misses =
    let (i, at, same) = find-Placed test x p hit misses.1 in
    (suc i, ground (arith, misses.0, at), same)

-- How a zone comes into the table: its id was free and between 1 and 8.
pub record Fresh (t : Table) (mac : List ℕ) (id : ℕ) (t' : Table) : Type 0 where
  pub low : 1 ≤ id
  pub high : id ≤ 8
  pub free : find_id t id ≡ none
  pub placed : place_entry t mac id ≡ some t'

assign_from-Fresh :
    (t t' : Table) (mac : List ℕ) (left id i : ℕ)
    → 1 ≤ id
    → id + left ≤ 9
    → assign_from t mac left id ≡ some (i, t')
    → Fresh t mac i t'
unfolding assign_from
assign_from-Fresh t t' mac zero id i lo hi h = absurd (ground arith)
assign_from-Fresh t t' mac (suc left) id i lo hi h = elim (Option-cases (find_id t id)) [
  | inr (slot, taken) ↦
      assign_from-Fresh t t' mac left (id + 1) i (omega arith) (omega arith)
        (ground (arith, taken, h))
  | inl free ↦ elim (Option-cases (place_entry t mac id)) [
    | inl no_room ↦ absurd (ground (arith, free, no_room))
    | inr (t₁, room) ↦
        let e : (id, t₁) ≡ (i, t') = some_equal (ground (arith, free, room, h)) in
        subst (λ (q : ℕ × Table). Fresh t mac q.0 q.1) e
          (record { low = lo; high = omega arith; free = free; placed = room })
  ]
]

abbrev is_assigned : EnrolVerdict → Bool
is_assigned assigned = true
is_assigned _ = false

-- Either the table stays, or the zone comes into it.
pub data Outcome (t : Table) (mac : List ℕ) : Enrolled → Type 0 where
  unchanged :
      (v : EnrolVerdict) (out : Option ℕ)
      → is_assigned v ≡ false
      → Outcome t mac (record { verdict = v; out_id = out; table = t })
  entered :
      (id : ℕ) (t' : Table)
      → find_mac t mac ≡ none
      → Fresh t mac id t'
      → Outcome t mac (record { verdict = assigned; out_id = some id; table = t' })

enrol_new-Outcome :
    (t : Table) (mac : List ℕ) (claimed : ℕ)
    → find_mac t mac ≡ none
    → Outcome t mac (enrol_new t mac claimed)
unfolding enrol_new assign
enrol_new-Outcome t mac claimed none_known = elim (Bool-cases (leb 1 claimed && leb claimed 8)) [
  | inl claims ↦ elim (Option-cases (find_id t claimed)) [
    | inr (slot, taken) ↦ rw (claims, taken) (unchanged _ _ refl)
    | inl free ↦ elim (Option-cases (place_entry t mac claimed)) [
      | inl no_room ↦ rw (claims, free, no_room) (unchanged _ _ refl)
      | inr (t', room) ↦
          rw (claims, free, room)
            (entered claimed t' none_known (record {
              low = ground (arith, claims);
              high = ground (arith, claims);
              free = free;
              placed = room;
            }))
    ]
  ]
  | inr nothing ↦ elim (Option-cases (assign_from t mac 8 1)) [
    | inl no_room ↦ rw (nothing, none_known, no_room) (unchanged _ _ refl)
    | inr ((id, t'), room) ↦
        rw (nothing, none_known, room)
          (entered id t' none_known
            (assign_from-Fresh t t' mac 8 1 id (omega arith) (omega arith) room))
  ]
]

pub enrol-Outcome : (t : Table) (mac : List ℕ) (claimed : ℕ) → Outcome t mac (enrol t mac claimed)
unfolding enrol
enrol-Outcome t mac claimed = elim (Option-cases (find_mac t mac)) [
  | inl unknown ↦ rw (unknown, enrol) (enrol_new-Outcome t mac claimed unknown)
  | inr (slot, at) ↦ elim (Bool-cases (claimed == id_at t slot)) [
    | inl own ↦ rw (enrol, at, own) (unchanged known _ refl)
    | inr other ↦ rw (enrol, at, other) (unchanged stale _ refl)
  ]
]

-- When enrolling a zone with a MAC of six bytes answers that it was assigned an id, enrolling it
-- in the new table with that id answers that it is known by it, and leaves the table.
pub enrol_again :
    (t : Table) (mac : List ℕ) (claimed id : ℕ)
    → 6 ≤ length mac
    → (enrol t mac claimed).verdict ≡ assigned
    → (enrol t mac claimed).out_id ≡ some id
    → let t' = (enrol t mac claimed).table in
      enrol t' mac id ≡ record { verdict = known; out_id = some id; table = t' }
enrol_again t mac claimed id len v out =
    go (enrol t mac claimed) (enrol-Outcome t mac claimed) v out
  where
    go :
        (r : Enrolled)
        → Outcome t mac r
        → r.verdict ≡ assigned
        → r.out_id ≡ some id
        → enrol r.table mac id ≡ record { verdict = known; out_id = some id; table = r.table }
    go _ (unchanged v out other) is out_eq = absurd (ground (arith, other, ap is_assigned is))
    go _ (entered i t' unknown f) is out_eq =
        let same : i ≡ id = some_equal out_eq in
        let (slot, at, id_eq) =
          find-Placed (λ e. memeq 6 e.mac mac) (new_entry mac i)
            (place_entry-Placed t t' mac i f.placed) (memeq-take 6 mac len)
            (find-none (λ e. memeq 6 e.mac mac) t (unfold find_mac in unknown)) in
        let found : find_mac t' mac ≡ some slot = unfold find_mac in at in
        unfold enrol in ground (arith, found, id_eq, same)
