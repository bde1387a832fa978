-- ===== src/Ring/Tracker/Invariant.antt =====
-- The invariant of the tracker: its bound, one entry in flight at the head, and the order of those
-- that wait.
use hill_grov.Base.{
  All, All-append, Bool, Bool-cases, [], append-nil, arith, false, if◌then◌else◌, inl, inr, length,
  length-append, ltb, refl, subst, suc, sym, true, ◌++◌, ◌<◌, ◌∷◌, ◌≡◌, ◌≤◌, ◌⊎◌,
}
use mathlib.Core.List.{Perm, perm_middle}
use mathlib.Core.List.Perm
use hill_grov.Ring.Tracker.{Slot, Tracker, is_priority_type, insert_priority, place, ring_trk_depth}

abbrev pub IsQueued : Slot → Type 0
IsQueued x = x.attempts ≡ 0

abbrev pub IsPriority : Slot → Type 0
IsPriority x = is_priority_type x.type ≡ true

abbrev pub IsOrdinary : Slot → Type 0
IsOrdinary x = is_priority_type x.type ≡ false

-- No command or firmware update stands behind a configuration frame.
abbrev pub IsOrdered : Tracker → Type 0
IsOrdered [] = Unit
IsOrdered (x ∷ xs) = (IsPriority x ⊎ All IsOrdinary xs) × IsOrdered xs

-- The entries that have not been sent, when at most the head has been.
abbrev pub waiting : Tracker → Tracker
waiting [] = []
waiting (x ∷ xs) = if ltb 0 x.attempts then xs else x ∷ xs

abbrev pub HeadSent : Tracker → Type 0
HeadSent [] = Unit
HeadSent (x ∷ xs) = x.attempts ≤ 3

abbrev pub TailQueued : Tracker → Type 0
TailQueued [] = Unit
TailQueued (x ∷ xs) = All IsQueued xs

pub record IsValid (t : Tracker) : Type 0 where
  pub depth : length t ≤ ring_trk_depth
  pub sent : HeadSent t
  pub queued : TailQueued t
  pub order : IsOrdered (waiting t)

insert_priority-IsOrdered :
    (e : Slot) (xs : Tracker) → IsPriority e → IsOrdered xs → IsOrdered (insert_priority e xs)
unfolding insert_priority
insert_priority-IsOrdered e [] p h = (inl p, tt)
insert_priority-IsOrdered e (x ∷ xs) p h = elim (Bool-cases (is_priority_type x.type)) [
  | inl q ↦ rw q (inl q, insert_priority-IsOrdered e xs p h.1)
  | inr q ↦ rw q (inl p, h)
]

append-IsOrdered :
    (e : Slot) (xs : Tracker) → IsOrdinary e → IsOrdered xs → IsOrdered (xs ++ e ∷ [])
append-IsOrdered e [] o h = (inr tt, tt)
append-IsOrdered e (x ∷ xs) o (inl p, h) = (inl p, append-IsOrdered e xs o h)
append-IsOrdered e (x ∷ xs) o (inr a, h) =
    (inr (All-append IsOrdinary xs (e ∷ []) a (o, tt)), append-IsOrdered e xs o h)

insert_priority-IsQueued :
    (e : Slot) (xs : Tracker) → IsQueued e → All IsQueued xs → All IsQueued (insert_priority e xs)
unfolding insert_priority
insert_priority-IsQueued e [] p h = (p, tt)
insert_priority-IsQueued e (x ∷ xs) p h = elim (Bool-cases (is_priority_type x.type)) [
  | inl q ↦ rw q (h.0, insert_priority-IsQueued e xs p h.1)
  | inr q ↦ rw q (p, h)
]

insert_priority-perm : (e : Slot) (xs : Tracker) → Perm (insert_priority e xs) (e ∷ xs)
unfolding insert_priority
insert_priority-perm e [] = Perm.refl (e ∷ [])
insert_priority-perm e (x ∷ xs) = elim (Bool-cases (is_priority_type x.type)) [
  | inl q ↦ rw q (Perm.trans (Perm.cons x (insert_priority-perm e xs)) (Perm.swap e x xs))
  | inr q ↦ rw q (Perm.refl (e ∷ x ∷ xs))
]

length-insert_priority : (e : Slot) (xs : Tracker) → length (insert_priority e xs) ≡ suc (length xs)
unfolding insert_priority
length-insert_priority e [] = refl
length-insert_priority e (x ∷ xs) = ground (arith, length-insert_priority e xs)

length-place : (e : Slot) (t : Tracker) → length (place e t) ≡ suc (length t)
unfolding place
length-place e [] = ground (arith, length-insert_priority e [])
length-place e (x ∷ xs) = ground (
  arith,
  length-insert_priority e xs,
  length-insert_priority e (x ∷ xs),
  length-append xs (e ∷ []),
)

waiting_queued : (l : Tracker) → All IsQueued l → waiting l ≡ l
waiting_queued [] h = refl
waiting_queued (x ∷ xs) h = ground arith

queued-HeadSent : (l : Tracker) → All IsQueued l → HeadSent l × TailQueued l
queued-HeadSent [] h = (tt, tt)
queued-HeadSent (x ∷ xs) h = (omega arith, h.1)

-- The queue after an entry is put in is a permutation of the entry and the queue before.
pub place-perm : (e : Slot) (t : Tracker) → Perm (place e t) (e ∷ t)
unfolding place
place-perm e [] = elim (Bool-cases (is_priority_type e.type)) [
  | inl p ↦ rw p (insert_priority-perm e [])
  | inr p ↦ rw p (Perm.refl (e ∷ []))
]
place-perm e (x ∷ xs) = elim (Bool-cases (is_priority_type e.type)) [
  | inl p ↦ elim (Bool-cases (ltb 0 x.attempts)) [
    | inl s ↦ rw (p, s) (Perm.trans (Perm.cons x (insert_priority-perm e xs)) (Perm.swap e x xs))
    | inr s ↦ rw (p, s) (insert_priority-perm e (x ∷ xs))
  ]
  | inr p ↦
      rw p (
        subst (λ l. Perm (x ∷ xs ++ e ∷ []) (e ∷ l)) (append-nil (x ∷ xs))
          (perm_middle (x ∷ xs) []))
]

-- What holds of the queue but for its bound.
record IsArranged (t : Tracker) : Type 0 where
  sent : HeadSent t
  queued : TailQueued t
  order : IsOrdered (waiting t)

queued-IsArranged : (l : Tracker) → All IsQueued l → IsOrdered l → IsArranged l
queued-IsArranged l h o = record {
  sent = (queued-HeadSent l h).0;
  queued = (queued-HeadSent l h).1;
  order = rw (waiting_queued l h) o;
}

-- An entry behind a head that has been sent, or one that has not.
head-IsArranged :
    (x : Slot) (xs : Tracker) (s : Bool)
    → ltb 0 x.attempts ≡ s
    → x.attempts ≤ 3
    → All IsQueued xs
    → IsOrdered (if s then xs else x ∷ xs)
    → IsArranged (x ∷ xs)
head-IsArranged x xs s e le q o = record {
  sent = le;
  queued = q;
  order = subst (λ b. IsOrdered (if b then xs else x ∷ xs)) (sym e) o;
}

place-IsArranged : (e : Slot) (t : Tracker) → IsQueued e → IsArranged t → IsArranged (place e t)
unfolding place
place-IsArranged e [] q v = elim (Bool-cases (is_priority_type e.type)) [
  | inl p ↦ rw p (unfold insert_priority in queued-IsArranged (e ∷ []) (q, tt) (inl p, tt))
  | inr p ↦ rw p (queued-IsArranged (e ∷ []) (q, tt) (inr tt, tt))
]
place-IsArranged e (x ∷ xs) q v = elim (Bool-cases (is_priority_type e.type)) [
  | inl p ↦ elim (Bool-cases (ltb 0 x.attempts)) [
    | inl s ↦
        rw (p, s)
          (head-IsArranged x (insert_priority e xs) true s v.sent
            (insert_priority-IsQueued e xs q v.queued)
            (insert_priority-IsOrdered e xs p (behind s)))
    | inr s ↦
        rw (p, s)
          (queued-IsArranged (insert_priority e (x ∷ xs))
            (insert_priority-IsQueued e (x ∷ xs) q (unsent s, v.queued))
            (insert_priority-IsOrdered e (x ∷ xs) p (with_head s)))
  ]
  | inr p ↦ elim (Bool-cases (ltb 0 x.attempts)) [
    | inl s ↦ rw p (
        head-IsArranged x (xs ++ e ∷ []) true s v.sent tail_queued
          (append-IsOrdered e xs p (behind s)))
    | inr s ↦ rw p (
        head-IsArranged x (xs ++ e ∷ []) false s v.sent tail_queued
          (append-IsOrdered e (x ∷ xs) p (with_head s)))
  ]
]
  where
    tail_queued : All IsQueued (xs ++ e ∷ [])
    tail_queued = All-append IsQueued xs (e ∷ []) v.queued (q, tt)

    behind : ltb 0 x.attempts ≡ true → IsOrdered xs
    behind s = subst (λ b. IsOrdered (if b then xs else x ∷ xs)) s v.order

    with_head : ltb 0 x.attempts ≡ false → IsOrdered (x ∷ xs)
    with_head s = subst (λ b. IsOrdered (if b then xs else x ∷ xs)) s v.order

    unsent : ltb 0 x.attempts ≡ false → IsQueued x
    unsent s = ground arith

arranged : {t : Tracker} → IsValid t → IsArranged t
arranged v = record { sent = v.sent; queued = v.queued; order = v.order }

pub place-IsValid :
    (e : Slot) (t : Tracker)
    → IsQueued e
    → IsValid t
    → length t < ring_trk_depth
    → IsValid (place e t)
place-IsValid e t q v lt =
    let a = place-IsArranged e t q (arranged v) in
    record {
      depth = omega (arith, length-place e t);
      sent = a.sent;
      queued = a.queued;
      order = a.order;
    }

pub queued-IsValid :
    (l : Tracker) → length l ≤ ring_trk_depth → All IsQueued l → IsOrdered l → IsValid l
queued-IsValid l d q o =
    let a = queued-IsArranged l q o in
    record { depth = d; sent = a.sent; queued = a.queued; order = a.order }
