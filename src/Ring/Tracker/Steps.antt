-- ===== src/Ring/Tracker/Steps.antt =====
-- Every operation of the tracker keeps its invariant, so that every history does.
use hill_grov.Base.{
  ==_iff, All, Bool-cases, List, Option, Option-cases, [], ap, arith, false, if◌then◌else◌, inl,
  inr, leb, length, ltb, lt→ltb, none, not, refl, some, sub32, subst, suc, sym, true, ℕ, ◌<◌, ◌==◌,
  ◌||◌, ◌∷◌, ◌≡◌, ◌≢◌, ◌≤◌, ◌⊎◌,
}
use hill_grov.Ring.Frame.{Hdr, encode, ring_wire_max}
use hill_grov.Ring.Tracker.{
  Slot, Tracker, submit, tick, ack, cancel, unclaimed, ring_trk_depth, ack_timeout_ms,
}
use hill_grov.Ring.Tracker.Invariant.{
  IsValid, IsQueued, IsOrdinary, IsOrdered, waiting, place-IsValid, queued-IsValid,
}

-- The calls that node_mgr makes, with their arguments.
pub data Op : Type 0 where
  submitted : Hdr → List ℕ → Op
  ticked : ℕ → ℕ → Op
  acked : ℕ → ℕ → List ℕ → Op
  cancelled : ℕ → Op
  returned : Hdr → Op

-- The queue after a call; one that returns -1 leaves it.
abbrev or_kept : Tracker → Option Tracker → Tracker
or_kept t none = t
or_kept t (some t') = t'

unfoldable pub apply : Op → Tracker → Tracker
apply (submitted h payload) t = or_kept t (submit t h payload)
apply (ticked now ring_size) t = (tick t now ring_size).0
apply (acked seq status detail) t = (ack t seq status detail).0
apply (cancelled seq) t = or_kept t (cancel t seq)
apply (returned h) t = (unclaimed t h).0

unfoldable pub run : List Op → Tracker → Tracker
run [] t = t
run (op ∷ ops) t = run ops (apply op t)

tail-IsOrdered : (x : Slot) (xs : Tracker) → IsOrdered (waiting (x ∷ xs)) → IsOrdered xs
tail-IsOrdered x xs h = elim (Bool-cases (ltb 0 x.attempts)) [
  | inl s ↦ subst (λ b. IsOrdered (if b then xs else x ∷ xs)) s h
  | inr s ↦ (subst (λ b. IsOrdered (if b then xs else x ∷ xs)) s h).1
]

-- The head leaves.
tail-IsValid : (x : Slot) (xs : Tracker) → IsValid (x ∷ xs) → IsValid xs
tail-IsValid x xs v = queued-IsValid xs (omega arith) v.queued (tail-IsOrdered x xs v.order)

-- The head is sent, for the first time or again.
resent-IsValid :
    (x y : Slot) (xs : Tracker)
    → IsValid (x ∷ xs)
    → 0 < y.attempts
    → y.attempts ≤ 3
    → IsValid (y ∷ xs)
resent-IsValid x y xs v positive le = record {
  depth = v.depth;
  sent = le;
  queued = v.queued;
  order =
      subst (λ b. IsOrdered (if b then xs else y ∷ xs)) (sym (lt→ltb 0 y.attempts positive))
        (tail-IsOrdered x xs v.order);
}

submit-IsValid :
    (t : Tracker) (h : Hdr) (payload : List ℕ)
    → IsValid t
    → IsValid (or_kept t (submit t h payload))
unfolding submit
submit-IsValid t h payload v = elim (Bool-cases (leb ring_trk_depth (length t))) [
  | inl full ↦ rw full v
  | inr room ↦ elim (Option-cases (encode h payload ring_wire_max)) [
    | inl bad ↦ rw (room, bad) v
    | inr (wire, ok) ↦ rw (room, ok) (place-IsValid _ t refl v (ground arith))
  ]
]

tick-IsValid : (t : Tracker) (now ring_size : ℕ) → IsValid t → IsValid (tick t now ring_size).0
unfolding tick
tick-IsValid [] now ring_size v = v
tick-IsValid (x ∷ xs) now ring_size v = elim (Bool-cases (x.attempts == 0)) [
  | inl new ↦ rw new (resent-IsValid x _ xs v (omega arith) (omega arith))
  | inr old ↦ elim (Bool-cases (ltb (sub32 now x.last_send_ms) (ack_timeout_ms ring_size))) [
    | inl early ↦ rw (old, early) v
    | inr late ↦ elim (Bool-cases (leb 3 x.attempts)) [
      | inl spent ↦ rw (old, late, spent) (tail-IsValid x xs v)
      | inr more ↦ rw (old, late, more) (resent-IsValid x _ xs v (omega arith) (ground arith))
    ]
  ]
]

ack-IsValid :
    (t : Tracker) (seq status : ℕ) (detail : List ℕ)
    → IsValid t
    → IsValid (ack t seq status detail).0
unfolding ack
ack-IsValid [] seq status detail v = v
ack-IsValid (x ∷ xs) seq status detail v =
    elim (Bool-cases (x.attempts == 0 || not (x.seq == seq))) [
      | inl other ↦ rw other v
      | inr own ↦ rw own (tail-IsValid x xs v)
    ]

unclaimed-IsValid : (t : Tracker) (h : Hdr) → IsValid t → IsValid (unclaimed t h).0
unfolding unclaimed
unclaimed-IsValid [] h v = v
unclaimed-IsValid (x ∷ xs) h v = elim (Bool-cases (x.attempts == 0)) [
  | inl new ↦ rw new v
  | inr old ↦ elim (Bool-cases (not (x.seq == h.seq) || not (x.dst == h.dst))) [
    | inl other ↦ rw (old, other) v
    | inr own ↦ rw (old, own) (tail-IsValid x xs v)
  ]
]

-- A queue without its first entry of a sequence number, which has not been sent.
pub data Without (seq : ℕ) : Tracker → Tracker → Type 0 where
  here : (x : Slot) (xs : Tracker) → x.seq ≡ seq → IsQueued x → Without seq (x ∷ xs) xs
  there :
      (x : Slot) {xs ys : Tracker} → x.seq ≢ seq → Without seq xs ys → Without seq (x ∷ xs) (x ∷ ys)

some_injective : {a b : Tracker} → some a ≡ some b → a ≡ b
some_injective e = cc

-- When `ring_trk_cancel` succeeds it takes out the first entry of that sequence number, which was
-- not in flight, and leaves the others in their order.
pub cancel-Without : (t t' : Tracker) (seq : ℕ) → cancel t seq ≡ some t' → Without seq t t'
unfolding cancel
cancel-Without [] t' seq e = absurd (ground arith)
cancel-Without (x ∷ xs) t' seq e = elim (Bool-cases (x.seq == seq)) [
  | inl own ↦ elim (Bool-cases (x.attempts == 0)) [
    | inl queued ↦
        let same : xs ≡ t' = some_injective (rw (own, queued) at e) in
        rw (← same) (here x xs ((==_iff x.seq seq).0 own) ((==_iff x.attempts 0).0 queued))
    | inr sent ↦ absurd (ground (arith, own, sent))
  ]
  | inr other ↦ elim (Option-cases (cancel xs seq)) [
    | inl gone ↦ absurd (ground (arith, other, gone))
    | inr (ys, found) ↦
        let same : x ∷ ys ≡ t' = ground (arith, other, found) in
        rw (← same) (there x (λ q. ground (arith, other)) (cancel-Without xs ys seq found))
  ]
]

Without-All {ℓ} :
    (P : Slot → Type ℓ) {seq : ℕ} {xs ys : Tracker} → Without seq xs ys → All P xs → All P ys
Without-All P (here x xs e q) h = h.1
Without-All P (there x ne w) h = (h.0, Without-All P w h.1)

Without-IsOrdered : {seq : ℕ} {xs ys : Tracker} → Without seq xs ys → IsOrdered xs → IsOrdered ys
Without-IsOrdered (here x xs e q) h = h.1
Without-IsOrdered (there x ne w) (inl p, h) = (inl p, Without-IsOrdered w h)
Without-IsOrdered (there x ne w) (inr a, h) =
    (inr (Without-All IsOrdinary w a), Without-IsOrdered w h)

length-Without : {seq : ℕ} {xs ys : Tracker} → Without seq xs ys → length xs ≡ suc (length ys)
length-Without (here x xs e q) = refl
length-Without (there x ne w) = ap suc (length-Without w)

Without-IsValid : {seq : ℕ} {t t' : Tracker} → Without seq t t' → IsValid t → IsValid t'
Without-IsValid (here x xs e q) v = tail-IsValid x xs v
Without-IsValid (there x {xs} {ys} ne w) v = record {
  depth = omega (arith, length-Without w);
  sent = v.sent;
  queued = Without-All IsQueued w v.queued;
  order = behind (Bool-cases (ltb 0 x.attempts));
}
  where
    behind : (ltb 0 x.attempts ≡ true) ⊎ (ltb 0 x.attempts ≡ false) → IsOrdered (waiting (x ∷ ys))
    behind (inl s) =
        subst (λ b. IsOrdered (if b then ys else x ∷ ys)) (sym s)
          (Without-IsOrdered w (tail-IsOrdered x xs v.order))
    behind (inr s) =
        subst (λ b. IsOrdered (if b then ys else x ∷ ys)) (sym s)
          (Without-IsOrdered (there x ne w)
            (subst (λ b. IsOrdered (if b then xs else x ∷ xs)) s v.order))

cancel-IsValid : (t : Tracker) (seq : ℕ) → IsValid t → IsValid (or_kept t (cancel t seq))
cancel-IsValid t seq v = elim (Option-cases (cancel t seq)) [
  | inl gone ↦ rw gone v
  | inr (t', found) ↦ rw found (Without-IsValid (cancel-Without t t' seq found) v)
]

-- Every call keeps the invariant.
pub apply-IsValid : (op : Op) (t : Tracker) → IsValid t → IsValid (apply op t)
unfolding apply
apply-IsValid (submitted h payload) t v = submit-IsValid t h payload v
apply-IsValid (ticked now ring_size) t v = tick-IsValid t now ring_size v
apply-IsValid (acked seq status detail) t v = ack-IsValid t seq status detail v
apply-IsValid (cancelled seq) t v = cancel-IsValid t seq v
apply-IsValid (returned h) t v = unclaimed-IsValid t h v
