-- ===== src/Ring/Tracker/Retries.antt =====
-- The life of the entry at the head: how often it is sent, and what ends it.
use hill_grov.Base.{List, Option, [], arith, none, refl, some, sub32, ℕ, ◌+◌, ◌<◌, ◌∷◌, ◌≡◌, ◌≤◌}
use hill_grov.Ring.Tracker.{Slot, Tracker, Event, send, fail, zone_timeout, ack_timeout_ms, tick}

-- The timeout lies between 400 and 900 ms and grows with the ring.
pub ack_timeout_ms_bounds :
    (m n : ℕ)
    → m ≤ n
    → (400 ≤ ack_timeout_ms m) × (ack_timeout_ms m ≤ ack_timeout_ms n) × (ack_timeout_ms n ≤ 900)
unfolding ack_timeout_ms
ack_timeout_ms_bounds m n h = (ground arith, ground arith, ground arith)

-- The calls to tick at given times, with the events that they return, and the queue after them.
unfoldable pub ticks : List ℕ → ℕ → Tracker → List (Option Event) × Tracker
ticks [] size t = ([], t)
ticks (now ∷ rest) size t =
    let (t', ev) = tick t now size in let (evs, t'') = ticks rest size t' in (ev ∷ evs, t'')

abbrev pub sent_at : Slot → ℕ → ℕ → Slot
sent_at x k now = record x { attempts = k; last_send_ms = now }

tick-first :
    (x : Slot) (rest : Tracker) (now size : ℕ)
    → x.attempts ≡ 0
    → tick (x ∷ rest) now size ≡ (sent_at x 1 now ∷ rest, some (send (sent_at x 1 now)))
unfolding tick
tick-first x rest now size e = ground arith

tick-again :
    (x : Slot) (rest : Tracker) (k last now size : ℕ)
    → 0 < k
    → k < 3
    → ack_timeout_ms size ≤ sub32 now last
    → tick (sent_at x k last ∷ rest) now size
      ≡ (sent_at x (k + 1) now ∷ rest, some (send (sent_at x (k + 1) now)))
unfolding tick
tick-again x rest k last now size positive lt late = ground arith

tick-timeout :
    (x : Slot) (rest : Tracker) (last now size : ℕ)
    → ack_timeout_ms size ≤ sub32 now last
    → tick (sent_at x 3 last ∷ rest) now size ≡ (rest, some (fail (sent_at x 3 last) zone_timeout))
unfolding tick
tick-timeout x rest last now size late = ground arith

tick-early :
    (x : Slot) (rest : Tracker) (k last now size : ℕ)
    → 0 < k
    → sub32 now last < ack_timeout_ms size
    → tick (sent_at x k last ∷ rest) now size ≡ (sent_at x k last ∷ rest, none)
unfolding tick
tick-early x rest k last now size positive early = ground arith

-- A new entry at the head of the queue, ticked four times a timeout apart, and once in between
-- before the timeout is over: it is sent at the first three of these, unchanged but for its
-- count and time, nothing happens at the early one, and at the last its timeout is reported and
-- it leaves the queue.
pub three_sends_then_timeout :
    (x : Slot) (rest : Tracker) (size t1 early t2 t3 t4 : ℕ)
    → x.attempts ≡ 0
    → sub32 early t1 < ack_timeout_ms size
    → ack_timeout_ms size ≤ sub32 t2 t1
    → ack_timeout_ms size ≤ sub32 t3 t2
    → ack_timeout_ms size ≤ sub32 t4 t3
    → ticks (t1 ∷ early ∷ t2 ∷ t3 ∷ t4 ∷ []) size (x ∷ rest) ≡ (
      some (send (sent_at x 1 t1))
          ∷ none
          ∷ some (send (sent_at x 2 t2))
          ∷ some (send (sent_at x 3 t3))
          ∷ some (fail (sent_at x 3 t3) zone_timeout)
          ∷ [],
      rest,
    )
unfolding ticks
three_sends_then_timeout x rest size t1 early t2 t3 t4 new e l2 l3 l4 =
    rw
      (
        tick-first x rest t1 size new,
        tick-early x rest 1 t1 early size (omega arith) e,
        tick-again x rest 1 t1 t2 size (omega arith) (omega arith) l2,
        tick-again x rest 2 t2 t3 size (omega arith) (omega arith) l3,
        tick-timeout x rest t3 t4 size l4,
      )
      refl
