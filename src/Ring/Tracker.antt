-- ===== src/Ring/Tracker.antt =====
-- components/ring_proto/ring_trk.c: the master's queue of frames that wait for their acknowledgement,
-- one in flight at a time. `q[0..n)` is the list; the places behind it hold nothing that is read.
pub mod Invariant
pub mod Steps
pub mod Retries
use hill_grov.Base.{
  Bool, List, Option, [], if◌then◌else◌, leb, length, ltb, none, not, some, sub32, take, ℕ, ◌*◌,
  ◌++◌, ◌+◌, ◌==◌, ◌||◌, ◌∷◌,
}
use hill_grov.Ring.Frame.{Hdr, encode, ring_wire_max}
use hill_grov.Ring.Route.{t_cmd, t_fw_update}

abbrev pub ring_trk_depth : ℕ
ring_trk_depth = 8

-- `ring_trk_slot_t`; the length of `wire` is `wire_len`.
pub record Slot : Type 0 where
  pub seq : ℕ
  pub dst : ℕ
  pub type : ℕ
  pub wire : List ℕ
  pub attempts : ℕ
  pub last_send_ms : ℕ

abbrev pub Tracker : Type 0
Tracker = List Slot

pub data Token : Type 0 where
  zone_timeout zone_unknown : Token

-- `ring_trk_ev_t`, by its kind.
pub data Event : Type 0 where
  send : Slot → Event
  done : Slot → ℕ → List ℕ → Event
  fail : Slot → Token → Event

-- `ring_ack_timeout_ms`
unfoldable pub ack_timeout_ms : ℕ → ℕ
ack_timeout_ms ring_size =
    let v = 200 + 40 * ring_size in
    let v' = if ltb v 400 then 400 else v in if ltb 900 v' then 900 else v'

unfoldable pub is_priority_type : ℕ → Bool
is_priority_type t = t == t_cmd || t == t_fw_update

-- The `while` loop of submit from the first of the given entries on, with what is then done: the
-- entries from `idx` on move up by one and `e` is put there.
unfoldable pub insert_priority : Slot → Tracker → Tracker
insert_priority e [] = e ∷ []
insert_priority e (x ∷ xs) =
    let later = x ∷ insert_priority e xs in if is_priority_type x.type then later else e ∷ x ∷ xs

-- The index starts behind an entry that is in flight.
unfoldable pub place : Slot → Tracker → Tracker
place e [] = if is_priority_type e.type then insert_priority e [] else [] ++ e ∷ []
place e (x ∷ xs) =
    if is_priority_type e.type
    then (if ltb 0 x.attempts then x ∷ insert_priority e xs else insert_priority e (x ∷ xs))
    else x ∷ xs ++ e ∷ []

-- `ring_trk_submit`; `none` is -1, with the queue as it was.
unfoldable pub submit : Tracker → Hdr → List ℕ → Option Tracker
submit t h payload =
    if leb ring_trk_depth (length t) then none else elim (encode h payload ring_wire_max) [
      | none ↦ none
      | some wire ↦ some (
          place
            (record {
              seq = h.seq;
              dst = h.dst;
              type = h.type;
              wire = wire;
              attempts = 0;
              last_send_ms = 0;
            })
            t)
    ]

-- `ring_trk_tick`: the queue after it, and the event when it returns 1.
unfoldable pub tick : Tracker → ℕ → ℕ → Tracker × Option Event
tick [] now ring_size = ([], none)
tick (head ∷ rest) now ring_size =
    let first = record head { attempts = 1; last_send_ms = now } in
    let again = record head { attempts = head.attempts + 1; last_send_ms = now } in
    if head.attempts == 0
    then (first ∷ rest, some (send first))
    else if ltb (sub32 now head.last_send_ms) (ack_timeout_ms ring_size)
    then (head ∷ rest, none)
    else if leb 3 head.attempts
    then (rest, some (fail head zone_timeout))
    else (again ∷ rest, some (send again))

-- `ring_trk_ack`: the detail is cut to the 125 bytes that the event holds.
unfoldable pub ack : Tracker → ℕ → ℕ → List ℕ → Tracker × Option Event
ack [] acked_seq status detail = ([], none)
ack (head ∷ rest) acked_seq status detail =
    if head.attempts == 0 || not (head.seq == acked_seq)
    then (head ∷ rest, none)
    else (rest, some (done head status (take 125 detail)))

-- `ring_trk_cancel`: `none` is -1.
unfoldable pub cancel : Tracker → ℕ → Option Tracker
cancel [] seq = none
cancel (x ∷ xs) seq =
    let later : Option Tracker = elim (cancel xs seq) [ none ↦ none | some xs' ↦ some (x ∷ xs') ] in
    if not (x.seq == seq) then later else if not (x.attempts == 0) then none else some xs

-- `ring_trk_unclaimed`, for a frame that came back with this sequence number and destination.
unfoldable pub unclaimed : Tracker → Hdr → Tracker × Option Event
unclaimed [] returned = ([], none)
unclaimed (head ∷ rest) returned =
    if head.attempts == 0
    then (head ∷ rest, none)
    else if not (head.seq == returned.seq) || not (head.dst == returned.dst)
    then (head ∷ rest, none)
    else (rest, some (fail head zone_unknown))
