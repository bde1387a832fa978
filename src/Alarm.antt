-- ===== src/Alarm.antt =====
-- components/alarm_mgr/alarm_mgr.c: the ring of the last events, as `am_copy_event` reads it. A text
-- is a list of characters, and the lock around each operation makes it one step.
pub mod Newest
pub mod Active
use hill_grov.Base.{
  List, Option, [], get_or, if◌then◌else◌, leb, ltb, none, replicate, set, some, sub32, u32, ℕ, ◌%◌,
  ◌+◌,
}

abbrev pub am_events : ℕ
am_events = 64

-- `am_event_t`
pub record AlarmEvent : Type 0 where
  pub at_s : ℕ
  pub type : ℕ
  pub node : ℕ
  pub text : List ℕ

abbrev pub no_event : AlarmEvent
no_event = record { at_s = 0; type = 0; node = 0; text = [] }

-- `am_ring` and `am_total`
pub record Log : Type 0 where
  pub ring : List AlarmEvent
  pub total : ℕ

-- `alarm_mgr_init`
abbrev pub log_init : Log
log_init = record { ring = replicate am_events no_event; total = 0 }

-- What `alarm_mgr_sink` does to the ring with the event of a line.
unfoldable pub log_event : Log → AlarmEvent → Log
log_event l ev = record { ring = set l.ring (l.total % am_events) ev; total = u32 (l.total + 1) }

-- `am_copy_event`, for a total that the caller read before; `none` is 0.
unfoldable pub copy_event : Log → ℕ → ℕ → Option AlarmEvent
copy_event l total i =
    let kept = if ltb total am_events then total else am_events in
    let seq = sub32 (sub32 total 1) i in
    if leb kept i
    then none
    else if leb (sub32 l.total seq) am_events
    then some (get_or l.ring (seq % am_events) no_event)
    else none
