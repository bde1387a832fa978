-- ===== src/Fleet.antt =====
-- components/node_mgr/fleet_seq.c: the update of the zones' firmware, one zone after the other. Each
-- call returns at most one action, which the caller carries out; `none` is a return of 0.
pub mod Rollout
pub mod Stops
use hill_grov.Base.{
  Bool, List, Option, add32, false, get_or, if◌then◌else◌, leb, length, ltb, memeq, none, not,
  replicate, some, sub32, take, true, u8, ℕ, ◌&&◌, ◌++◌, ◌+◌, ◌-◌, ◌==◌, ◌||◌,
}

abbrev pub fleet_hold_ms : ℕ
fleet_hold_ms = 180000

abbrev pub fleet_uptime_reset_s : ℕ
fleet_uptime_reset_s = 60

-- `fz_state_t`
pub data FzState : Type 0 where
  fzs_idle fzs_precheck fzs_wait_ack fzs_wait_hb : FzState

-- `fleet_t`
pub record Fleet : Type 0 where
  pub zones : List ℕ
  pub n : ℕ
  pub idx : ℕ
  pub active : Bool
  pub cancel_req : Bool
  pub st : FzState
  pub deadline_ms : ℕ
  pub ack_ms : ℕ
  pub seq : ℕ
  pub pre_fw : List ℕ

-- `fleet_act_t`
pub data Act : Type 0 where
  act_start act_failed : ℕ → Act
  act_done : ℕ → List ℕ → Act

-- `fleet_init`
abbrev pub fleet_init : Fleet
fleet_init = record {
  zones = replicate 8 0;
  n = 0;
  idx = 0;
  active = false;
  cancel_req = false;
  st = fzs_idle;
  deadline_ms = 0;
  ack_ms = 0;
  seq = 0;
  pre_fw = replicate 3 0;
}

-- What `fleet_start` returns: 0, -2 or -1.
pub data Started : Type 0 where
  started busy invalid : Started

-- `fleet_start`, of the first `length zones` places of the array
unfoldable pub fleet_start : Fleet → List ℕ → Fleet × Started
fleet_start s zones =
    let n = length zones in
    if s.active then (s, busy) else if n == 0 || ltb 8 n then (s, invalid) else (
      record fleet_init {
        zones = zones ++ replicate (8 - n) 0;
        n = n;
        active = true;
        st = fzs_precheck;
      },
      started,
    )

abbrev pub is_precheck : FzState → Bool
is_precheck fzs_precheck = true
is_precheck _ = false

-- `fleet_cancel`
unfoldable pub fleet_cancel : Fleet → Fleet
fleet_cancel s =
    if not s.active
    then s
    else if is_precheck s.st
    then record s { active = false }
    else record s { cancel_req = true }

-- `cur_zone`
abbrev pub cur_zone : Fleet → ℕ
cur_zone s = get_or s.zones s.idx 0

-- `advance`
unfoldable pub advance : Fleet → Bool → Fleet
advance s failed =
    if failed || s.cancel_req || leb s.n (u8 (s.idx + 1))
    then record s { active = false }
    else record s { idx = u8 (s.idx + 1); st = fzs_precheck }

-- `(int32_t)(a - b) >= 0` and `> 0`
abbrev pub at_or_after : ℕ → ℕ → Bool
at_or_after a b = ltb (sub32 a b) 0x80000000

abbrev pub after : ℕ → ℕ → Bool
after a b = ltb 0 (sub32 a b) && at_or_after a b

-- The last heartbeat of the zone, as the arguments of `fleet_tick` give it.
pub record Beat : Type 0 where
  pub valid : Bool
  pub fw : List ℕ
  pub uptime : ℕ
  pub arrived_ms : ℕ

-- The tests of a heartbeat: that it came after the acknowledgement, and shows new firmware or a restart.
unfoldable pub proves_update : Fleet → Beat → Bool
proves_update s hb =
    (hb.valid && after hb.arrived_ms s.ack_ms)
    && (not (memeq 3 hb.fw s.pre_fw) || ltb hb.uptime fleet_uptime_reset_s)

-- `fleet_tick`, by the state.
unfoldable pub tick_at : FzState → Fleet → ℕ → Bool → Bool → Beat → Fleet × Option Act
tick_at fzs_precheck s now image_ok online hb =
    if not image_ok || not online
    then (advance s true, some (act_failed (cur_zone s)))
    else (record s { st = fzs_wait_ack }, some (act_start (cur_zone s)))
tick_at fzs_wait_hb s now image_ok online hb =
    if proves_update s hb
    then (advance s false, some (act_done (cur_zone s) (take 3 hb.fw)))
    else if at_or_after now s.deadline_ms
    then (advance s true, some (act_failed (cur_zone s)))
    else (s, none)
tick_at _ s now image_ok online hb = (s, none)

-- `fleet_tick`
unfoldable pub fleet_tick : Fleet → ℕ → Bool → Bool → Beat → Fleet × Option Act
fleet_tick s now image_ok online hb =
    if not s.active then (s, none) else tick_at s.st s now image_ok online hb

abbrev pub is_wait_ack : FzState → Bool
is_wait_ack fzs_wait_ack = true
is_wait_ack _ = false

-- `fleet_on_ack`
unfoldable pub fleet_on_ack : Fleet → ℕ → Bool → ℕ → Fleet × Option Act
fleet_on_ack s seq ok now =
    if not s.active || not (is_wait_ack s.st) || not (seq == s.seq)
    then (s, none)
    else if not ok
    then (advance s true, some (act_failed (cur_zone s)))
    else (record s { st = fzs_wait_hb; ack_ms = now }, none)

-- `fleet_note_submitted`
unfoldable pub fleet_note_submitted : Fleet → Bool → ℕ → ℕ → List ℕ → Fleet × Option Act
fleet_note_submitted s submitted seq now pre_fw =
    if not s.active || not (is_wait_ack s.st)
    then (s, none)
    else if not submitted
    then (advance s true, some (act_failed (cur_zone s)))
    else (
      record s { seq = seq; deadline_ms = add32 now fleet_hold_ms; pre_fw = take 3 pre_fw },
      none,
    )
