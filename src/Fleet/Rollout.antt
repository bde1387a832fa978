-- ===== src/Fleet/Rollout.antt =====
-- An update of the fleet in which every zone succeeds.
use native.Mathlib.Nat.{add-zero}
use hill_grov.Base.{
  All, List, [], add32, ap, append_assoc, ap₂, arith, false, get_or, get_or-append_right,
  if◌then◌else◌, length, length-append, memeq, memeq-take_right, none, not, refl, replicate, some,
  subst, sym, take, true, u8, ℕ, ◌++◌, ◌+◌, ◌-◌, ◌<◌, ◌∙◌, ◌∷◌, ◌≡◌, ◌≤◌, ◌⊎◌,
}
use hill_grov.Fleet.{
  Fleet, Act, act_start, act_done, Beat, fleet_init, fleet_start, advance, fzs_precheck,
  fzs_wait_ack, fzs_wait_hb, tick_at, fleet_tick, fleet_on_ack, fleet_note_submitted, proves_update,
  after, cur_zone,
}
use hill_grov.Fleet.Stops.{
  Call, started_with, ticked, acked, submitted, apply, calls, calls-quiet, calls-acting,
}

-- What happens to one zone: when it is told, submitted and acknowledged, and the heartbeats then.
pub record Turn : Type 0 where
  pub told_ms : ℕ
  pub before : Beat
  pub seq : ℕ
  pub submitted_ms : ℕ
  pub pre_fw : List ℕ
  pub acked_ms : ℕ
  pub seen_ms : ℕ
  pub hb : Beat

-- A heartbeat that came after the acknowledgement, with new firmware or from a zone just restarted.
pub record IsGood (t : Turn) : Type 0 where
  pub valid : t.hb.valid ≡ true
  pub later : after t.hb.arrived_ms t.acked_ms ≡ true
  pub proof : (memeq 3 t.hb.fw t.pre_fw ≡ false) ⊎ (t.hb.uptime < 60)

unfoldable pub turn_calls : Turn → List Call
turn_calls t =
    ticked t.told_ms true true t.before
    ∷ submitted true t.seq t.submitted_ms t.pre_fw
    ∷ acked t.seq true t.acked_ms
    ∷ ticked t.seen_ms true true t.hb
    ∷ []

abbrev told : Fleet → Fleet
told s = record s { st = fzs_wait_ack }

abbrev ordered : Fleet → Turn → Fleet
ordered s t = record s {
  st = fzs_wait_ack;
  seq = t.seq;
  deadline_ms = add32 t.submitted_ms 180000;
  pre_fw = take 3 t.pre_fw;
}

abbrev waiting : Fleet → Turn → Fleet
waiting s t = record (ordered s t) { st = fzs_wait_hb; ack_ms = t.acked_ms }

-- The sequencer is about to turn to its current zone.
record IsReady (s : Fleet) : Type 0 where
  running : s.active ≡ true
  wanted : s.cancel_req ≡ false
  fresh : s.st ≡ fzs_precheck

tick-told :
    (s : Fleet) (now : ℕ) (hb : Beat)
    → IsReady s
    → fleet_tick s now true true hb ≡ (told s, some (act_start (cur_zone s)))
unfolding fleet_tick tick_at
tick-told s now hb r =
    ap (λ st. if not s.active then (s, none) else tick_at st s now true true hb) r.fresh
    ∙ ground (arith, r.running)

waiting-proves_update : (s : Fleet) (t : Turn) → IsGood t → proves_update (waiting s t) t.hb ≡ true
unfolding proves_update
waiting-proves_update s t g =
    ground (arith, g.valid, g.later, g.proof, memeq-take_right 3 t.hb.fw t.pre_fw)

tick-seen :
    (s : Fleet) (t : Turn)
    → IsReady s
    → IsGood t
    → fleet_tick (waiting s t) t.seen_ms true true t.hb
      ≡ (advance (waiting s t) false, some (act_done (cur_zone s) (take 3 t.hb.fw)))
unfolding fleet_tick tick_at
tick-seen s t r g = ground (arith, r.running, waiting-proves_update s t g)

-- The four calls of a turn.
calls-turn_calls :
    (s : Fleet) (t : Turn) (rest : List Call)
    → IsReady s
    → IsGood t
    → let s' = advance (waiting s t) false in
      calls (turn_calls t ++ rest) s ≡ (
        (calls rest s').0,
        act_start (cur_zone s) ∷ act_done (cur_zone s) (take 3 t.hb.fw) ∷ (calls rest s').1,
      )
unfolding turn_calls apply fleet_note_submitted fleet_on_ack
calls-turn_calls s t rest r g =
    calls-acting (ticked t.told_ms true true t.before) _ s (told s) (act_start (cur_zone s))
      (tick-told s t.told_ms t.before r)
    ∙ ap (λ q. (q.0, act_start (cur_zone s) ∷ q.1))
        (calls-quiet (submitted true t.seq t.submitted_ms t.pre_fw) _ (told s) (ordered s t)
            (ground (arith, r.running))
          ∙ calls-quiet (acked t.seq true t.acked_ms) _ (ordered s t) (waiting s t)
              (ground (arith, r.running))
          ∙ calls-acting (ticked t.seen_ms true true t.hb) rest (waiting s t)
              (advance (waiting s t) false) (act_done (cur_zone s) (take 3 t.hb.fw))
              (tick-seen s t r g))

-- The calls of turns one after the other, and what is then reported.
unfoldable pub all_turns : List Turn → List Call
all_turns [] = []
all_turns (t ∷ ts) = turn_calls t ++ all_turns ts

unfoldable pub in_order : List ℕ → List Turn → List Act
in_order [] ts = []
in_order (z ∷ zs) [] = []
in_order (z ∷ zs) (t ∷ ts) = act_start z ∷ act_done z (take 3 t.hb.fw) ∷ in_order zs ts

-- The zones that are left, behind those that are done.
record Remaining (s : Fleet) (behind zs pad : List ℕ) : Type 0 where
  ready : IsReady s
  zones : s.zones ≡ behind ++ (zs ++ pad)
  idx : s.idx ≡ length behind
  n : s.n ≡ length behind + length zs
  few : s.n ≤ 8

cur_zone-Remaining :
    (s : Fleet) (behind zs pad : List ℕ) (z : ℕ) → Remaining s behind (z ∷ zs) pad → cur_zone s ≡ z
cur_zone-Remaining s behind zs pad z r =
    ap₂ (λ l i. get_or l i 0) r.zones (r.idx ∙ sym (add-zero (length behind)))
    ∙ get_or-append_right behind ((z ∷ zs) ++ pad) 0 0

advance-last :
    (s : Fleet) (behind pad : List ℕ) (z : ℕ) (t : Turn)
    → Remaining s behind (z ∷ []) pad
    → (advance (waiting s t) false).active ≡ false
unfolding advance
advance-last s behind pad z t r = ground (arith, r.idx, r.n, r.few)

advance-next :
    (s : Fleet) (behind zs pad : List ℕ) (z y : ℕ) (t : Turn)
    → Remaining s behind (z ∷ y ∷ zs) pad
    → Remaining (advance (waiting s t) false) (behind ++ z ∷ []) (y ∷ zs) pad
advance-next s behind zs pad z y t r =
    subst (λ s'. Remaining s' (behind ++ z ∷ []) (y ∷ zs) pad) (sym moved)
      (record {
        ready = record { running = r.ready.running; wanted = r.ready.wanted; fresh = refl };
        zones = r.zones ∙ sym (append_assoc behind (z ∷ []) ((y ∷ zs) ++ pad));
        idx = omega (arith, r.idx, r.n, r.few, length-append behind (z ∷ []));
        n = omega (arith, r.n, length-append behind (z ∷ []));
        few = r.few;
      })
  where
    moved :
        advance (waiting s t) false
        ≡ record (waiting s t) { idx = u8 (s.idx + 1); st = fzs_precheck }
    moved = unfold advance in ground (arith, r.idx, r.n, r.few, r.ready.wanted)

turns-Remaining :
    (ts : List Turn) (zs : List ℕ) (z : ℕ) (s : Fleet) (behind pad : List ℕ)
    → Remaining s behind (z ∷ zs) pad
    → length ts ≡ length (z ∷ zs)
    → All IsGood ts
    → ((calls (all_turns ts) s).1 ≡ in_order (z ∷ zs) ts)
      × ((calls (all_turns ts) s).0.active ≡ false)
unfolding all_turns in_order
turns-Remaining [] zs z s behind pad r e g = absurd (omega arith)
turns-Remaining (t ∷ ts) [] z s behind pad r e g =
    rw (calls-turn_calls s t (all_turns ts) r.ready g.0, cur_zone-Remaining s behind [] pad z r)
      (ended ts (omega arith))
  where
    s' : Fleet
    s' = advance (waiting s t) false

    ended :
        (ts : List Turn)
        → length ts ≡ 0
        → (act_start z ∷ act_done z (take 3 t.hb.fw) ∷ (calls (all_turns ts) s').1
            ≡ act_start z ∷ act_done z (take 3 t.hb.fw) ∷ [])
          × ((calls (all_turns ts) s').0.active ≡ false)
    ended [] e = unfold all_turns calls in (refl, advance-last s behind pad z t r)
    ended (t ∷ ts) e = absurd (omega arith)
turns-Remaining (t ∷ ts) (y ∷ zs) z s behind pad r e g =
    let (acts, ended) =
      turns-Remaining ts zs y (advance (waiting s t) false) (behind ++ z ∷ []) pad
        (advance-next s behind zs pad z y t r) (omega arith) g.1 in
    rw
      (
        calls-turn_calls s t (all_turns ts) r.ready g.0,
        cur_zone-Remaining s behind (y ∷ zs) pad z r,
      )
      (ap (λ as'. act_start z ∷ act_done z (take 3 t.hb.fw) ∷ as') acts, ended)

-- A fleet update of one to eight zones, started while none runs, with a good turn for each zone
-- (told, submitted, acknowledged, then a heartbeat later than the acknowledgement that shows new
-- firmware or a restart): the zones are started and done one by one in the order given, nothing
-- else is reported, and then it does not run any more.
pub rollout :
    (s : Fleet) (z : ℕ) (zs : List ℕ) (ts : List Turn)
    → s.active ≡ false
    → length (z ∷ zs) ≤ 8
    → length ts ≡ length (z ∷ zs)
    → All IsGood ts
    → let (s', acts) = calls (started_with (z ∷ zs) ∷ all_turns ts) s in
      (acts ≡ in_order (z ∷ zs) ts) × (s'.active ≡ false)
rollout s z zs ts off few e g = rw begun (turns-Remaining ts zs z begin [] pad remaining e g)
  where
    pad : List ℕ
    pad = replicate (8 - length (z ∷ zs)) 0

    begin : Fleet
    begin = record fleet_init {
      zones = (z ∷ zs) ++ pad;
      n = length (z ∷ zs);
      active = true;
      st = fzs_precheck;
    }

    begun : calls (started_with (z ∷ zs) ∷ all_turns ts) s ≡ calls (all_turns ts) begin
    begun =
        calls-quiet (started_with (z ∷ zs)) (all_turns ts) s begin
          (unfold apply fleet_start in ground (arith, off))

    remaining : Remaining begin [] (z ∷ zs) pad
    remaining = record {
      ready = record { running = refl; wanted = refl; fresh = refl };
      zones = refl;
      idx = refl;
      n = omega arith;
      few = few;
    }
