-- ===== src/Fleet/Stops.antt =====
-- What every history of calls keeps to: the sequencer stays in its list of zones, and stops at the
-- first failure.
use hill_grov.Base.{
  All, Bool, List, Option, [], ap, arith, false, none, refl, some, true, ℕ, ◌<◌, ◌∙◌, ◌∷◌, ◌≡◌, ◌≤◌,
  ◌⊎◌,
}
use hill_grov.Fleet.{
  Fleet, Act, act_failed, Beat, fleet_start, fleet_cancel, advance, FzState, fzs_idle, fzs_precheck,
  fzs_wait_ack, fzs_wait_hb, tick_at, fleet_tick, fleet_on_ack, fleet_note_submitted,
}

-- The calls of the task loop and of the commands.
pub data Call : Type 0 where
  started_with : List ℕ → Call
  cancelled : Call
  ticked : ℕ → Bool → Bool → Beat → Call
  acked : ℕ → Bool → ℕ → Call
  submitted : Bool → ℕ → ℕ → List ℕ → Call

unfoldable pub apply : Call → Fleet → Fleet × Option Act
apply (started_with zones) s = ((fleet_start s zones).0, none)
apply cancelled s = (fleet_cancel s, none)
apply (ticked now image_ok online hb) s = fleet_tick s now image_ok online hb
apply (acked seq ok now) s = fleet_on_ack s seq ok now
apply (submitted ok seq now pre_fw) s = fleet_note_submitted s ok seq now pre_fw

-- While it runs, the zone that it is at is one of at most eight.
abbrev pub InRange : Fleet → Type 0
InRange s = (s.active ≡ false) ⊎ ((s.idx < s.n) × (s.n ≤ 8))

advance-InRange : (s : Fleet) (failed : Bool) → InRange s → InRange (advance s failed)
unfolding advance
advance-InRange s failed r = ground arith

tick_at-InRange :
    (st : FzState) (s : Fleet) (now : ℕ) (image_ok online : Bool) (hb : Beat)
    → InRange s
    → InRange (tick_at st s now image_ok online hb).0
unfolding tick_at
tick_at-InRange fzs_idle s now image_ok online hb r = r
tick_at-InRange fzs_precheck s now image_ok online hb r = ground (arith, advance-InRange s true r)
tick_at-InRange fzs_wait_ack s now image_ok online hb r = r
tick_at-InRange fzs_wait_hb s now image_ok online hb r =
    ground (arith, advance-InRange s true r, advance-InRange s false r)

apply-InRange : (c : Call) (s : Fleet) → InRange s → InRange (apply c s).0
unfolding apply fleet_start fleet_cancel fleet_tick fleet_on_ack fleet_note_submitted
apply-InRange (started_with zones) s r = ground arith
apply-InRange cancelled s r = ground arith
apply-InRange (ticked now image_ok online hb) s r =
    ground (arith, tick_at-InRange s.st s now image_ok online hb r)
apply-InRange (acked seq ok now) s r = ground (arith, advance-InRange s true r)
apply-InRange (submitted ok seq now pre_fw) s r = ground (arith, advance-InRange s true r)

-- A run of calls, with the actions that they return.
unfoldable pub calls : List Call → Fleet → Fleet × List Act
calls [] s = (s, [])
calls (c ∷ cs) s =
    let (s', act) = apply c s in
    let (s'', acts) = calls cs s' in (s'', elim act [ none ↦ acts | some a ↦ a ∷ acts ])

pub calls-quiet :
    (c : Call) (cs : List Call) (s s' : Fleet)
    → apply c s ≡ (s', none)
    → calls (c ∷ cs) s ≡ calls cs s'
unfolding calls
calls-quiet c cs s s' e =
    ap
      (λ q.
        ((calls cs q.0).0, elim q.1 [ none ↦ (calls cs q.0).1 | some a ↦ a ∷ (calls cs q.0).1 ]))
      e

pub calls-acting :
    (c : Call) (cs : List Call) (s s' : Fleet) (a : Act)
    → apply c s ≡ (s', some a)
    → calls (c ∷ cs) s ≡ ((calls cs s').0, a ∷ (calls cs s').1)
unfolding calls
calls-acting c cs s s' a e =
    ap
      (λ q.
        ((calls cs q.0).0, elim q.1 [ none ↦ (calls cs q.0).1 | some b ↦ b ∷ (calls cs q.0).1 ]))
      e

-- After any calls, from a sequencer that does not run or is in range: it does not run, or its place
-- is one of the at most eight zones that it was given.
pub calls-InRange : (cs : List Call) (s : Fleet) → InRange s → InRange (calls cs s).0
unfolding calls
calls-InRange [] s r = r
calls-InRange (c ∷ cs) s r = calls-InRange cs (apply c s).0 (apply-InRange c s r)

unfoldable pub is_start : Call → Bool
is_start (started_with zones) = true
is_start _ = false

apply-stopped :
    (c : Call) (s : Fleet) → s.active ≡ false → is_start c ≡ false → apply c s ≡ (s, none)
unfolding apply is_start fleet_cancel fleet_tick fleet_on_ack fleet_note_submitted
apply-stopped (started_with zones) s off h = absurd (ground (arith, h))
apply-stopped cancelled s off h = ground (arith, off)
apply-stopped (ticked now image_ok online hb) s off h = ground (arith, off)
apply-stopped (acked seq ok now) s off h = ground (arith, off)
apply-stopped (submitted ok seq now pre_fw) s off h = ground (arith, off)

calls-stopped :
    (cs : List Call) (s : Fleet)
    → s.active ≡ false
    → All (λ c. is_start c ≡ false) cs
    → calls cs s ≡ (s, [])
unfolding calls
calls-stopped [] s off h = refl
calls-stopped (c ∷ cs) s off h =
    calls-quiet c cs s s (apply-stopped c s off h.0) ∙ calls-stopped cs s off h.1

unfoldable pub is_failed : Option Act → Bool
is_failed (some (act_failed z)) = true
is_failed _ = false

tick_at-failed :
    (st : FzState) (s : Fleet) (now : ℕ) (image_ok online : Bool) (hb : Beat)
    → is_failed (tick_at st s now image_ok online hb).1 ≡ true
    → (tick_at st s now image_ok online hb).0.active ≡ false
unfolding tick_at is_failed advance
tick_at-failed fzs_idle s now image_ok online hb h = absurd (ground (arith, h))
tick_at-failed fzs_precheck s now image_ok online hb h = ground (arith, h)
tick_at-failed fzs_wait_ack s now image_ok online hb h = absurd (ground (arith, h))
tick_at-failed fzs_wait_hb s now image_ok online hb h = ground (arith, h)

apply-failed :
    (c : Call) (s : Fleet) → is_failed (apply c s).1 ≡ true → (apply c s).0.active ≡ false
unfolding apply is_failed advance fleet_tick fleet_on_ack fleet_note_submitted
apply-failed (started_with zones) s h = absurd (ground (arith, h))
apply-failed cancelled s h = absurd (ground (arith, h))
apply-failed (ticked now image_ok online hb) s h =
    ground (arith, h, tick_at-failed s.st s now image_ok online hb)
apply-failed (acked seq ok now) s h = ground (arith, h)
apply-failed (submitted ok seq now pre_fw) s h = ground (arith, h)

-- After a call that reports a failure, calls that do not start an update report nothing and
-- change nothing, whatever they are.
pub quiet_after_failure :
    (c : Call) (cs : List Call) (s : Fleet)
    → is_failed (apply c s).1 ≡ true
    → All (λ c. is_start c ≡ false) cs
    → calls cs (apply c s).0 ≡ ((apply c s).0, [])
quiet_after_failure c cs s h starts = calls-stopped cs (apply c s).0 (apply-failed c s h) starts
