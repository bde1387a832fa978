-- ===== src/Tests/Rollout.antt =====
-- An update of two zones, one that fails, and a trial of the new image.
use hill_grov.Base.{
  [], arith, false, if◌then◌else◌, inl, inr, leb, memeq, refl, true, ◌&&◌, ◌||◌, ◌∷◌, ◌≡◌,
}
use hill_grov.Fleet.{Fleet, Beat, act_start, act_done, fleet_init, fleet_start, fleet_tick, tick_at}
use hill_grov.Fleet.Stops.{
  started_with, cancelled, ticked, acked, apply, InRange, calls, calls-InRange, is_start, is_failed,
  quiet_after_failure,
}
use hill_grov.Fleet.Rollout.{Turn, IsGood, all_turns, in_order, rollout}
use hill_grov.Trial.{Probes, trial_eval, trial_pass, trial_pending, trial_fail}
use hill_grov.Trial.Verdicts.{is_healthy, trial_timeline}

abbrev old_beat : Beat
old_beat = record { valid = true; fw = 1 ∷ 0 ∷ 0 ∷ []; uptime = 86400; arrived_ms = 500 }

abbrev first_turn : Turn
first_turn = record {
  told_ms = 1000;
  before = old_beat;
  seq = 7;
  submitted_ms = 1001;
  pre_fw = 1 ∷ 0 ∷ 0 ∷ [];
  acked_ms = 1200;
  seen_ms = 60000;
  hb = record { valid = true; fw = 1 ∷ 1 ∷ 0 ∷ []; uptime = 3; arrived_ms = 59000 };
}

-- The same version again: the restart shows.
abbrev second_turn : Turn
second_turn = record first_turn {
  hb = record { valid = true; fw = 1 ∷ 0 ∷ 0 ∷ []; uptime = 3; arrived_ms = 59000 };
}

first-IsGood : IsGood first_turn
first-IsGood = record { valid = refl; later = refl; proof = inl (unfold memeq in refl) }

second-IsGood : IsGood second_turn
second-IsGood = record { valid = refl; later = refl; proof = inr (omega arith) }

rollout_example :
    let (s', acts) =
      calls (started_with (5 ∷ 2 ∷ []) ∷ all_turns (first_turn ∷ second_turn ∷ [])) fleet_init in
    (acts ≡ in_order (5 ∷ 2 ∷ []) (first_turn ∷ second_turn ∷ [])) × (s'.active ≡ false)
rollout_example =
    rollout fleet_init 5 (2 ∷ []) (first_turn ∷ second_turn ∷ []) refl (omega arith) refl
      (first-IsGood, (second-IsGood, tt))

in_order_run : in_order (5 ∷ []) (first_turn ∷ []) ≡ act_start 5 ∷ act_done 5 (1 ∷ 1 ∷ 0 ∷ []) ∷ []
unfolding in_order
in_order_run = refl

calls-InRange_example : InRange (calls (started_with (5 ∷ 2 ∷ []) ∷ cancelled ∷ []) fleet_init).0
calls-InRange_example =
    calls-InRange (started_with (5 ∷ 2 ∷ []) ∷ cancelled ∷ []) fleet_init (inl refl)

abbrev running : Fleet
running = (fleet_start fleet_init (5 ∷ 2 ∷ [])).0

-- The zone is offline.
quiet_after_failure_example :
    calls (cancelled ∷ acked 7 true 9 ∷ []) (apply (ticked 10 true false old_beat) running).0
    ≡ ((apply (ticked 10 true false old_beat) running).0, [])
unfolding fleet_start apply fleet_tick tick_at is_failed is_start
quiet_after_failure_example =
    quiet_after_failure (ticked 10 true false old_beat) (cancelled ∷ acked 7 true 9 ∷ []) running
      refl (refl, (refl, tt))

abbrev probes : Probes
probes = record {
  cfg_loaded = true;
  drivers_ok = true;
  ticks = 60;
  twdt_ok = true;
  min_heap_kb = 80;
  master_frame_seen = false;
  confirmed = false;
}

-- The clock comes round during the trial.
trial_timeline_example :
    (trial_eval probes true 4294967000 2704 ≡ (
      if probes.confirmed || (is_healthy probes && probes.master_frame_seen)
      then trial_pass
      else if leb 180000 3000
      then trial_fail
      else trial_pending))
    × (trial_eval probes false 4294967000 2704 ≡ (
        if probes.confirmed || (is_healthy probes && leb 60000 3000)
        then trial_pass
        else trial_pending))
trial_timeline_example = trial_timeline probes 4294967000 4294970000 (omega arith) (omega arith)
