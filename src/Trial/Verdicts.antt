-- ===== src/Trial/Verdicts.antt =====
-- The verdicts of a trial as time passes.
use hill_grov.Base.{
  Bool, arith, false, if◌then◌else◌, leb, sub32, true, ℕ, ◌%◌, ◌&&◌, ◌+◌, ◌-◌, ◌<◌, ◌||◌, ◌≡◌, ◌≤◌,
}
use hill_grov.Trial.{Probes, trial_pending, trial_pass, trial_fail, base_met, trial_eval}

-- The base criteria: the configuration loaded, the drivers up, at least 50 ticks, the task watchdog
-- quiet, and never less than 41 kB of heap
abbrev pub is_healthy : Probes → Bool
is_healthy p =
    p.twdt_ok && (leb 41 p.min_heap_kb && (leb 50 p.ticks && (p.cfg_loaded && p.drivers_ok)))

-- Until the clock comes round: a confirmed image passes at any time. One that is not confirmed passes
-- in a fleet when the base criteria are met and a frame of the master was seen, and otherwise is pending
-- for 180 s after the start and fails from then on; on a bench it passes from 60 s on when the base
-- criteria are met, and otherwise is pending, and never fails.
pub trial_timeline :
    (p : Probes) (start t : ℕ)
    → start ≤ t
    → t < start + 4294967296
    → (trial_eval p true (start % 4294967296) (t % 4294967296) ≡ (
        if p.confirmed || (is_healthy p && p.master_frame_seen)
        then trial_pass
        else if leb 180000 (t - start)
        then trial_fail
        else trial_pending))
      × (trial_eval p false (start % 4294967296) (t % 4294967296) ≡ (
          if p.confirmed || (is_healthy p && leb 60000 (t - start))
          then trial_pass
          else trial_pending))
unfolding trial_eval base_met
trial_timeline p start t lo hi = (ground (arith, elapsed), ground (arith, elapsed))
  where
    elapsed : sub32 (t % 4294967296) (start % 4294967296) ≡ t - start
    elapsed = omega arith
