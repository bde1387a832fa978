-- ===== src/Trial.antt =====
-- components/ota_trial/trial_eval.c: the verdict on a firmware image that runs on trial.
pub mod Verdicts
use hill_grov.Base.{Bool, if◌then◌else◌, leb, ltb, sub32, ℕ, ◌&&◌}

-- `trial_probes_t`
pub record Probes : Type 0 where
  pub cfg_loaded : Bool
  pub drivers_ok : Bool
  pub ticks : ℕ
  pub twdt_ok : Bool
  pub min_heap_kb : ℕ
  pub master_frame_seen : Bool
  pub confirmed : Bool

-- `TRIAL_PENDING`, `TRIAL_PASS` and `TRIAL_FAIL`
pub data TrialVerdict : Type 0 where
  trial_pending trial_pass trial_fail : TrialVerdict

abbrev pub trial_fleet_window_ms : ℕ
trial_fleet_window_ms = 180000

abbrev pub trial_bench_window_ms : ℕ
trial_bench_window_ms = 60000

-- `base`
unfoldable pub base_met : Probes → Bool
base_met p =
    (((p.cfg_loaded && p.drivers_ok) && leb 50 p.ticks) && p.twdt_ok) && ltb 40 p.min_heap_kb

-- `trial_eval`
unfoldable pub trial_eval : Probes → Bool → ℕ → ℕ → TrialVerdict
trial_eval p expect_link start_ms now_ms =
    let elapsed = sub32 now_ms start_ms in
    let late =
      if expect_link && leb trial_fleet_window_ms elapsed then trial_fail else trial_pending in
    if p.confirmed
    then trial_pass
    else if base_met p
    then (if expect_link
        then (if p.master_frame_seen then trial_pass else late)
        else if leb trial_bench_window_ms elapsed
        then trial_pass
        else late)
    else late
