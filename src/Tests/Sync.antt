-- ===== src/Tests/Sync.antt =====
-- The reconciliation of configurations: zones in and out of step, a failure for good, and the ticks.
use hill_grov.Base.{
  All, List, [], false, none, refl, replicate, some, true, ◌+◌, ◌||◌, ◌∷◌, ◌≡◌, ◌⊎◌,
}
use hill_grov.CfgSync.{
  Identity, Row, Zone, cooling_down, latched, no_latch, note_failed, note_synced, plane_cfg,
  plane_hw,
}
use hill_grov.CfgSync.Decide.{
  Start, cfg_reverted, note_fresh_hb, notice_of, pull, push, push_gen_for, start_set_req, try_start,
}
use hill_grov.CfgSync.Failures.{
  SyncEvent, IsApart, all_happen, asked, failed, failed-quiet, happens, heartbeat, starts, synced,
}
use hill_grov.CfgSync.Fair.{Asked, Found, Written, tick-started}
use hill_grov.CfgSync.Quiet.{identity_of, is_due, is_started, started_when_due}
use hill_grov.CfgSync.Writes.{
  Inbox, cfg_set, drop_set_req, in_flight, not_online, req_pending, take_set_req,
}
use hill_grov.CfgSync.Tick.{
  Sync, automatic, clear_marked, decide, kept_req, no_zone, scan_zones, taken, cfg_tick, visit,
}
use hill_grov.Ring.Health.{offline, online}

-- A zone in step with the master, and its row
abbrev steady : Zone
steady = record {
  cfg = record { gen = 7; crc = 111; valid = true };
  hw = record { gen = 0; crc = 222; valid = true };
  fresh = true;
  cfg_latch = no_latch;
  hw_latch = no_latch;
  cooldown_until = 0;
}

abbrev steady_row : Row
steady_row = record { used = true; health = online; cfg_gen = 7; cfg_crc = 111; hw_crc = 222 }

-- The same zone after an edit at its own panel
abbrev edited_row : Row
edited_row = record { used = true; health = online; cfg_gen = 9; cfg_crc = 333; hw_crc = 222 }

abbrev edited : Identity
edited = record { hb_gen = 9; hb_crc = 333; cache_gen = 7; cache_crc = 111 }

steady_run : try_start steady steady_row ≡ none
unfolding try_start latched
steady_run = refl

reverted_run : try_start steady edited_row ≡ some (push 10 edited (some (cfg_reverted 10)))
unfolding try_start latched push_gen_for notice_of
reverted_run = refl

started_when_due_example :
    is_started (try_start steady edited_row)
    ≡ (is_due steady edited_row plane_cfg || is_due steady edited_row plane_hw)
started_when_due_example = started_when_due steady edited_row

abbrev then_other : List SyncEvent
then_other =
    heartbeat
    ∷ failed plane_hw true (record { hb_gen = 0; hb_crc = 5; cache_gen = 0; cache_crc = 222 }) 2000
    ∷ asked 3000
    ∷ synced plane_hw (record { gen = 0; crc = 5; valid = true })
    ∷ failed plane_cfg false edited 4000
    ∷ []

then_other-IsApart : All (IsApart plane_cfg) then_other
unfolding IsApart
then_other-IsApart = (tt, (refl, (tt, (refl, (refl, tt)))))

abbrev later_zone : Zone
later_zone = all_happen (note_failed steady plane_cfg true edited 1000 0).0 then_other

later_identity : identity_of later_zone edited_row plane_cfg ≡ edited
unfolding all_happen happens note_failed note_synced note_fresh_hb cooling_down
later_identity = refl

failed-quiet_example : starts plane_cfg (try_start later_zone edited_row) ≡ false
failed-quiet_example =
    failed-quiet steady plane_cfg edited 1000 0 then_other edited_row then_other-IsApart
      later_identity

-- Zone 1 in step and zone 2 not read yet, both with a fresh heartbeat
abbrev two_zones : Sync
two_zones = record {
  zones = steady ∷ record no_zone { fresh = true } ∷ replicate 6 no_zone;
  rr_next = 1;
  push_req_zone = 0;
  clear_mask = 0;
  set_req = replicate 8 none;
}

abbrev two_rows : List Row
two_rows = steady_row ∷ edited_row ∷ []

abbrev first_cfg : Start
first_cfg = pull plane_cfg (record { hb_gen = 9; hb_crc = 333; cache_gen = 0; cache_crc = 0 })

-- The tick that finds zone 1 in step passes over zone 2, whose turn comes with the next tick.
skipped_lem :
    ((cfg_tick two_zones two_rows false 1000).1 ≡ none)
    × ((cfg_tick (cfg_tick two_zones two_rows false 1000).0 two_rows false 2000).1
        ≡ some (1, first_cfg))
unfolding cfg_tick taken clear_marked kept_req take_set_req automatic scan_zones visit decide
    cooling_down try_start latched
skipped_lem = (refl, refl)

abbrev alone : Sync
alone = record two_zones { rr_next = 2 }

alone_run :
    cfg_tick alone two_rows false 1000
    ≡ ((cfg_tick alone two_rows false 1000).0, some (1, first_cfg))
unfolding cfg_tick taken clear_marked kept_req take_set_req automatic scan_zones visit decide
    cooling_down try_start latched
alone_run = refl

tick-started_example :
    (false ≡ false)
    × (Written (taken alone) 1 first_cfg (cfg_tick alone two_rows false 1000).0
        ⊎ Asked alone 1
        ⊎ Found (taken alone) 1 edited_row (cfg_tick alone two_rows false 1000).0)
tick-started_example =
    tick-started alone (cfg_tick alone two_rows false 1000).0 two_rows false 1000 1 first_cfg
      alone_run

-- Writes for zones 2 and 5 are queued; a second one for zone 5 is refused.
abbrev two_writes : Inbox
two_writes =
    (cfg_set (cfg_set (replicate 8 none) 5 steady_row false (λ g. g + 500)).1 2 steady_row false
      (λ g. g + 200)).1

cfg_set_runs :
    (req_pending two_writes 5 ≡ true)
    × (req_pending two_writes 4 ≡ false)
    × ((cfg_set two_writes 5 steady_row false (λ g. g)).0 ≡ in_flight)
    × ((cfg_set two_writes 4 (record steady_row { health = offline }) false (λ g. g)).0
        ≡ not_online)
    × (req_pending (drop_set_req two_writes 5) 5 ≡ false)
unfolding cfg_set req_pending drop_set_req
cfg_set_runs = (refl, refl, refl, refl, refl)

abbrev written : Sync
written = record two_zones { set_req = two_writes }

-- The tick takes the write of the lower zone, ahead of the decisions, and leaves the other.
written_run :
    ((cfg_tick written two_rows false 1000).1
      ≡ some
          (1, push 10 (record { hb_gen = 9; hb_crc = 333; cache_gen = 10; cache_crc = 210 }) none))
    × (req_pending (cfg_tick written two_rows false 1000).0.set_req 2 ≡ false)
    × (req_pending (cfg_tick written two_rows false 1000).0.set_req 5 ≡ true)
unfolding cfg_tick taken clear_marked kept_req take_set_req start_set_req push_gen_for cfg_set
    req_pending
written_run = (refl, refl, refl)
