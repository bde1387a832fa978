-- ===== src/Tests/Payloads.antt =====
-- Payloads packed and parsed.
use hill_grov.Base.{List, [], arith, refl, some, ℕ, ◌++◌, ◌∷◌, ◌≡◌}
use hill_grov.Ring.Telemetry.{TimeSync, FwUpdate, Ack}
use hill_grov.Ring.Telemetry.RoundTrip.{IsTimeSync}
use hill_grov.Ring.Heartbeat.{Shelf, Heartbeat, hb_pack, hb_parse}
use hill_grov.Ring.Heartbeat.RoundTrip.{IsShelf, IsHeartbeat, hb_parse-hb_pack}

-- An offset of -3600 s.
abbrev time_sync : TimeSync
time_sync = record {
  utc = 1700000000;
  utc_offset_s = 4294963696;
  flags = 3;
  ring_size = 4;
  online_mask = 0x1e;
  inhibit_mask = 0;
}

time_sync-IsTimeSync : IsTimeSync time_sync
time_sync-IsTimeSync = record {
  utc_fits = omega arith;
  offset_fits = omega arith;
  mask_fits = omega arith;
}

abbrev update : FwUpdate
update = record { reboot_delay_ms = 2500; ssid = 72 ∷ 71 ∷ 0 ∷ 9 ∷ []; pass = 49 ∷ 0 ∷ [] }

abbrev reply : Ack
reply = record { acked_seq = 4660; status = 2; detail = 69 ∷ 82 ∷ 82 ∷ 0 ∷ []; detail_len = 3 }

abbrev shelf : Shelf
shelf = record {
  raw_a = 4000;
  raw_b = 100;
  pct_a = 50;
  pct_b = 60;
  white = 80;
  red = 20;
  out_flags = 1;
  light_state = 2;
  water_state = 1;
  rsvd = 0;
  pump_today_s = 65535;
}

abbrev beat : Heartbeat
beat = record {
  mac = 2 ∷ 0 ∷ 0 ∷ 0 ∷ 0 ∷ 5 ∷ [];
  fw_maj = 1;
  fw_min = 2;
  fw_patch = 3;
  n_shelves = 2;
  uptime_s = 86400;
  unix_time = 1700000000;
  cfg_gen = 7;
  cfg_crc = 0xdeadbeef;
  hw_crc = 1;
  cfg_src = 0;
  mode = 1;
  reset_reason = 1;
  time_quality = 2;
  active_faults = 0x8000000000000001;
  faults0 = 1;
  faults1 = 0x100;
  faults2 = 0;
  faults3 = 0;
  link_flags = 3;
  override_mask = 0;
  rx_crc_err = 0;
  rx_uart_err = 0;
  rx_drop = 1;
  fwd_count = 200;
  min_free_heap_kb = 90;
  shelves = shelf ∷ shelf ∷ [];
}

shelf-IsShelf : IsShelf shelf
shelf-IsShelf = record {
  raw_a_fits = omega arith;
  raw_b_fits = omega arith;
  pump_today_s_fits = omega arith;
}

beat-IsHeartbeat : IsHeartbeat beat
beat-IsHeartbeat = record {
  mac_len = refl;
  few = omega arith;
  array = omega arith;
  all_shelves = (shelf-IsShelf, (shelf-IsShelf, tt));
  uptime_s_fits = omega arith;
  unix_time_fits = omega arith;
  cfg_gen_fits = omega arith;
  cfg_crc_fits = omega arith;
  hw_crc_fits = omega arith;
  active_faults_fits = omega arith;
  faults0_fits = omega arith;
  faults1_fits = omega arith;
  faults2_fits = omega arith;
  faults3_fits = omega arith;
  rx_crc_err_fits = omega arith;
  rx_uart_err_fits = omega arith;
  rx_drop_fits = omega arith;
  fwd_count_fits = omega arith;
  min_free_heap_kb_fits = omega arith;
}

hb_parse-hb_pack_example :
    (p : List ℕ) × (hb_pack beat 128 ≡ some p)
    × (hb_parse (p ++ 1 ∷ []) ≡ some (record beat { shelves = shelf ∷ shelf ∷ [] }))
hb_parse-hb_pack_example = hb_parse-hb_pack beat 128 (1 ∷ []) beat-IsHeartbeat (omega arith)
