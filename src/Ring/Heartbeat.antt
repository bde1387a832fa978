-- ===== src/Ring/Heartbeat.antt =====
-- components/ring_proto/ring_tlm_hb.c: the heartbeat payload. A null pointer is not modelled; `none`
-- is a return of -1.
pub mod RoundTrip
use hill_grov.Base.{
  List, Option, [], drop, get_or, if◌then◌else◌, le16, le32, le64, length, ltb, none, rd16, rd32,
  rd64, some, suc, take, zero, ℕ, ◌*◌, ◌++◌, ◌+◌, ◌∷◌,
}

-- `hg_hb_shelf_t`
pub record Shelf : Type 0 where
  pub raw_a : ℕ
  pub raw_b : ℕ
  pub pct_a : ℕ
  pub pct_b : ℕ
  pub white : ℕ
  pub red : ℕ
  pub out_flags : ℕ
  pub light_state : ℕ
  pub water_state : ℕ
  pub rsvd : ℕ
  pub pump_today_s : ℕ

-- `hg_hb_t`; `faults0` to `faults3` are `shelf_faults`, and `shelves` is the array `shelf`.
pub record Heartbeat : Type 0 where
  pub mac : List ℕ
  pub fw_maj : ℕ
  pub fw_min : ℕ
  pub fw_patch : ℕ
  pub n_shelves : ℕ
  pub uptime_s : ℕ
  pub unix_time : ℕ
  pub cfg_gen : ℕ
  pub cfg_crc : ℕ
  pub hw_crc : ℕ
  pub cfg_src : ℕ
  pub mode : ℕ
  pub reset_reason : ℕ
  pub time_quality : ℕ
  pub active_faults : ℕ
  pub faults0 : ℕ
  pub faults1 : ℕ
  pub faults2 : ℕ
  pub faults3 : ℕ
  pub link_flags : ℕ
  pub override_mask : ℕ
  pub rx_crc_err : ℕ
  pub rx_uart_err : ℕ
  pub rx_drop : ℕ
  pub fwd_count : ℕ
  pub min_free_heap_kb : ℕ
  pub shelves : List Shelf

-- The 14 bytes of a shelf.
unfoldable pub shelf_bytes : Shelf → List ℕ
shelf_bytes s =
    (le16 s.raw_a
      ++ ((le16 s.raw_b
          ++ (s.pct_a
              ∷ s.pct_b
              ∷ s.white
              ∷ s.red
              ∷ s.out_flags
              ∷ s.light_state
              ∷ s.water_state
              ∷ s.rsvd
              ∷ (le16 s.pump_today_s ++ ([]))))))

-- The loop over the first `n` shelves of the array.
unfoldable pub pack_shelves : ℕ → List Shelf → List ℕ
pack_shelves zero ss = []
pack_shelves (suc n) [] = []
pack_shelves (suc n) (s ∷ ss) = shelf_bytes s ++ pack_shelves n ss

-- The bytes 6 to 61.
unfoldable pub base_bytes : Heartbeat → List ℕ
base_bytes h =
    h.fw_maj
    ∷ h.fw_min
    ∷ h.fw_patch
    ∷ h.n_shelves
    ∷ (le32 h.uptime_s
        ++ ((le32 h.unix_time
            ++ ((le32 h.cfg_gen
                ++ ((le32 h.cfg_crc
                    ++ ((le32 h.hw_crc
                        ++ (h.cfg_src
                            ∷ h.mode
                            ∷ h.reset_reason
                            ∷ h.time_quality
                            ∷ (le64 h.active_faults
                                ++ ((le16 h.faults0
                                    ++ ((le16 h.faults1
                                        ++ ((le16 h.faults2
                                            ++ ((le16 h.faults3
                                                ++ (h.link_flags
                                                    ∷ h.override_mask
                                                    ∷ (le16 h.rx_crc_err
                                                        ++ ((le16 h.rx_uart_err
                                                            ++ ((le16 h.rx_drop
                                                            ++ ((le16 h.fwd_count
                                                            ++ ((le16 h.min_free_heap_kb
                                                            ++ ([]))))))))))))))))))))))))))))))

-- `hg_hb_pack`
unfoldable pub hb_pack : Heartbeat → ℕ → Option (List ℕ)
hb_pack h cap =
    if ltb 4 h.n_shelves
    then none
    else if ltb cap (62 + 14 * h.n_shelves)
    then none
    else some ((take 6 h.mac ++ base_bytes h) ++ pack_shelves h.n_shelves h.shelves)

-- A shelf read from the start of the given bytes.
unfoldable pub shelf_at : List ℕ → Shelf
shelf_at p =
    let at = λ (i : ℕ). get_or p i 0 in
    record {
      raw_a = rd16 (at 0) (at 1);
      raw_b = rd16 (at 2) (at 3);
      pct_a = at 4;
      pct_b = at 5;
      white = at 6;
      red = at 7;
      out_flags = at 8;
      light_state = at 9;
      water_state = at 10;
      rsvd = at 11;
      pump_today_s = rd16 (at 12) (at 13);
    }

-- The loop over `n` shelves, 14 bytes each.
unfoldable pub parse_shelves : ℕ → List ℕ → List Shelf
parse_shelves zero p = []
parse_shelves (suc n) p = shelf_at p ∷ parse_shelves n (drop 14 p)

-- The fields that are read when the tests have passed.
unfoldable pub hb_fields : List ℕ → Heartbeat
hb_fields p =
    let at = λ (i : ℕ). get_or p i 0 in
    record {
      mac = take 6 p;
      fw_maj = at 6;
      fw_min = at 7;
      fw_patch = at 8;
      n_shelves = at 9;
      uptime_s = rd32 (at 10) (at 11) (at 12) (at 13);
      unix_time = rd32 (at 14) (at 15) (at 16) (at 17);
      cfg_gen = rd32 (at 18) (at 19) (at 20) (at 21);
      cfg_crc = rd32 (at 22) (at 23) (at 24) (at 25);
      hw_crc = rd32 (at 26) (at 27) (at 28) (at 29);
      cfg_src = at 30;
      mode = at 31;
      reset_reason = at 32;
      time_quality = at 33;
      active_faults = rd64 (at 34) (at 35) (at 36) (at 37) (at 38) (at 39) (at 40) (at 41);
      faults0 = rd16 (at 42) (at 43);
      faults1 = rd16 (at 44) (at 45);
      faults2 = rd16 (at 46) (at 47);
      faults3 = rd16 (at 48) (at 49);
      link_flags = at 50;
      override_mask = at 51;
      rx_crc_err = rd16 (at 52) (at 53);
      rx_uart_err = rd16 (at 54) (at 55);
      rx_drop = rd16 (at 56) (at 57);
      fwd_count = rd16 (at 58) (at 59);
      min_free_heap_kb = rd16 (at 60) (at 61);
      shelves = parse_shelves (at 9) (drop 62 p);
    }

-- `hg_hb_parse`
unfoldable pub hb_parse : List ℕ → Option Heartbeat
hb_parse p =
    let n_shelves = get_or p 9 0 in
    if ltb (length p) 62
    then none
    else if ltb 4 n_shelves
    then none
    else if ltb (length p) (62 + 14 * n_shelves)
    then none
    else some (hb_fields p)
