-- ===== src/Ring/Heartbeat/RoundTrip.antt =====
-- A heartbeat that a zone packs is the one that the master parses.
use hill_grov.Base.{
  All, List, [], ap, append_assoc, ap₂, arith, drop, length, length-append, mac-cases, rd16-le16,
  rd32-le32, rd64-le64, refl, some, suc, sym, take, zero, ℕ, ◌*◌, ◌++◌, ◌+◌, ◌<◌, ◌∙◌, ◌∷◌, ◌≡◌,
  ◌≤◌,
}
use hill_grov.Ring.Heartbeat.{
  Shelf, Heartbeat, shelf_bytes, pack_shelves, base_bytes, hb_pack, shelf_at, parse_shelves,
  hb_fields, hb_parse,
}

-- The words are of their widths.
pub record IsShelf (s : Shelf) : Type 0 where
  pub raw_a_fits : s.raw_a < 65536
  pub raw_b_fits : s.raw_b < 65536
  pub pump_today_s_fits : s.pump_today_s < 65536

pub record IsHeartbeat (h : Heartbeat) : Type 0 where
  pub mac_len : length h.mac ≡ 6
  pub few : h.n_shelves ≤ 4
  pub array : h.n_shelves ≤ length h.shelves
  pub all_shelves : All IsShelf h.shelves
  pub uptime_s_fits : h.uptime_s < 4294967296
  pub unix_time_fits : h.unix_time < 4294967296
  pub cfg_gen_fits : h.cfg_gen < 4294967296
  pub cfg_crc_fits : h.cfg_crc < 4294967296
  pub hw_crc_fits : h.hw_crc < 4294967296
  pub active_faults_fits : h.active_faults < 18446744073709551616
  pub faults0_fits : h.faults0 < 65536
  pub faults1_fits : h.faults1 < 65536
  pub faults2_fits : h.faults2 < 65536
  pub faults3_fits : h.faults3 < 65536
  pub rx_crc_err_fits : h.rx_crc_err < 65536
  pub rx_uart_err_fits : h.rx_uart_err < 65536
  pub rx_drop_fits : h.rx_drop < 65536
  pub fwd_count_fits : h.fwd_count < 65536
  pub min_free_heap_kb_fits : h.min_free_heap_kb < 65536

shelf_at-shelf_bytes :
    (s : Shelf) (rest : List ℕ) → IsShelf s → shelf_at (shelf_bytes s ++ rest) ≡ s
unfolding shelf_at shelf_bytes
shelf_at-shelf_bytes s rest v = λ i. record {
  raw_a = rd16-le16 s.raw_a v.raw_a_fits i;
  raw_b = rd16-le16 s.raw_b v.raw_b_fits i;
  pct_a = s.pct_a;
  pct_b = s.pct_b;
  white = s.white;
  red = s.red;
  out_flags = s.out_flags;
  light_state = s.light_state;
  water_state = s.water_state;
  rsvd = s.rsvd;
  pump_today_s = rd16-le16 s.pump_today_s v.pump_today_s_fits i;
}

drop-shelf_bytes : (s : Shelf) (rest : List ℕ) → drop 14 (shelf_bytes s ++ rest) ≡ rest
unfolding shelf_bytes
drop-shelf_bytes s rest = refl

length-shelf_bytes : (s : Shelf) (rest : List ℕ) → length (shelf_bytes s ++ rest) ≡ 14 + length rest
unfolding shelf_bytes
length-shelf_bytes s rest = omega arith

parse_shelves-pack_shelves :
    (n : ℕ) (ss : List Shelf) (later : List ℕ)
    → n ≤ length ss
    → All IsShelf ss
    → parse_shelves n (pack_shelves n ss ++ later) ≡ take n ss
unfolding parse_shelves pack_shelves
parse_shelves-pack_shelves zero ss later h v = refl
parse_shelves-pack_shelves (suc n) [] later h v = absurd (omega arith)
parse_shelves-pack_shelves (suc n) (s ∷ ss) later h v =
    ap (λ b. shelf_at b ∷ parse_shelves n (drop 14 b))
      (append_assoc (shelf_bytes s) (pack_shelves n ss) later)
    ∙ ap₂ ◌∷◌ (shelf_at-shelf_bytes s (pack_shelves n ss ++ later) v.0) (
        ap (parse_shelves n) (drop-shelf_bytes s (pack_shelves n ss ++ later))
        ∙ parse_shelves-pack_shelves n ss later (omega arith) v.1)

length-pack_shelves :
    (n : ℕ) (ss : List Shelf) → n ≤ length ss → length (pack_shelves n ss) ≡ 14 * n
unfolding pack_shelves
length-pack_shelves zero ss h = omega arith
length-pack_shelves (suc n) [] h = absurd (omega arith)
length-pack_shelves (suc n) (s ∷ ss) h =
    length-shelf_bytes s (pack_shelves n ss) ∙ omega (arith, length-pack_shelves n ss (omega arith))

-- The fields of the parsed heartbeat, for an address in parts and any bytes behind the base.
hb_fields-bytes :
    (h : Heartbeat) (a b c d e f : ℕ) (tail : List ℕ)
    → IsHeartbeat h
    → hb_fields (a ∷ b ∷ c ∷ d ∷ e ∷ f ∷ (base_bytes h ++ tail))
      ≡ record h { mac = a ∷ b ∷ c ∷ d ∷ e ∷ f ∷ []; shelves = parse_shelves h.n_shelves tail }
unfolding hb_fields base_bytes
hb_fields-bytes h a b c d e f tail v = λ i. record {
  mac = a ∷ b ∷ c ∷ d ∷ e ∷ f ∷ [];
  fw_maj = h.fw_maj;
  fw_min = h.fw_min;
  fw_patch = h.fw_patch;
  n_shelves = h.n_shelves;
  uptime_s = rd32-le32 h.uptime_s v.uptime_s_fits i;
  unix_time = rd32-le32 h.unix_time v.unix_time_fits i;
  cfg_gen = rd32-le32 h.cfg_gen v.cfg_gen_fits i;
  cfg_crc = rd32-le32 h.cfg_crc v.cfg_crc_fits i;
  hw_crc = rd32-le32 h.hw_crc v.hw_crc_fits i;
  cfg_src = h.cfg_src;
  mode = h.mode;
  reset_reason = h.reset_reason;
  time_quality = h.time_quality;
  active_faults = rd64-le64 h.active_faults v.active_faults_fits i;
  faults0 = rd16-le16 h.faults0 v.faults0_fits i;
  faults1 = rd16-le16 h.faults1 v.faults1_fits i;
  faults2 = rd16-le16 h.faults2 v.faults2_fits i;
  faults3 = rd16-le16 h.faults3 v.faults3_fits i;
  link_flags = h.link_flags;
  override_mask = h.override_mask;
  rx_crc_err = rd16-le16 h.rx_crc_err v.rx_crc_err_fits i;
  rx_uart_err = rd16-le16 h.rx_uart_err v.rx_uart_err_fits i;
  rx_drop = rd16-le16 h.rx_drop v.rx_drop_fits i;
  fwd_count = rd16-le16 h.fwd_count v.fwd_count_fits i;
  min_free_heap_kb = rd16-le16 h.min_free_heap_kb v.min_free_heap_kb_fits i;
  shelves = parse_shelves h.n_shelves tail;
}

-- The tests of the parser on such bytes.
hb_parse-bytes :
    (h : Heartbeat) (a b c d e f : ℕ) (tail : List ℕ)
    → h.n_shelves ≤ 4
    → 14 * h.n_shelves ≤ length tail
    → hb_parse (a ∷ b ∷ c ∷ d ∷ e ∷ f ∷ (base_bytes h ++ tail))
      ≡ some (hb_fields (a ∷ b ∷ c ∷ d ∷ e ∷ f ∷ (base_bytes h ++ tail)))
unfolding hb_parse base_bytes
hb_parse-bytes h a b c d e f tail few long = ground arith

-- A heartbeat whose fields fit, with at most four shelves, is packed into a buffer of at least
-- 118 bytes and parsed back with the shelves that it counts, also when later bytes follow.
pub hb_parse-hb_pack :
    (h : Heartbeat) (cap : ℕ) (later : List ℕ)
    → IsHeartbeat h
    → 118 ≤ cap
    → (p : List ℕ) × (hb_pack h cap ≡ some p)
      × (hb_parse (p ++ later) ≡ some (record h { shelves = take h.n_shelves h.shelves }))
unfolding hb_pack
hb_parse-hb_pack h cap later v c = (
  (take 6 h.mac ++ base_bytes h) ++ shelf_part,
  ground (arith, v.few),
  parsed (mac-cases h.mac v.mac_len),
)
  where
    shelf_part : List ℕ
    shelf_part = pack_shelves h.n_shelves h.shelves

    tail : List ℕ
    tail = shelf_part ++ later

    grouped :
        ((take 6 h.mac ++ base_bytes h) ++ shelf_part) ++ later
        ≡ take 6 h.mac ++ (base_bytes h ++ tail)
    grouped =
        append_assoc (take 6 h.mac ++ base_bytes h) shelf_part later
        ∙ append_assoc (take 6 h.mac) (base_bytes h) tail

    shelves_back : parse_shelves h.n_shelves tail ≡ take h.n_shelves h.shelves
    shelves_back = parse_shelves-pack_shelves h.n_shelves h.shelves later v.array v.all_shelves

    long : 14 * h.n_shelves ≤ length tail
    long =
        omega
          (arith, length-append shelf_part later, length-pack_shelves h.n_shelves h.shelves v.array)

    parsed :
        ((a b c d e f : ℕ) × (h.mac ≡ a ∷ b ∷ c ∷ d ∷ e ∷ f ∷ []))
        → hb_parse (((take 6 h.mac ++ base_bytes h) ++ shelf_part) ++ later)
          ≡ some (record h { shelves = take h.n_shelves h.shelves })
    parsed (a, b, c, d, e, f, q) =
        ap hb_parse (grouped ∙ ap (λ m. take 6 m ++ (base_bytes h ++ tail)) q)
        ∙ hb_parse-bytes h a b c d e f tail v.few long
        ∙ ap some (hb_fields-bytes h a b c d e f tail v ∙ back (sym q))
      where
        back :
            a ∷ b ∷ c ∷ d ∷ e ∷ f ∷ [] ≡ h.mac
            → record h {
              mac = a ∷ b ∷ c ∷ d ∷ e ∷ f ∷ [];
              shelves = parse_shelves h.n_shelves tail;
            }
              ≡ record h { shelves = take h.n_shelves h.shelves }
        back q' = λ i. record h { mac = q' i; shelves = shelves_back i }
