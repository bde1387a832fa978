-- ===== src/CfgSync/Tick.antt =====
-- components/node_mgr/node_mgr_cfg.c: the tick over all zones, and the requests that it takes up.
use hill_grov.Base.{
  Bool, List, Option, [], bit_and, bit_or, false, get_or, if◌then◌else◌, ltb, none, not, replicate,
  set, some, suc, true, zero, ℕ, ◌%◌, ◌&&◌, ◌+◌, ◌-◌, ◌==◌, ◌^◌, ◌||◌, ◌∷◌,
}
use hill_grov.CfgSync.{Row, Zone, cooling_down, no_cache, no_latch}
use hill_grov.CfgSync.Decide.{
  Start, asked_identity, cfg_clear, push, push_gen_for, start_set_req, try_start,
}
use hill_grov.CfgSync.Writes.{Inbox, Payload, take_set_req}
use hill_grov.NodeStore.{hg_max_zones}
use hill_grov.Ring.Health.{Health, empty, offline, updating}

-- The module's state; zone `id` stands at place `id` - 1. `set_req` are the queued writes.
pub record Sync : Type 0 where
  pub zones : List Zone
  pub rr_next : ℕ
  pub push_req_zone : ℕ
  pub clear_mask : ℕ
  pub set_req : Inbox

abbrev pub no_zone : Zone
no_zone = record {
  cfg = no_cache;
  hw = no_cache;
  fresh = false;
  cfg_latch = no_latch;
  hw_latch = no_latch;
  cooldown_until = 0;
}

abbrev pub no_row : Row
no_row = record { used = false; health = empty; cfg_gen = 0; cfg_crc = 0; hw_crc = 0 }

abbrev pub zone_at : Sync → ℕ → Zone
zone_at s k = get_or s.zones k no_zone

abbrev pub with_zone : Sync → ℕ → Zone → Sync
with_zone s k z = record s { zones = set s.zones k z }

-- `nmgr_cfg_init`, without that of the transfers; it leaves the two requests that are pending.
unfoldable pub cfg_init : Sync → Sync
cfg_init s = record s {
  zones = replicate hg_max_zones no_zone;
  rr_next = 1;
  set_req = replicate hg_max_zones none;
}

-- `nmgr_cfg_request_clear`
unfoldable pub request_clear : Sync → ℕ → Sync
request_clear s zone =
    if ltb zone 1 || ltb hg_max_zones zone
    then s
    else record s { clear_mask = bit_or s.clear_mask (2 ^ (zone - 1)) }

-- `node_mgr_push_cfg`: `false` is its -1
unfoldable pub push_cfg : Sync → ℕ → Bool × Sync
push_cfg s zone =
    if ltb zone 1 || ltb hg_max_zones zone
    then (false, s)
    else if not (zone_at s (zone - 1)).cfg.valid
    then (false, s)
    else (true, record s { push_req_zone = zone })

abbrev pub is_away : Health → Bool
is_away offline = true
is_away updating = true
is_away h = false

-- The transfer of a decision, and the place from which the next scan starts
unfoldable pub decide : Sync → ℕ → Zone → Row → Sync × Option Start
unfolding try_start
decide s k z n = (record (with_zone s k z) { rr_next = (k + 1) % hg_max_zones + 1 }, try_start z n)

-- The body of the scan, at the zone in place `k`
unfoldable pub visit : Sync → ℕ → Row → ℕ → Sync × Option Start
unfolding decide cooling_down
visit s k n now =
    if not (zone_at s k).fresh
    then (s, none)
    else (let z = record (zone_at s k) { fresh = false } in
        if not n.used || is_away n.health
        then (with_zone s k z, none)
        else if (cooling_down z now).0
        then (with_zone s k (cooling_down z now).1, none)
        else decide s k (cooling_down z now).1 n)

-- The place of the `i`-th visit. The scan reads `s_rr_next` anew each time, which a visit may have set.
abbrev pub place_of : Sync → ℕ → ℕ
place_of s i = (s.rr_next - 1 + i) % hg_max_zones

-- A visit's transfer, or the rest of the scan
abbrev pub next :
    ℕ → Sync × Option Start → (Sync → Sync × Option (ℕ × Start)) → Sync × Option (ℕ × Start)
next k (t, some start) rest = (t, some (k, start))
next k (t, none) rest = rest t

-- The scan with `n` visits left, telling the place of the zone that it starts a transfer for
unfoldable pub scan_zones : ℕ → ℕ → Sync → List Row → ℕ → Sync × Option (ℕ × Start)
unfolding visit
scan_zones zero i s rows now = (s, none)
scan_zones (suc n) i s rows now =
    next (place_of s i) (visit s (place_of s i) (get_or rows (place_of s i) no_row) now)
      (λ t. scan_zones n (suc i) t rows now)

abbrev pub has_bit : ℕ → ℕ → Bool
has_bit mask k = not (bit_and mask (2 ^ k) == 0)

-- The zones from place `k` on, those of the mask cleared
unfoldable pub clear_marked : ℕ → ℕ → List Zone → List Zone
unfolding cfg_clear
clear_marked mask k [] = []
clear_marked mask k (z ∷ zones) =
    (if has_bit mask k then cfg_clear z else z) ∷ clear_marked mask (suc k) zones

-- The queued writes from place `k` on, those of a zone that is cleared being withdrawn
unfoldable pub kept_req : ℕ → ℕ → Inbox → Inbox
kept_req mask k [] = []
kept_req mask k (w ∷ writes) = (if has_bit mask k then none else w) ∷ kept_req mask (suc k) writes

-- The requests taken and the clears carried out
unfoldable pub taken : Sync → Sync
unfolding clear_marked kept_req
taken s = record s {
  zones = clear_marked s.clear_mask 0 s.zones;
  push_req_zone = 0;
  clear_mask = 0;
  set_req = kept_req s.clear_mask 0 s.set_req;
}

-- The transfer that the tick starts without a queued write: the push that was asked for, or the scan's
unfoldable pub automatic : Sync → ℕ → List Row → ℕ → Sync × Option (ℕ × Start)
unfolding scan_zones push_gen_for
automatic t push_zone rows now =
    let k = push_zone - 1 in
    let z : Zone = zone_at t k in
    if not (push_zone == 0) && z.cfg.valid
    then (
      t,
      some (
        k,
        push (push_gen_for (get_or rows k no_row) z.cfg) (asked_identity z (get_or rows k no_row))
            none,
      ),
    )
    else scan_zones hg_max_zones 0 t rows now

-- The transfer of the write that was taken from the queue, or the automatic one
abbrev pub start_queued :
    Sync → Option (ℕ × Payload) × Inbox → ℕ → List Row → ℕ → Sync × Option (ℕ × Start)
start_queued t (none, left) push_zone rows now =
    automatic (record t { set_req = left }) push_zone rows now
start_queued t (some (zone, payload), left) push_zone rows now =
    let done : Zone × Start =
      start_set_req (zone_at t (zone - 1)) (get_or rows (zone - 1) no_row) payload in
    (with_zone (record t { set_req = left }) (zone - 1) done.0, some (zone - 1, done.1))

-- `nmgr_cfg_tick_1s`, with the answer of `nmgr_cx_tick_1s`: whether a transfer has the tick
unfoldable pub cfg_tick : Sync → List Row → Bool → ℕ → Sync × Option (ℕ × Start)
unfolding taken automatic start_set_req take_set_req
cfg_tick s rows busy now =
    if busy
    then (taken s, none)
    else start_queued (taken s) (take_set_req 1 (taken s).set_req) s.push_req_zone rows now
