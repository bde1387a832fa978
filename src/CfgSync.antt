-- ===== src/CfgSync.antt =====
-- components/node_mgr/node_mgr_cfg_latch.c: what the reconciliation of the zones' configurations
-- remembers of its failures. The children hold node_mgr_cfg.c: the decision on one zone (Decide) and
-- the tick over all of them (Tick), and the writes that wait for it (Writes, node_mgr_cfg_api.c). The transfers themselves (node_mgr_cfgx.c) are what a decision
-- returns.
pub mod Writes
pub mod Decide
pub mod Tick
pub mod Fair
pub mod Quiet
pub mod Failures
use hill_grov.Base.{
  Bool, false, if◌then◌else◌, leb, ltb, sub32, true, ℕ, ◌%◌, ◌&&◌, ◌+◌, ◌==◌, ◌^◌, ◌||◌,
}
use hill_grov.Ring.Health.{Health}

-- `CFG_COOLDOWN_MS`
abbrev pub cfg_cooldown_ms : ℕ
cfg_cooldown_ms = 30000

-- The kinds 1 (CFG) and 2 (HW)
pub data Plane : Type 0 where
  plane_cfg plane_hw : Plane

-- The (heartbeat, cache) identity that a transfer carries
pub record Identity : Type 0 where
  pub hb_gen : ℕ
  pub hb_crc : ℕ
  pub cache_gen : ℕ
  pub cache_crc : ℕ

-- `nmgr_latch_t`
pub record Latch : Type 0 where
  pub valid : Bool
  pub identity : Identity

-- `nmgr_cache_t`, without the bytes
pub record Cache : Type 0 where
  pub gen : ℕ
  pub crc : ℕ
  pub valid : Bool

-- What is kept for one zone: its places in `s_cfg`, `s_hw`, `s_fresh`, `s_latch` and
-- `s_cooldown_until`
pub record Zone : Type 0 where
  pub cfg : Cache
  pub hw : Cache
  pub fresh : Bool
  pub cfg_latch : Latch
  pub hw_latch : Latch
  pub cooldown_until : ℕ

-- What the decision reads of the zone's row in the node table
pub record Row : Type 0 where
  pub used : Bool
  pub health : Health
  pub cfg_gen : ℕ
  pub cfg_crc : ℕ
  pub hw_crc : ℕ

abbrev pub no_identity : Identity
no_identity = record { hb_gen = 0; hb_crc = 0; cache_gen = 0; cache_crc = 0 }

abbrev pub no_latch : Latch
no_latch = record { valid = false; identity = no_identity }

abbrev pub no_cache : Cache
no_cache = record { gen = 0; crc = 0; valid = false }

abbrev pub latch_of : Zone → Plane → Latch
latch_of z plane_cfg = z.cfg_latch
latch_of z plane_hw = z.hw_latch

abbrev pub set_latch : Zone → Plane → Latch → Zone
set_latch z plane_cfg l = record z { cfg_latch = l }
set_latch z plane_hw l = record z { hw_latch = l }

-- `nmgr_cfg_latch_clear`
abbrev pub latch_clear : Zone → Zone
latch_clear z = record z { cfg_latch = no_latch; hw_latch = no_latch }

-- `nmgr_cfg_cooldown_clear`
abbrev pub cooldown_clear : Zone → Zone
cooldown_clear z = record z { cooldown_until = 0 }

-- The signed difference of two 32-bit times is negative.
abbrev pub is_before : ℕ → ℕ → Bool
is_before now t = leb (2 ^ 31) (sub32 now t)

-- `nmgr_cfg_cooling_down`: whether the zone is to be skipped, and what is kept of it
unfoldable pub cooling_down : Zone → ℕ → Bool × Zone
cooling_down z now =
    if z.cooldown_until == 0
    then (false, z)
    else if is_before now z.cooldown_until
    then (true, z)
    else (false, cooldown_clear z)

abbrev pub same_identity : Identity → Identity → Bool
same_identity a b =
    ((a.hb_gen == b.hb_gen && a.hb_crc == b.hb_crc) && a.cache_gen == b.cache_gen)
    && a.cache_crc == b.cache_crc

-- `nmgr_cfg_latched`
unfoldable pub latched : Zone → Plane → Identity → Bool
latched z p i = (latch_of z p).valid && same_identity (latch_of z p).identity i

-- `nmgr_cfg_note_synced`, with the zone's count of command timeouts
unfoldable pub note_synced : Zone → Plane → ℕ → Zone × ℕ
note_synced z p timeouts = (set_latch z p no_latch, 0)

-- `nmgr_cfg_note_failed`, with the count of command timeouts; it notifies CFG_SYNC_FAILED.
unfoldable pub note_failed : Zone → Plane → Bool → Identity → ℕ → ℕ → Zone × ℕ
note_failed z p terminal i now timeouts = (
  if terminal
      then set_latch z p (record { valid = true; identity = i })
      else record z { cooldown_until = (now + cfg_cooldown_ms) % 2 ^ 32 },
  if ltb timeouts 3 then 3 else timeouts,
)

-- `node_mgr_cfg_sync_failed`
unfoldable pub sync_failed : Zone → Bool
sync_failed z = z.cfg_latch.valid || z.hw_latch.valid
