-- ===== src/CfgSync/Decide.antt =====
-- components/node_mgr/node_mgr_cfg.c: the decision on one zone.
use hill_grov.Base.{
  Option, false, if◌then◌else◌, ltb, none, not, some, true, ℕ, ◌%◌, ◌&&◌, ◌+◌, ◌==◌, ◌^◌, ◌||◌,
}
use hill_grov.CfgSync.Writes.{Payload}
use hill_grov.CfgSync.{
  Cache, Identity, Plane, Row, Zone, cooldown_clear, latch_clear, latched, no_cache, plane_cfg,
  plane_hw,
}

-- The two lines that a push is announced by
pub data Notice : Type 0 where
  cfg_fork : Notice
  cfg_reverted : ℕ → Notice

-- A transfer that is started: `nmgr_cx_pull` and `nmgr_cx_push`
pub data Start : Type 0 where
  pull : Plane → Identity → Start
  push : ℕ → Identity → Option Notice → Start

-- `push_gen_for`, a 32-bit number
unfoldable pub push_gen_for : Row → Cache → ℕ
push_gen_for n c = ((if ltb c.gen hg then hg else c.gen) + 1) % 2 ^ 32
  where
    hg : ℕ
    hg = if n.used then n.cfg_gen else 0

abbrev pub cfg_identity : Zone → Row → Identity
cfg_identity z n = record {
  hb_gen = n.cfg_gen;
  hb_crc = n.cfg_crc;
  cache_gen = z.cfg.gen;
  cache_crc = z.cfg.crc;
}

abbrev pub hw_identity : Zone → Row → Identity
hw_identity z n = record { hb_gen = 0; hb_crc = n.hw_crc; cache_gen = 0; cache_crc = z.hw.crc }

-- The line about a push: the same generation on both sides, or a later one in the zone
unfoldable pub notice_of : Zone → Row → ℕ → Option Notice
notice_of z n new_gen =
    if n.cfg_gen == z.cfg.gen
    then some cfg_fork
    else if ltb z.cfg.gen n.cfg_gen
    then some (cfg_reverted new_gen)
    else none

-- `try_start`: `none` is its 0
unfoldable pub try_start : Zone → Row → Option Start
unfolding push_gen_for notice_of
try_start z n =
    if not z.cfg.valid && not (latched z plane_cfg (cfg_identity z n))
    then some (pull plane_cfg (cfg_identity z n))
    else if (not z.hw.valid || not (n.hw_crc == z.hw.crc))
        && not (latched z plane_hw (hw_identity z n))
    then some (pull plane_hw (hw_identity z n))
    else if not z.cfg.valid
    then none
    else if n.cfg_gen == z.cfg.gen && n.cfg_crc == z.cfg.crc
    then none
    else if latched z plane_cfg (cfg_identity z n)
    then none
    else some
        (push (push_gen_for n z.cfg) (cfg_identity z n) (notice_of z n (push_gen_for n z.cfg)))

-- `nmgr_cfg_invalidate`, without the abort of the zone's transfer
unfoldable pub invalidate : Zone → Zone
invalidate z = cooldown_clear (latch_clear (record z { cfg = no_cache; hw = no_cache }))

-- `nmgr_cfg_clear`, without the withdrawal of a queued write
unfoldable pub cfg_clear : Zone → Zone
unfolding invalidate
cfg_clear z = record (invalidate z) { fresh = false }

-- `nmgr_cfg_note_fresh_hb`
unfoldable pub note_fresh_hb : Zone → Zone
note_fresh_hb z = record z { fresh = true }

-- The identity of a push that an operator asked for; a row that is not in the table counts as 0.
abbrev pub asked_identity : Zone → Row → Identity
asked_identity z n = record {
  hb_gen = if n.used then n.cfg_gen else 0;
  hb_crc = if n.used then n.cfg_crc else 0;
  cache_gen = z.cfg.gen;
  cache_crc = z.cfg.crc;
}

-- `start_set_req`: the cache, and the push
unfoldable pub start_set_req : Zone → Row → Payload → Zone × Start
unfolding push_gen_for
start_set_req z n payload =
    let new : Zone = cooldown_clear (record z {
      cfg = record {
        gen = push_gen_for n z.cfg;
        crc = payload (push_gen_for n z.cfg);
        valid = true;
      };
    }) in
    (new, push (push_gen_for n z.cfg) (asked_identity new n) none)
