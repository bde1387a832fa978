-- ===== src/CfgSync/Quiet.antt =====
-- When the reconciler of components/node_mgr/node_mgr_cfg.c has nothing to do for a zone, and what its
-- pushes carry.
use hill_grov.Base.{
  Bool, Option, arith, false, none, not, some, true, ℕ, ◌&&◌, ◌-◌, ◌<◌, ◌==◌, ◌^◌, ◌||◌, ◌≡◌,
}
use hill_grov.CfgSync.{Cache, Plane, Identity, Row, Zone, latched, plane_cfg, plane_hw}
use hill_grov.CfgSync.Decide.{
  Start, Notice, cfg_identity, hw_identity, push, push_gen_for, try_start,
}

-- A plane of the zone differs from what the master holds of it, or the master holds nothing.
unfoldable pub differs : Zone → Row → Plane → Bool
differs z n plane_cfg = not z.cfg.valid || not (n.cfg_gen == z.cfg.gen && n.cfg_crc == z.cfg.crc)
differs z n plane_hw = not z.hw.valid || not (n.hw_crc == z.hw.crc)

abbrev pub identity_of : Zone → Row → Plane → Identity
identity_of z n plane_cfg = cfg_identity z n
identity_of z n plane_hw = hw_identity z n

-- The plane's latch is set, with this generation and check sequence on both sides.
pub has_failed : Zone → Row → Plane → Bool
has_failed z n plane_cfg =
    z.cfg_latch.valid
    && (z.cfg_latch.identity.hb_gen == n.cfg_gen
        && (z.cfg_latch.identity.hb_crc == n.cfg_crc
            && (z.cfg_latch.identity.cache_gen == z.cfg.gen
                && z.cfg_latch.identity.cache_crc == z.cfg.crc)))
has_failed z n plane_hw =
    z.hw_latch.valid
    && (z.hw_latch.identity.hb_gen == 0
        && (z.hw_latch.identity.hb_crc == n.hw_crc
            && (z.hw_latch.identity.cache_gen == 0 && z.hw_latch.identity.cache_crc == z.hw.crc)))

-- A difference that has not failed for good yet
pub is_due : Zone → Row → Plane → Bool
is_due z n p = differs z n p && not (has_failed z n p)

pub is_started : Option Start → Bool
is_started none = false
is_started (some s) = true

-- A transfer is started exactly when one of the two planes differs, or is not held yet, with an
-- identity that has not failed for good on that plane.
pub started_when_due :
    (z : Zone) (n : Row)
    → is_started (try_start z n) ≡ (is_due z n plane_cfg || is_due z n plane_hw)
unfolding try_start is_due differs is_started has_failed latched
started_when_due z n = ground arith

push_gen-later :
    (n : Row) (c : Cache)
    → n.used ≡ true
    → n.cfg_gen < 2 ^ 32 - 1
    → c.gen < 2 ^ 32 - 1
    → (n.cfg_gen < push_gen_for n c) × (c.gen < push_gen_for n c)
unfolding push_gen_for
push_gen-later n c u h k = (ground (arith, u, h, k), ground (arith, u, h, k))

pushed-gen :
    (z : Zone) (n : Row) (gen : ℕ) (i : Identity) (o : Option Notice)
    → try_start z n ≡ some (push gen i o)
    → push_gen_for n z.cfg ≡ gen
unfolding try_start
pushed-gen z n gen i o e = ground (arith, e)

pushed-valid :
    (z : Zone) (n : Row) (gen : ℕ) (i : Identity) (o : Option Notice)
    → try_start z n ≡ some (push gen i o)
    → z.cfg.valid ≡ true
unfolding try_start
pushed-valid z n gen i o e = ground (arith, e)

-- A push of a zone that is in the table carries a generation later than the zone's and than the
-- master's, while neither is the last of 32 bits, and the master holds the configuration it
-- pushes.
pub push-later :
    (z : Zone) (n : Row) (gen : ℕ) (i : Identity) (o : Option Notice)
    → try_start z n ≡ some (push gen i o)
    → n.used ≡ true
    → n.cfg_gen < 2 ^ 32 - 1
    → z.cfg.gen < 2 ^ 32 - 1
    → (n.cfg_gen < gen) × (z.cfg.gen < gen) × (z.cfg.valid ≡ true)
push-later z n gen i o e u h k =
    let g : push_gen_for n z.cfg ≡ gen = pushed-gen z n gen i o e in
    let b = push_gen-later n z.cfg u h k in
    (omega (arith, g, b.0), omega (arith, g, b.1), pushed-valid z n gen i o e)
