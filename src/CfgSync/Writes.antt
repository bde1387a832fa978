-- ===== src/CfgSync/Writes.antt =====
-- components/node_mgr/node_mgr_cfg_api.c: the writes of the web interface that wait for the tick, one
-- place for each zone.
use hill_grov.Base.{
  Bool, List, Option, [], false, get_or, if◌then◌else◌, ltb, none, not, set, some, suc, true, ℕ,
  ◌-◌, ◌||◌, ◌∷◌,
}
use hill_grov.CfgSync.{Row}
use hill_grov.NodeStore.{hg_max_zones}
use hill_grov.Ring.Health.{Health, online}

-- A configuration that an operator sent, as far as the decision reads it: the check sequence of its
-- bytes once it is stamped with a generation
abbrev pub Payload : Type 0
Payload = ℕ → ℕ

-- `s_set_req`: `none` is a place that is not pending.
abbrev pub Inbox : Type 0
Inbox = List (Option Payload)

abbrev is_pending : Option Payload → Bool
is_pending none = false
is_pending (some p) = true

abbrev no_such_zone : ℕ → Bool
no_such_zone zone = ltb zone 1 || ltb hg_max_zones zone

-- `nmgr_cfg_req_pending`
unfoldable pub req_pending : Inbox → ℕ → Bool
req_pending w zone = if no_such_zone zone then false else is_pending (get_or w (zone - 1) none)

-- `nmgr_cfg_take_set_req`, the first place being that of zone `z`
unfoldable pub take_set_req : ℕ → Inbox → Option (ℕ × Payload) × Inbox
take_set_req z [] = (none, [])
take_set_req z (some p ∷ w) = (some (z, p), none ∷ w)
take_set_req z (none ∷ w) = let (taken, left) = take_set_req (suc z) w in (taken, none ∷ left)

-- `nmgr_cfg_drop_set_req`
unfoldable pub drop_set_req : Inbox → ℕ → Inbox
drop_set_req w zone = if no_such_zone zone then w else set w (zone - 1) none

-- The results of `node_mgr_cfg_set`: 0, -1, -2 and -3
pub data SetAnswer : Type 0 where
  accepted no_zone_there in_flight not_online : SetAnswer

abbrev is_online : Health → Bool
is_online online = true
is_online h = false

-- `node_mgr_cfg_set`, with the zone's row, and the answer of `nmgr_cx_busy`: whether a transfer of
-- the zone runs
unfoldable pub cfg_set : Inbox → ℕ → Row → Bool → Payload → SetAnswer × Inbox
cfg_set w zone n busy p =
    if no_such_zone zone || not n.used
    then (no_zone_there, w)
    else if not (is_online n.health)
    then (not_online, w)
    else if busy || is_pending (get_or w (zone - 1) none)
    then (in_flight, w)
    else (accepted, set w (zone - 1) (some p))
