-- ===== src/Ring/Route.antt =====
-- components/ring_proto/ring_route.c: what a node does with a frame that arrives.
use hill_grov.Base.{Bool, List, false, if◌then◌else◌, leb, memeq, not, true, ℕ, ◌&&◌, ◌==◌}
use hill_grov.Ring.Frame.{Hdr}

abbrev pub ring_id_master : ℕ
ring_id_master = 0

abbrev pub ring_id_unassigned : ℕ
ring_id_unassigned = 0xfe

abbrev pub ring_id_bcast : ℕ
ring_id_bcast = 0xff

abbrev pub hg_assign_len : ℕ
hg_assign_len = 7

-- The frame types.
abbrev pub t_cmd : ℕ
t_cmd = 0x10

abbrev pub t_time_sync : ℕ
t_time_sync = 0x11

abbrev pub t_assign_id : ℕ
t_assign_id = 0x12

abbrev pub t_cfg_commit : ℕ
t_cfg_commit = 0x14

abbrev pub t_fw_update : ℕ
t_fw_update = 0x15

abbrev pub t_cfg_get : ℕ
t_cfg_get = 0x16

-- `ring_rt_t`
pub data Route : Type 0 where
  drop_self consume consume_fwd forward drop_frame : Route

-- `ring_route`
unfoldable pub route : Bool → ℕ → List ℕ → Hdr → List ℕ → Route
route true my_id my_mac h payload = if h.src == ring_id_master then drop_self else consume
route false my_id my_mac h payload =
    let assigned = not (my_id == ring_id_unassigned) in
    if assigned && h.src == my_id
    then drop_self
    else if assigned && h.dst == my_id
    then consume
    else if h.dst == ring_id_bcast
    then consume_fwd
    else if h.dst == ring_id_unassigned
    then (if (h.type == t_assign_id && leb hg_assign_len h.len) && memeq 6 payload my_mac
        then consume
        else forward)
    else if leb h.ttl 1
    then drop_frame
    else forward
