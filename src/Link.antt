-- ===== src/Link.antt =====
-- components/ring_link/ring_link.c: what a node does with each decoded frame. The UART and the
-- FreeRTOS queue are not in the repository: what is written to the line is a list, and the queue's
-- send is a parameter that may refuse.
pub mod Travel
use hill_grov.Base.{
  Bool, List, Option, [], if◌then◌else◌, none, replicate, some, take, u8, ℕ, ◌%◌, ◌&&◌, ◌++◌, ◌+◌,
  ◌-◌, ◌==◌, ◌^◌, ◌||◌, ◌∷◌,
}
use hill_grov.Ring.Frame.{Hdr, encode, ring_wire_max}
use hill_grov.Ring.Route.{
  Route, drop_self, consume, consume_fwd, forward, drop_frame, route, t_cmd, t_time_sync,
  t_fw_update, t_cfg_commit, t_cfg_get,
}

-- `ring_frame_t`, with a payload of 128 bytes.
pub record RingFrame : Type 0 where
  pub hdr : Hdr
  pub payload : List ℕ

-- The counters and stamps that dispatch keeps, the queue, and the bytes written to the line, one
-- item for each `uart_write_bytes`.
pub record Link (Queue : Type 0) : Type 0 where
  pub queue : Queue
  pub sent : List (List ℕ)
  pub rx_drop : ℕ
  pub fwd_count : ℕ
  pub drop_self_count : ℕ
  pub ts_returned_ms : ℕ
  pub last_rx_ms : ℕ

-- The header that goes out, `none` when its time to live is used up.
unfoldable pub decremented : Hdr → Option Hdr
decremented h = if h.ttl == 0 then none else some (record h { ttl = u8 (h.ttl + 255) })

module _ {Queue : Type 0} (queue_send : Queue → RingFrame → Option Queue) where
  -- `ring_link_forward`
  unfoldable pub link_forward : Link Queue → Hdr → List ℕ → Link Queue
  link_forward s h payload = elim (decremented h) [
    | none ↦ record s { rx_drop = (s.rx_drop + 1) % 2 ^ 32 }
    | some fh ↦ elim (encode fh payload ring_wire_max) [
      | none ↦ s
      | some wire ↦ record s { sent = s.sent ++ wire ∷ []; fwd_count = (s.fwd_count + 1) % 2 ^ 32 }
    ]
  ]

  -- The frame as it is copied into the queue: the rest of the payload array is zeroed.
  abbrev pub queued : Hdr → List ℕ → RingFrame
  queued h payload = record { hdr = h; payload = take h.len payload ++ replicate (128 - h.len) 0 }

  -- `ring_link_enqueue`
  unfoldable pub link_enqueue : Link Queue → Hdr → List ℕ → Link Queue
  link_enqueue s h payload = elim (queue_send s.queue (queued h payload)) [
    | none ↦ record s { rx_drop = (s.rx_drop + 1) % 2 ^ 32 }
    | some q ↦ record s { queue = q }
  ]

  abbrev pub is_tracked : ℕ → Bool
  is_tracked t = (t == t_cmd || t == t_fw_update) || (t == t_cfg_commit || t == t_cfg_get)

  unfoldable pub dropped_self : Bool → ℕ → Link Queue → Hdr → List ℕ → Link Queue
  dropped_self is_master now s h payload =
      let counted = record s { drop_self_count = (s.drop_self_count + 1) % 2 ^ 32 } in
      let stamped =
        if is_master && h.type == t_time_sync
        then record counted { ts_returned_ms = now }
        else counted in
      if is_master && is_tracked h.type then link_enqueue stamped h payload else stamped

  -- The switch of `ring_link_dispatch`.
  unfoldable pub act : Route → Bool → ℕ → Link Queue → Hdr → List ℕ → Link Queue
  act drop_self is_master now s h payload = dropped_self is_master now s h payload
  act consume is_master now s h payload = link_enqueue s h payload
  act forward is_master now s h payload = link_forward s h payload
  act consume_fwd is_master now s h payload = link_enqueue (link_forward s h payload) h payload
  act drop_frame is_master now s h payload = s

  -- `ring_link_dispatch`; the clock is read once for each stamp, both here as `now`.
  unfoldable pub dispatch : Bool → ℕ → List ℕ → ℕ → Link Queue → Hdr → List ℕ → Link Queue
  dispatch is_master my_id my_mac now s h payload =
      act (route is_master my_id my_mac h payload) is_master now (record s { last_rx_ms = now }) h
        payload
