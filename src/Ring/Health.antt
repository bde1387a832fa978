-- ===== src/Ring/Health.antt =====
-- components/ring_proto/ring_health.c: the master's view of each zone's health, and the verdict on
-- where an open ring is broken. The table is a list of rows with the fields that this file reads.
-- The notify lines are values: the texts of two verdicts are equal only if the verdicts are, and all
-- fit their buffers, so that comparing values is `strcmp`. A callback is taken to be there.
pub mod Ladder
pub mod Search
pub mod Blame
pub mod Dwell
use hill_grov.Base.{
  Bool, List, Option, [], bit_and, bit_or, false, if◌then◌else◌, leb, ltb, none, not, some, sub32,
  suc, true, u16, u8, ℕ, ◌&&◌, ◌++◌, ◌+◌, ◌-◌, ◌==◌, ◌^◌, ◌||◌, ◌∷◌,
}

-- `node_health_t`
pub data Health : Type 0 where
  empty online degraded offline updating : Health

-- `hg_node_t`; `uptime_s` is that of the last heartbeat.
pub record Node : Type 0 where
  pub used : Bool
  pub id : ℕ
  pub health : Health
  pub last_hb_ms : ℕ
  pub updating_until_ms : ℕ
  pub hops : ℕ
  pub link_flags : ℕ
  pub cmd_timeouts : ℕ
  pub hops_valid : Bool
  pub uptime_s : ℕ

-- The end of a segment: a zone, or the master when there is none.
abbrev pub End : Type 0
End = Option ℕ

-- The texts of `blame`: empty, "no node reports a fault", "wire M->d", "Zu dead or wire Zu->d".
pub data Verdict : Type 0 where
  blank no_fault : Verdict
  wire : End → Verdict
  dead : ℕ → End → Verdict

-- The notify lines.
pub data Line : Type 0 where
  node_line : ℕ → Health → Line
  ring_open : Verdict → Line
  ring_closed : Line

unfoldable pub end_eq : End → End → Bool
end_eq none none = true
end_eq none (some b) = false
end_eq (some a) none = false
end_eq (some a) (some b) = a == b

unfoldable pub verdict_eq : Verdict → Verdict → Bool
verdict_eq blank blank = true
verdict_eq no_fault no_fault = true
verdict_eq (wire a) (wire b) = end_eq a b
verdict_eq (dead u a) (dead v b) = u == v && end_eq a b
verdict_eq _ _ = false

unfoldable pub health_eq : Health → Health → Bool
health_eq empty empty = true
health_eq online online = true
health_eq degraded degraded = true
health_eq offline offline = true
health_eq updating updating = true
health_eq _ _ = false

-- `chain_pos`: the two counts of its loop.
unfoldable pub count_used : List Node → ℕ
count_used [] = 0
count_used (x ∷ xs) = if x.used then suc (count_used xs) else count_used xs

unfoldable pub count_lower : List Node → ℕ → ℕ
count_lower [] id = 0
count_lower (x ∷ xs) id =
    if x.used && ltb x.id id then suc (count_lower xs id) else count_lower xs id

unfoldable pub chain_pos : List Node → Node → ℕ
chain_pos tab k =
    if k.hops_valid
    then k.hops
    else if count_used tab == 0
    then 0
    else u8 (count_used tab - 1 - count_lower tab k.id)

-- The scan that both searches make: the row of the best position among those that qualify, the
-- lower id where positions are equal. `ahead p q` tells whether position `p` beats `q`.
unfoldable pub better : (ℕ → ℕ → Bool) → List Node → Option Node → Node → Bool
better ahead tab none nd = true
better ahead tab (some best) nd =
    ahead (chain_pos tab nd) (chain_pos tab best)
    || (chain_pos tab nd == chain_pos tab best && ltb nd.id best.id)

unfoldable pub scan :
    (ℕ → ℕ → Bool) → (Node → Bool) → List Node → List Node → Option Node → Option Node
scan ahead qualifies tab [] best = best
scan ahead qualifies tab (nd ∷ rest) best =
    scan ahead qualifies tab rest
      (if qualifies nd && better ahead tab best nd then some nd else best)

unfoldable pub is_suspect : Node → Bool
is_suspect nd = (nd.used && health_eq nd.health offline) && nd.hops_valid

-- `most_downstream_offline`
unfoldable pub most_downstream_offline : List Node → Option Node
most_downstream_offline tab = scan (λ p q. ltb p q) is_suspect tab tab none

abbrev pub witness_min_uptime_s : ℕ
witness_min_uptime_s = 10

-- `is_witness`
unfoldable pub is_witness : Node → Bool
is_witness nd =
    (nd.used && (health_eq nd.health online || health_eq nd.health degraded))
    && not (ltb nd.uptime_s witness_min_uptime_s)

-- `most_upstream_witness`
unfoldable pub most_upstream_witness : List Node → Option Node
most_upstream_witness tab = scan (λ p q. ltb q p) is_witness tab tab none

-- `anything_alive_below`, at the rows from the given one on
unfoldable pub alive_below : List Node → List Node → ℕ → Bool
alive_below tab [] u_pos = false
alive_below tab (nd ∷ rest) u_pos =
    ((nd.used && nd.hops_valid) && not (health_eq nd.health offline || health_eq nd.health empty))
      && ltb (chain_pos tab nd) u_pos
    || alive_below tab rest u_pos

-- `link_flags & LINK_MASTER_ALIVE`
unfoldable pub hears_master : Node → Bool
hears_master nd = not (bit_and nd.link_flags 0x02 == 0)

-- `ring_blame`, from U and D on
unfoldable pub blame_of : List Node → Option Node → Option Node → Verdict
blame_of tab none none = no_fault
blame_of tab (some u) none =
    if alive_below tab tab (chain_pos tab u) then no_fault else dead u.id none
blame_of tab none (some d) = if hears_master d then no_fault else wire (some d.id)
blame_of tab (some u) (some d) = if hears_master d then no_fault else dead u.id (some d.id)

unfoldable pub ring_blame : List Node → Verdict
ring_blame tab = blame_of tab (most_downstream_offline tab) (most_upstream_witness tab)

-- `ring_online_mask`
unfoldable pub online_mask : List Node → ℕ → ℕ → ℕ
online_mask [] now mask = mask
online_mask (nd ∷ rest) now mask =
    online_mask rest now (
      if nd.used && ltb (sub32 now nd.last_hb_ms) 5000 then bit_or mask (u16 (2 ^ nd.id)) else mask)

-- The ladder of `ring_health_eval`.
unfoldable pub next_health : Node → ℕ → Health
next_health nd now =
    let since_hb = sub32 now nd.last_hb_ms in
    if ltb now nd.updating_until_ms
    then updating
    else if leb 10000 since_hb
    then offline
    else if leb 5000 since_hb || leb 3 nd.cmd_timeouts
    then degraded
    else online

-- The body of its loop at one row, with the lines that it notifies.
unfoldable pub eval_node : Node → ℕ → Node × List Line
eval_node nd now =
    let nh = next_health nd now in
    if not nd.used then (nd, []) else if health_eq nh nd.health then (nd, []) else (
      record nd { health = nh },
      if health_eq nd.health empty then [] else node_line nd.id nh ∷ [],
    )

unfoldable pub eval_nodes : List Node → ℕ → List Node × List Line
eval_nodes [] now = ([], [])
eval_nodes (nd ∷ rest) now =
    let (nd', ls) = eval_node nd now in
    let (rest', ls') = eval_nodes rest now in (nd' ∷ rest', ls ++ ls')

-- `ring_state_t` and `ring_status_t`
pub data RingState : Type 0 where
  idle closed open_ring : RingState

pub record Status : Type 0 where
  pub state : RingState
  pub size : ℕ
  pub online : ℕ
  pub blame : Verdict
  pub pending_blame : Verdict
  pub pending_ticks : ℕ

abbrev pub blame_dwell_ticks : ℕ
blame_dwell_ticks = 3

abbrev pub is_open : RingState → Bool
is_open open_ring = true
is_open _ = false

-- `if (adopt) { … }`
abbrev adopt : Status → Verdict → Status × List Line
adopt st cand = (
  record st { state = open_ring; blame = cand; pending_blame = blank; pending_ticks = 0 },
  ring_open cand ∷ [],
)

-- The part for an open ring, behind `ring_blame`; `++pending_ticks` is on a `uint8_t`.
unfoldable pub dwell : Status → Verdict → Status × List Line
dwell st cand =
    let ticks = u8 (st.pending_ticks + 1) in
    let st' = record st { state = open_ring } in
    if not (is_open st.state)
    then adopt st cand
    else if verdict_eq cand st.blame
    then (record st' { pending_ticks = 0 }, [])
    else if verdict_eq cand st.pending_blame
    then (if leb blame_dwell_ticks ticks
        then adopt st cand
        else (record st' { pending_ticks = ticks }, []))
    else (record st' { pending_blame = cand; pending_ticks = 1 }, [])

-- The part for a closed ring.
unfoldable pub close_ring : Status → Status × List Line
close_ring st =
    let st' = record st { state = closed; pending_blame = blank; pending_ticks = 0 } in
    if is_open st.state then (record st' { blame = blank }, ring_closed ∷ []) else (st', [])

-- `ring_health_eval`; `used_count` is a `uint8_t`.
unfoldable pub eval : List Node → ℕ → ℕ → Status → List Node × Status × List Line
eval tab now ts_last_returned st =
    let (tab', ls) = eval_nodes tab now in
    let used_count = u8 (count_used tab') in
    let st₁ = record st { size = used_count; online = online_mask tab' now 0 } in
    let (st₂, ls') =
      if leb 5000 (sub32 now ts_last_returned)
      then dwell st₁ (ring_blame tab')
      else close_ring st₁ in
    if used_count == 0
    then (
      tab',
      record st₁ { state = idle; blame = blank; pending_blame = blank; pending_ticks = 0 },
      ls,
    )
    else (tab', st₂, ls ++ ls')
