-- ===== src/Notify.antt =====
-- components/notify/notify.c: the lines that the firmware notifies, limited in rate and handed to sinks.
pub mod Rate
pub mod Lines
use hill_grov.Base.{
  List, Option, [], bit_and, get_or, if◌then◌else◌, leb, length, ltb, min, none, not, replicate,
  set, some, sub32, suc, take, ℕ, ◌%◌, ◌&&◌, ◌++◌, ◌+◌, ◌-◌, ◌/◌, ◌==◌, ◌^◌, ◌∷◌,
}

-- `ntf_type_t`, numbered as in the source
pub data NtfType : Type 0 where
  ntf_boot ntf_alarm ntf_safe ntf_node ntf_ring ntf_water ntf_light ntf_soil ntf_fw ntf_cmd
        ntf_wifi :
      NtfType

abbrev pub ntf_count : ℕ
ntf_count = 11

-- `NTF_IDX_N`
abbrev pub ntf_idx_n : ℕ
ntf_idx_n = 8

-- `NTF_NEVER`
abbrev pub ntf_never : ℕ
ntf_never = 0xffffffff

-- `NTF_LINE_MAX`
abbrev pub ntf_line_max : ℕ
ntf_line_max = 128

-- `NTF_MAX_SINKS`
abbrev pub ntf_max_sinks : ℕ
ntf_max_sinks = 3

abbrev pub number_of : NtfType → ℕ
number_of ntf_boot = 0
number_of ntf_alarm = 1
number_of ntf_safe = 2
number_of ntf_node = 3
number_of ntf_ring = 4
number_of ntf_water = 5
number_of ntf_light = 6
number_of ntf_soil = 7
number_of ntf_fw = 8
number_of ntf_cmd = 9
number_of ntf_wifi = 10

-- `s_interval_ms`
abbrev pub interval_ms : NtfType → ℕ
interval_ms ntf_boot = ntf_never
interval_ms ntf_alarm = 1000
interval_ms ntf_safe = 0
interval_ms ntf_node = 0
interval_ms ntf_ring = 2000
interval_ms ntf_water = 0
interval_ms ntf_light = 1000
interval_ms ntf_soil = 60000
interval_ms ntf_fw = 0
interval_ms ntf_cmd = 200
interval_ms ntf_wifi = 2000

-- `s_type_name`
abbrev pub type_name : NtfType → List ℕ
type_name ntf_boot = b'B' ∷ b'O' ∷ b'O' ∷ b'T' ∷ []
type_name ntf_alarm = b'A' ∷ b'L' ∷ b'A' ∷ b'R' ∷ b'M' ∷ []
type_name ntf_safe = b'S' ∷ b'A' ∷ b'F' ∷ b'E' ∷ []
type_name ntf_node = b'N' ∷ b'O' ∷ b'D' ∷ b'E' ∷ []
type_name ntf_ring = b'R' ∷ b'I' ∷ b'N' ∷ b'G' ∷ []
type_name ntf_water = b'W' ∷ b'A' ∷ b'T' ∷ b'E' ∷ b'R' ∷ []
type_name ntf_light = b'L' ∷ b'I' ∷ b'G' ∷ b'H' ∷ b'T' ∷ []
type_name ntf_soil = b'S' ∷ b'O' ∷ b'I' ∷ b'L' ∷ []
type_name ntf_fw = b'F' ∷ b'W' ∷ []
type_name ntf_cmd = b'C' ∷ b'M' ∷ b'D' ∷ []
type_name ntf_wifi = b'W' ∷ b'I' ∷ b'F' ∷ b'I' ∷ []

-- The module's state: the masks of the sinks in the order of their places, and the time of the last
-- line of each type and index
pub record Notify : Type 0 where
  pub node_id : ℕ
  pub sinks : List ℕ
  pub last_ms : List (List ℕ)

-- `notify_init`
unfoldable pub notify_init : ℕ → Notify
notify_init node_id = record {
  node_id = node_id;
  sinks = [];
  last_ms = replicate ntf_count (replicate ntf_idx_n ntf_never);
}

-- `notify_set_node_id`
unfoldable pub set_node_id : Notify → ℕ → Notify
set_node_id s id = record s { node_id = id }

-- `notify_add_sink`; `none` is its -1
unfoldable pub add_sink : Notify → ℕ → Notify × Option ℕ
add_sink s mask =
    if leb ntf_max_sinks (length s.sinks)
    then (s, none)
    else (record s { sinks = s.sinks ++ mask ∷ [] }, some (length s.sinks))

-- `notify_set_sink_mask`
unfoldable pub set_sink_mask : Notify → ℕ → ℕ → Notify
set_sink_mask s sink mask =
    if leb (length s.sinks) sink then s else record s { sinks = set s.sinks sink mask }

-- `notify_sink_mask`
unfoldable pub sink_mask : Notify → ℕ → ℕ
sink_mask s sink = get_or s.sinks sink 0

-- The index of the table for an index of an event
abbrev pub idx_of : ℕ → ℕ
idx_of idx = min idx 7

abbrev pub last_of : Notify → NtfType → ℕ → ℕ
last_of s t i = get_or (get_or s.last_ms (number_of t) []) i ntf_never

abbrev pub with_last : Notify → NtfType → ℕ → ℕ → Notify
with_last s t i now = record s {
  last_ms = set s.last_ms (number_of t) (set (get_or s.last_ms (number_of t) []) i now);
}

-- `%u` of a number of 8 bits
abbrev pub decimal : ℕ → List ℕ
decimal n =
    if ltb n 10
    then (b'0' + n) ∷ []
    else if ltb n 100
    then (b'0' + n / 10) ∷ (b'0' + n % 10) ∷ []
    else (b'0' + n / 100) ∷ (b'0' + n / 10 % 10) ∷ (b'0' + n % 10) ∷ []

-- The end of the line, forced into the last place when the text fills the buffer
unfoldable pub ended : List ℕ → List ℕ
ended line =
    if leb (ntf_line_max - 1) (length line)
    then take (ntf_line_max - 2) line ++ b'\n' ∷ []
    else line ++ b'\n' ∷ []

-- The text, before the buffer cuts it; `content` is what the caller's format makes.
abbrev pub text_of : NtfType → ℕ → List ℕ → List ℕ
text_of t node_id content =
    b'N'
    ∷ b'O'
    ∷ b'T'
    ∷ b'I'
    ∷ b'F'
    ∷ b'Y'
    ∷ b' '
    ∷ (type_name t ++ b' ' ∷ (decimal node_id ++ b' ' ∷ content))

-- What both calls of `snprintf` leave in the line, and its end
unfoldable pub line_of : NtfType → ℕ → List ℕ → List ℕ
unfolding ended
line_of t node_id content = ended (take (ntf_line_max - 1) (text_of t node_id content))

-- The places of the sinks that take a type, from place `k` on
unfoldable pub takers : NtfType → ℕ → List ℕ → List ℕ
takers t k [] = []
takers t k (mask ∷ sinks) =
    if bit_and mask (2 ^ number_of t) == 0
    then takers t (suc k) sinks
    else k ∷ takers t (suc k) sinks

-- `emit_v`: the sinks that are called, and their line
unfoldable pub emit_v : Notify → NtfType → ℕ → ℕ → List ℕ → ℕ → Notify × List ℕ × List ℕ
unfolding line_of takers
emit_v s t idx node_id content now =
    let last = last_of s t (idx_of idx) in
    if not (last == ntf_never) && ltb (sub32 now last) (interval_ms t)
    then (s, [], [])
    else (with_last s t (idx_of idx) now, takers t 0 s.sinks, line_of t node_id content)

-- `notify_emit`
unfoldable pub notify_emit : Notify → NtfType → ℕ → List ℕ → ℕ → Notify × List ℕ × List ℕ
unfolding emit_v
notify_emit s t idx content now = emit_v s t idx s.node_id content now

-- `notify_emit_as`
unfoldable pub notify_emit_as : Notify → ℕ → NtfType → ℕ → List ℕ → ℕ → Notify × List ℕ × List ℕ
unfolding emit_v
notify_emit_as s node_id t idx content now = emit_v s t idx node_id content now

-- `notify_reset`
unfoldable pub notify_reset : Notify → NtfType → ℕ → Notify
notify_reset s t idx = with_last s t (idx_of idx) ntf_never
