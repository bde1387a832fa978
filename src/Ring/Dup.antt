-- ===== src/Ring/Dup.antt =====
-- components/ring_proto/ring_dup.c: the zone's memory of the last command, so that a retransmitted
-- frame is not executed twice.
pub mod AtMostOnce
use hill_grov.Base.{List, Option, [], if◌then◌else◌, leb, none, not, some, sub32, take, ℕ, ◌==◌}

-- The `state` values; 0 is also what a fresh cache holds.
abbrev pub dup_exec : ℕ
dup_exec = 0

abbrev pub dup_absorb : ℕ
dup_absorb = 1

abbrev pub dup_replay : ℕ
dup_replay = 2

-- `ring_dup_t`; `detail` is the text in the array, up to its terminator.
pub record Dup : Type 0 where
  pub seq : ℕ
  pub state : ℕ
  pub status : ℕ
  pub t_ms : ℕ
  pub detail : List ℕ

-- `ring_dup_init`
abbrev pub init : Dup
init = record { seq = 0; state = 0; status = 0; t_ms = 0; detail = [] }

-- `ring_dup_check`
unfoldable pub check : Dup → ℕ → ℕ → ℕ
check c seq now =
    if not (c.seq == seq)
    then dup_exec
    else if c.state == dup_absorb
    then dup_absorb
    else if c.state == dup_replay
    then (if leb (sub32 now c.t_ms) 3000 then dup_replay else dup_exec)
    else dup_exec

-- `ring_dup_start`
unfoldable pub start : Dup → ℕ → ℕ → Dup
start c seq now = record { seq = seq; state = dup_absorb; status = 0; t_ms = now; detail = [] }

-- What `strncpy` of at most 125 bytes and the terminator leave of a text.
abbrev pub detail_of : Dup → Option (List ℕ) → List ℕ
detail_of c none = c.detail
detail_of c (some text) = take 125 text

-- `ring_dup_done`; `detail` may be a null pointer.
unfoldable pub done : Dup → ℕ → ℕ → Option (List ℕ) → ℕ → Dup
done c seq status detail now =
    if not (c.seq == seq)
    then c
    else record c { state = dup_replay; t_ms = now; status = status; detail = detail_of c detail }
