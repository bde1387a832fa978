-- ===== src/Tests/Commands.antt =====
-- Commands in the master's queue, and at the zone that executes them.
use hill_grov.Base.{List, [], arith, none, refl, some, ℕ, ◌∷◌, ◌≡◌}
use hill_grov.Ring.Frame.{Hdr}
use hill_grov.Ring.Route.{t_cmd, t_fw_update}
use hill_grov.Ring.Dup.{init, check, start, done, dup_absorb, dup_replay}
use hill_grov.Ring.Dup.AtMostOnce.{
  Completion, clock_at, completions, absorbed_while_running, replayed_after_done,
}
use hill_grov.Ring.Tracker.{Slot, send, fail, zone_timeout, ack_timeout_ms}
use hill_grov.Ring.Tracker.Steps.{Op, submitted, ticked, acked, cancelled}
use hill_grov.Ring.Tracker.Retries.{ticks, sent_at, three_sends_then_timeout}

abbrev others : List Completion
others = (8, 1, some (b'o' ∷ b'k' ∷ []), 1500) ∷ (9, 0, none, 1600) ∷ []

absorbed_while_running_example :
    check (completions others (start init 7 1000)) 7 500000 ≡ dup_absorb
absorbed_while_running_example =
    absorbed_while_running init 7 1000 500000 others ((λ e. omega arith), ((λ e. omega arith), tt))

-- The clock comes round between the completion and the copy.
replayed_after_done_example :
    (check
        (completions others
          (done (start init 7 (clock_at 1000)) 7 3 (some (b'n' ∷ b'o' ∷ [])) (clock_at 4294967000)))
        7
        (clock_at 4294968000)
      ≡ dup_replay)
    × ((completions others (
          done
            (start init 7 (clock_at 1000))
            7
            3
            (some (b'n' ∷ b'o' ∷ []))
            (clock_at 4294967000))).status
        ≡ 3)
    × ((completions others (
          done
            (start init 7 (clock_at 1000))
            7
            3
            (some (b'n' ∷ b'o' ∷ []))
            (clock_at 4294967000))).detail
        ≡ b'n' ∷ b'o' ∷ [])
replayed_after_done_example =
    replayed_after_done init 7 1000 4294967000 4294968000 3 (some (b'n' ∷ b'o' ∷ [])) others
      ((λ e. omega arith), ((λ e. omega arith), tt)) (omega arith) (omega arith)

abbrev update : Hdr
update = record { src = 0; dst = 3; type = t_fw_update; flags = 1; ttl = 16; len = 2; seq = 12 }

abbrev setting : Hdr
setting = record update { type = 6; seq = 11 }

abbrev ops : List Op
ops =
    submitted setting (1 ∷ 2 ∷ [])
    ∷ ticked 100 4
    ∷ submitted update (1 ∷ 2 ∷ [])
    ∷ ticked 200 4
    ∷ cancelled 12
    ∷ acked 11 0 []
    ∷ []

abbrev slot : ℕ → ℕ → Slot
slot seq type = record {
  seq = seq;
  dst = 3;
  type = type;
  wire = 0 ∷ 1 ∷ 0 ∷ [];
  attempts = 0;
  last_send_ms = 0;
}

three_sends_then_timeout_example :
    ticks (1000 ∷ 1050 ∷ 1400 ∷ 1800 ∷ 2200 ∷ []) 4 (slot 12 t_cmd ∷ slot 13 t_cmd ∷ []) ≡ (
      some (send (sent_at (slot 12 t_cmd) 1 1000))
          ∷ none
          ∷ some (send (sent_at (slot 12 t_cmd) 2 1400))
          ∷ some (send (sent_at (slot 12 t_cmd) 3 1800))
          ∷ some (fail (sent_at (slot 12 t_cmd) 3 1800) zone_timeout)
          ∷ [],
      slot 13 t_cmd ∷ [],
    )
three_sends_then_timeout_example =
    three_sends_then_timeout (slot 12 t_cmd) (slot 13 t_cmd ∷ []) 4 1000 1050 1400 1800 2200 refl
      (unfold ack_timeout_ms in omega arith) (unfold ack_timeout_ms in omega arith)
      (unfold ack_timeout_ms in omega arith) (unfold ack_timeout_ms in omega arith)
