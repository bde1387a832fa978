-- ===== src/Tests/Store.antt =====
-- The zone table, what is kept of it in flash, and the alarm log.
use hill_grov.Base.{
  List, [], arith, false, inl, inr, memeq, refl, replicate, some, true, ℕ, ◌++◌, ◌∷◌, ◌≡◌,
}
use hill_grov.Blob.{crc32, crc32_loop, crc32_bits, blob_wrap, blob_unwrap}
use hill_grov.Alarm.{AlarmEvent, log_init, copy_event}
use hill_grov.Alarm.Active.{
  Active, active_upsert, active_clear, is_active, has_room, raised_and_cleared,
}
use hill_grov.Alarm.Newest.{log_all, copy_event-log_all}
use hill_grov.Blob.RoundTrip.{IsEnvelope, reading, unwrap-wrap}
use hill_grov.NodeStore.{
  Entry, Table, empty_entry, known, assigned, enrol, find_mac, find, enrol_new, assign, assign_from,
  find_id, place_entry, ztab_pack, ztab_unpack,
}
use hill_grov.NodeStore.Enrol.{enrol_again}
use hill_grov.NodeStore.Unique.{Distinct, enrol-Distinct}
use hill_grov.NodeStore.Envelope.{IsEntry, ztab_unpack-ztab_pack}

-- The check value of CRC-32.
crc32_run : crc32 0 (0x31 ∷ 0x32 ∷ 0x33 ∷ 0x34 ∷ 0x35 ∷ 0x36 ∷ 0x37 ∷ 0x38 ∷ 0x39 ∷ []) ≡ 0xcbf43926
unfolding crc32 crc32_loop crc32_bits
crc32_run = refl

abbrev note_text : List ℕ
note_text = 1 ∷ 2 ∷ 3 ∷ []

note-IsEnvelope : IsEnvelope 0x545a4748 1 70000 note_text
note-IsEnvelope = record {
  magic_fits = omega arith;
  version_fits = omega arith;
  generation_fits = omega arith;
  payload_fits = omega arith;
}

-- Read by a newer firmware, whose record is longer.
unwrap-wrap_example :
    (out : List ℕ) × (blob_wrap 0x545a4748 1 70000 note_text 64 ≡ some out)
    × (blob_unwrap 0x545a4748 2 1 (out ++ 9 ∷ []) 5 ≡ reading 1 2 1 70000 note_text 5)
unwrap-wrap_example =
    unwrap-wrap 0x545a4748 1 2 1 70000 5 64 note_text (9 ∷ []) note-IsEnvelope (omega arith)
      (omega arith)

abbrev mac_of : ℕ → List ℕ
mac_of k = 2 ∷ 0 ∷ 0 ∷ 0 ∷ 0 ∷ k ∷ []

abbrev in_use : ℕ → Entry
in_use k = record { mac = mac_of k; id = k; flags = 1; name = replicate 16 0 }

abbrev three_zones : Table
three_zones =
    in_use 1
    ∷ empty_entry
    ∷ in_use 2
    ∷ in_use 4
    ∷ empty_entry
    ∷ empty_entry
    ∷ empty_entry
    ∷ empty_entry
    ∷ []

-- A new zone that claims nothing gets 3, and is known by it.
enrol_again_example :
    enrol (enrol three_zones (mac_of 9) 0xfe).table (mac_of 9) 3
    ≡ record { verdict = known; out_id = some 3; table = (enrol three_zones (mac_of 9) 0xfe).table }
unfolding enrol find_mac find memeq enrol_new assign assign_from find_id place_entry
enrol_again_example = enrol_again three_zones (mac_of 9) 0xfe 3 (omega arith) got_one got_three
  where
    got_one : (enrol three_zones (mac_of 9) 0xfe).verdict ≡ assigned
    got_one = refl

    got_three : (enrol three_zones (mac_of 9) 0xfe).out_id ≡ some 3
    got_three = refl

abbrev two_zones : Table
two_zones = in_use 1 ∷ empty_entry ∷ in_use 2 ∷ []

two_zones-Distinct : Distinct two_zones
two_zones-Distinct =
    (inr (inl refl, (inr ((λ e. omega arith), unfold memeq in refl), tt)), (inl refl, (inr tt, tt)))

-- The claimed id is free.
enrol-Distinct_example : Distinct (enrol two_zones (mac_of 9) 4).table
enrol-Distinct_example = enrol-Distinct two_zones (mac_of 9) 4 two_zones-Distinct

in_use-IsEntry : (k : ℕ) → IsEntry (in_use k)
in_use-IsEntry k = record { mac_len = refl; name_len = refl }

empty_entry-IsEntry : IsEntry empty_entry
empty_entry-IsEntry = record { mac_len = refl; name_len = refl }

ztab_unpack-ztab_pack_example :
    (out : List ℕ) × (ztab_pack three_zones 5 256 ≡ some out)
    × (ztab_unpack out ≡ some (three_zones, 5))
ztab_unpack-ztab_pack_example =
    ztab_unpack-ztab_pack three_zones 5 256 refl
      (
        in_use-IsEntry 1,
        (
          empty_entry-IsEntry,
          (
            in_use-IsEntry 2,
            (
              in_use-IsEntry 4,
              (
                empty_entry-IsEntry,
                (empty_entry-IsEntry, (empty_entry-IsEntry, (empty_entry-IsEntry, tt))),
              ),
            ),
          ),
        ),
      )
      (omega arith) (omega arith)

abbrev event_at : ℕ → AlarmEvent
event_at t = record { at_s = t; type = 3; node = 2; text = 79 ∷ 75 ∷ [] }

-- Three events were recorded before the total was read, and one came between.
copy_event-log_all_example :
    copy_event
      (log_all ((event_at 1 ∷ event_at 2 ∷ event_at 3 ∷ []) ++ event_at 4 ∷ []) log_init)
      3
      1
    ≡ some (event_at 2)
copy_event-log_all_example =
    copy_event-log_all (event_at 1 ∷ event_at 2 ∷ event_at 3 ∷ []) (event_at 4 ∷ []) 1 (omega arith)
      (omega arith) (omega arith)

abbrev slots : List Active
slots = replicate 16 (record { key = []; text = []; since_s = 0; used = false })

raised_and_cleared_example :
    (is_active (active_upsert slots (70 ∷ 87 ∷ []) (79 ∷ []) 12) (70 ∷ 87 ∷ []) ≡ true)
    × (is_active
          (active_clear (active_upsert slots (70 ∷ 87 ∷ []) (79 ∷ []) 12) (70 ∷ 87 ∷ []))
          (70 ∷ 87 ∷ [])
        ≡ false)
unfolding is_active has_room
raised_and_cleared_example =
    raised_and_cleared slots (70 ∷ 87 ∷ []) (79 ∷ []) 12 refl refl (omega arith)

-- An image for chip 18 with names of one character, the first unprintable.
abbrev image : List ℕ
image =
    0xe9 ∷ replicate 11 0
    ++ (18 ∷ replicate 19 0
        ++ (0x32 ∷ 0x54 ∷ 0xcd ∷ 0xab ∷ replicate 12 0
            ++ (7 ∷ replicate 31 0 ++ (0x68 ∷ replicate 31 0))))
