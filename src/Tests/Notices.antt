-- ===== src/Tests/Notices.antt =====
-- The notify lines: one held back and one sent, and a line that is cut.
use hill_grov.Base.{
  List, [], arith, if◌then◌else◌, inl, length, ltb, refl, replicate, sub32, take, ℕ, ◌++◌, ◌-◌, ◌<◌,
  ◌∷◌, ◌≡◌,
}
use hill_grov.Notify.{
  Notify, add_sink, emit_v, ended, interval_ms, line_of, notify_init, ntf_alarm, ntf_boot,
  ntf_line_max, ntf_node, ntf_ring, takers, text_of,
}
use hill_grov.Notify.Lines.{line_of-fits}
use hill_grov.Notify.Rate.{AllApart, IsDue, IsTable, Other, after_others, next_line}

-- Two sinks, the second for RING alone
abbrev two_sinks : Notify
two_sinks = (add_sink (add_sink (notify_init 0) 0x7ff).0 0x10).0

abbrev degraded : List ℕ
degraded = b'D' ∷ b'E' ∷ b'G' ∷ []

line_run :
    line_of ntf_node 254 (b'U' ∷ b'P' ∷ [])
    ≡ b'N' ∷ b'O' ∷ b'T' ∷ b'I' ∷ b'F' ∷ b'Y' ∷ b' ' ∷ b'N' ∷ b'O' ∷ b'D' ∷ b'E' ∷ b' ' ∷ b'2'
      ∷ b'5' ∷ b'4' ∷ b' ' ∷ b'U' ∷ b'P' ∷ b'\n' ∷ []
unfolding line_of ended
line_run = refl

line_of-fits_example :
    (line_of ntf_boot 12 (replicate 200 b'x')
      ≡ take (ntf_line_max - 2) (text_of ntf_boot 12 (replicate 200 b'x')) ++ b'\n' ∷ [])
    × (length (line_of ntf_boot 12 (replicate 200 b'x')) < ntf_line_max)
line_of-fits_example = line_of-fits ntf_boot 12 (replicate 200 b'x')

sinks-IsTable : IsTable two_sinks ntf_ring
unfolding notify_init add_sink
sinks-IsTable = record { rows = refl; places = refl }

sinks-IsDue : IsDue two_sinks ntf_ring 3 4294967000
unfolding notify_init add_sink
sinks-IsDue = inl refl

abbrev between : List Other
between = (ntf_ring, 4, 0, degraded, 4294967100) ∷ (ntf_alarm, 3, 0, degraded, 5) ∷ []

between-AllApart : AllApart ntf_ring 3 between
unfolding AllApart
between-AllApart = (refl, (refl, tt))

next_line_example :
    (emit_v
      (after_others (emit_v two_sinks ntf_ring 3 0 degraded 4294967000).0 between)
      ntf_ring
      3
      0
      degraded
      1704).1
    ≡ (if ltb (sub32 1704 4294967000) (interval_ms ntf_ring)
        then []
        else takers ntf_ring 0 two_sinks.sinks)
next_line_example =
    next_line two_sinks ntf_ring 3 3 4294967000 1704 between 0 0 degraded degraded sinks-IsTable
      (λ e. omega (arith, e)) sinks-IsDue refl between-AllApart

takers_run : takers ntf_ring 0 two_sinks.sinks ≡ 0 ∷ 1 ∷ []
unfolding takers notify_init add_sink
takers_run = refl
