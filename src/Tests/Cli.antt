-- ===== src/Tests/Cli.antt =====
-- The line editor: lines typed in both modes, and the walk through the history.
use hill_grov.Base.{List, [], arith, false, length, min, refl, take, true, ℕ, ◌<◌, ◌∷◌, ◌≡◌}
use hill_grov.Cli.{
  CliLine, cli_line_feed, cli_line_init, cli_line_take, echo_put, feed_prepared, hist_echo,
  hist_load, hist_push, hist_up, line_end, plain_byte, prepared, printable_byte, set_echo,
}
use hill_grov.Cli.Browsing.{downs, ups, ups-downs}
use hill_grov.Cli.Calls.{Call, after_calls, after_calls-IsValid, feed_call, take_call}
use hill_grov.Cli.Invariant.{IsValid}

-- HI and GO
abbrev greeting : List Call
greeting =
    feed_call b'H' 5 64
    ∷ feed_call b'I' 6 64
    ∷ feed_call b'\r' 7 64
    ∷ take_call
    ∷ feed_call b'G' 8 64
    ∷ feed_call b'O' 9 64
    ∷ []

abbrev human : CliLine
human = cli_line_init true

after_calls-IsValid_example : IsValid (after_calls human greeting)
after_calls-IsValid_example = after_calls-IsValid true greeting

abbrev typed_hi : List (ℕ × ℕ)
typed_hi = (b'H', 29000) ∷ (b'I', 59000) ∷ []

-- The editor with HI in its history and GO in the line
abbrev second : CliLine
second = after_calls human greeting

second_lem :
    (second.browsing ≡ false)
    × (0 < second.hist_count)
    × (take second.len second.buf ≡ b'G' ∷ b'O' ∷ [])
unfolding after_calls cli_line_init cli_line_feed cli_line_take set_echo prepared feed_prepared
    plain_byte printable_byte line_end hist_push echo_put hist_up hist_load hist_echo
second_lem = (refl, omega arith, refl)

-- The first entry that up shows; its echo lacks the last byte of the order that clears the line.
shown_lem :
    ((hist_up second).buf ≡ b'H' ∷ b'I' ∷ [])
    × (hist_echo (hist_up second) 64 ≡ b'\r' ∷ 0x1b ∷ b'[' ∷ b'2' ∷ b'H' ∷ b'I' ∷ [])
unfolding after_calls cli_line_init cli_line_feed cli_line_take set_echo prepared feed_prepared
    plain_byte printable_byte line_end hist_push echo_put hist_up hist_load hist_echo
shown_lem = (refl, refl)

ups-downs_example :
    ((downs (min 2 second.hist_count) (ups 2 second)).buf ≡ take second.len second.buf)
    × ((downs (min 2 second.hist_count) (ups 2 second)).len ≡ length (take second.len second.buf))
    × ((downs (min 2 second.hist_count) (ups 2 second)).browsing ≡ false)
ups-downs_example = ups-downs 1 second second_lem.0 second_lem.1
