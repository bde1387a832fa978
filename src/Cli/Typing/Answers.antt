-- ===== src/Cli/Typing/Answers.antt =====
-- The end of a line that was typed, and what is taken then.
use hill_grov.Base.{
  Bool, List, [], if◌then◌else◌, leb, length, sub32, true, ℕ, ◌-◌, ◌∷◌, ◌≡◌, ◌≤◌, ◌⊎◌,
}
use hill_grov.Cli.{
  CliEvt, CliLine, LineFed, cli_line_feed, cli_line_max, cli_line_take, evt_line, evt_too_long,
  stale_ms,
}

-- The end of a line of at most 191 bytes is that of a line, with its text; that of a longer one is the
-- error, with none.
pub Answer : LineFed → CliEvt × List ℕ
Answer f = (f.1, (cli_line_take f.0).1)

pub answer_to : List ℕ → CliEvt × List ℕ
answer_to s = if leb (length s) (cli_line_max - 1) then (evt_line, s) else (evt_too_long, [])

-- The bytes that were typed, each with its time
unfoldable pub typed : CliLine → ℕ → List (ℕ × ℕ) → CliLine
unfolding cli_line_feed
typed l cap [] = l
typed l cap ((b, now_ms) ∷ bs) = typed (cli_line_feed l b now_ms cap).0 cap bs

-- In machine mode each byte comes within 30 s of the one before it.
unfoldable pub AllTimely : Bool → ℕ → List (ℕ × ℕ) → Type 0
AllTimely echo last [] = Unit
AllTimely echo last ((b, now_ms) ∷ bs) =
    ((echo ≡ true) ⊎ (sub32 now_ms last ≤ stale_ms)) × AllTimely echo now_ms bs

unfoldable pub bytes_of : List (ℕ × ℕ) → List ℕ
bytes_of [] = []
bytes_of ((b, now_ms) ∷ bs) = b ∷ bytes_of bs
