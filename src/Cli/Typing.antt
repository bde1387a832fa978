-- ===== src/Cli/Typing.antt =====
-- What a user types is what the console takes: components/cli_line/cli_line.c from the first byte of a
-- line to its end.
pub mod Answers
use hill_grov.Base.{
  List, [], false, if◌then◌else◌, length, ltb, min, sub32, take, true, ℕ, ◌-◌, ◌==◌, ◌≡◌, ◌≤◌, ◌⊎◌,
}
use hill_grov.Cli.{CliLine, cli_line_max, stale_ms}

-- In machine mode the byte comes before the line is given up.
abbrev pub IsTimely : CliLine → ℕ → Type 0
IsTimely l now_ms = (l.echo ≡ true) ⊎ (sub32 now_ms l.last_ms ≤ stale_ms)

kept : CliLine → ℕ → CliLine
kept l now_ms = record l {
  buf = if l.len == 0 then [] else l.buf;
  last_cr = false;
  last_ms = now_ms;
}

abbrev pub IsPrintable : ℕ → Type 0
IsPrintable b = (0x20 ≤ b) × (b ≤ 0x7e)

-- The line when `s` was typed into it since it was empty
pub record IsTyped (l : CliLine) (s : List ℕ) : Type 0 where
  pub text : take l.len l.buf ≡ take (cli_line_max - 1) s
  pub size : l.len ≡ min (cli_line_max - 1) (length s)
  pub full : l.overflow ≡ ltb (cli_line_max - 1) (length s)
  pub calm : l.esc ≡ 0
