-- ===== src/Cli.antt =====
-- components/cli_line/cli_line.c: the line editor of the serial console.
pub mod Invariant
pub mod Calls
pub mod Typing
pub mod Browsing
use hill_grov.Base.{
  Bool, List, [], false, get_or, if◌then◌else◌, leb, length, ltb, not, replicate, set, sub32, take,
  text_eq, true, ℕ, ◌%◌, ◌&&◌, ◌++◌, ◌+◌, ◌-◌, ◌==◌, ◌^◌, ◌||◌, ◌∷◌,
}

-- `CLI_LINE_MAX`
abbrev pub cli_line_max : ℕ
cli_line_max = 192

-- `CLI_HIST_N`
abbrev pub cli_hist_n : ℕ
cli_hist_n = 10

-- `CLI_HIST_LEN`
abbrev pub cli_hist_len : ℕ
cli_hist_len = 96

-- `STALE_MS`
abbrev pub stale_ms : ℕ
stale_ms = 30000

-- `cli_evt_t`
pub data CliEvt : Type 0 where
  evt_none evt_line evt_too_long : CliEvt

-- `cli_line_t`. A text is what stands before its NUL; `len` is 0 while the text of a line that was
-- taken is still there. `hist_at` is `hist_pos` + 1.
pub record CliLine : Type 0 where
  pub buf : List ℕ
  pub len : ℕ
  pub echo : Bool
  pub esc : ℕ
  pub overflow : Bool
  pub last_cr : Bool
  pub browsing : Bool
  pub hist : List (List ℕ)
  pub hist_count : ℕ
  pub hist_next : ℕ
  pub hist_at : ℕ
  pub saved : List ℕ
  pub last_ms : ℕ
  pub noise : ℕ
  pub stale : ℕ

-- `cli_line_init`
unfoldable pub cli_line_init : Bool → CliLine
cli_line_init echo = record {
  buf = [];
  len = 0;
  echo = echo;
  esc = 0;
  overflow = false;
  last_cr = false;
  browsing = false;
  hist = replicate cli_hist_n [];
  hist_count = 0;
  hist_next = 0;
  hist_at = 0;
  saved = [];
  last_ms = 0;
  noise = 0;
  stale = 0;
}

-- `cli_line_set_echo`
unfoldable pub set_echo : CliLine → Bool → CliLine
set_echo l echo = record l { echo = echo }

-- `echo_put`, on what is in the caller's buffer of `cap` bytes
unfoldable pub echo_put : CliLine → ℕ → List ℕ → List ℕ → List ℕ
echo_put l cap out s = if l.echo then out ++ take (cap - length out) s else out

abbrev pub has_newest : CliLine → Bool
has_newest l =
    ltb 0 l.hist_count && text_eq (get_or l.hist ((l.hist_next + 9) % cli_hist_n) []) l.buf

abbrev pub is_empty : List ℕ → Bool
is_empty [] = true
is_empty (c ∷ s) = false

-- `hist_push`
unfoldable pub hist_push : CliLine → CliLine
hist_push l = if is_empty l.buf || has_newest l then l else record l {
  hist = set l.hist l.hist_next (take (cli_hist_len - 1) l.buf);
  hist_next = (l.hist_next + 1) % cli_hist_n;
  hist_count = if ltb l.hist_count cli_hist_n then l.hist_count + 1 else l.hist_count;
}

-- The entry of `hist_ring_index`, for `hist_pos` + 1, which is at most 10
abbrev pub hist_entry : CliLine → List ℕ
hist_entry l = get_or l.hist ((l.hist_next + cli_hist_n - l.hist_at) % cli_hist_n) []

-- `hist_load`
unfoldable pub hist_load : CliLine → CliLine
hist_load l = record l { buf = hist_entry l; len = length (hist_entry l) }

-- `hist_echo`: of its five bytes for clearing the line the code passes on the first four.
unfoldable pub hist_echo : CliLine → ℕ → List ℕ
unfolding echo_put
hist_echo l cap =
    echo_put l cap (echo_put l cap [] (take 4 (b'\r' ∷ 0x1b ∷ b'[' ∷ b'2' ∷ b'K' ∷ [])))
      (take l.len l.buf)

-- `hist_up`, without its echo
unfoldable pub hist_up : CliLine → CliLine
unfolding hist_load
hist_up l =
    if l.browsing
    then hist_load (if ltb l.hist_at l.hist_count then record l { hist_at = l.hist_at + 1 } else l)
    else if l.hist_count == 0
    then l
    else hist_load (record l { saved = take l.len l.buf; browsing = true; hist_at = 1 })

-- `hist_down`, without its echo
unfoldable pub hist_down : CliLine → CliLine
unfolding hist_load
hist_down l =
    if not l.browsing
    then l
    else if leb l.hist_at 1
    then record l { hist_at = 0; buf = l.saved; len = length l.saved; browsing = false }
    else hist_load (record l { hist_at = l.hist_at - 1 })

-- A line in the middle of a call, with what was echoed so far
abbrev pub LineFed : Type 0
LineFed = CliLine × CliEvt × List ℕ

-- The start of `cli_line_feed`: the rest of a line that was taken goes, `last_cr` is spent, and in
-- machine mode a partial line that was left for long is given up.
unfoldable pub prepared : CliLine → ℕ → CliLine
prepared l now_ms =
    let buf = if l.len == 0 then [] else l.buf in
    if (not l.echo && ltb 0 l.len) && ltb stale_ms (sub32 now_ms l.last_ms)
    then record l {
      buf = [];
      len = 0;
      last_cr = false;
      stale = (l.stale + 1) % 2 ^ 32;
      last_ms = now_ms;
    }
    else record l { buf = buf; last_cr = false; last_ms = now_ms }

-- The bytes after an escape, in human mode
unfoldable pub in_escape : CliLine → ℕ → ℕ → LineFed
unfolding hist_up hist_down hist_echo
in_escape l b cap =
    if l.esc == 1
    then (if b == b'['
        then (record l { esc = 2 }, evt_none, [])
        else (record l { esc = 0; noise = (l.noise + 1) % 2 ^ 32 }, evt_none, []))
    else if b == b'A'
    then (let up = hist_up (record l { esc = 0 }) in
        (up, evt_none, if up.browsing then hist_echo up cap else []))
    else if b == b'B'
    then (let down = hist_down (record l { esc = 0 }) in
        (down, evt_none, if l.browsing then hist_echo down cap else []))
    else (record l { esc = 0 }, evt_none, [])

-- The end of a line
unfoldable pub line_end : CliLine → Bool → ℕ → LineFed
unfolding echo_put hist_push
line_end l cr cap =
    let m = record l { last_cr = cr; browsing = false } in
    if m.overflow
    then (
      record m { overflow = false; len = 0; buf = [] },
      evt_too_long,
      echo_put m cap [] (b'\r' ∷ b'\n' ∷ []),
    )
    else (let done = record m { buf = take m.len m.buf } in
        (
          (if done.echo then hist_push done else done),
          evt_line,
          echo_put m cap [] (b'\r' ∷ b'\n' ∷ []),
        ))

-- A byte taken back, with a blank echoed over it
unfoldable pub backspace : CliLine → ℕ → LineFed
unfolding echo_put
backspace l cap =
    if ltb 0 l.len
    then (
      record l { len = l.len - 1; buf = take (l.len - 1) l.buf; overflow = false },
      evt_none,
      echo_put l cap [] (8 ∷ b' ' ∷ 8 ∷ []),
    )
    else (l, evt_none, [])

unfoldable pub printable_byte : CliLine → ℕ → ℕ → LineFed
unfolding echo_put
printable_byte l b cap =
    if l.len == cli_line_max - 1
    then (record l { browsing = false; overflow = true }, evt_none, [])
    else (
      record l { browsing = false; buf = take l.len l.buf ++ b ∷ []; len = l.len + 1 },
      evt_none,
      echo_put l cap [] (b ∷ []),
    )

-- The byte itself
unfoldable pub plain_byte : CliLine → Bool → ℕ → ℕ → LineFed
unfolding line_end backspace printable_byte
plain_byte l was_cr b cap =
    if b == b'\n' && was_cr
    then (l, evt_none, [])
    else if b == b'\r' || b == b'\n'
    then line_end l (b == b'\r') cap
    else if b == 3
    then (
      record l { len = 0; buf = []; overflow = false; browsing = false; hist_at = 0 },
      evt_none,
      echo_put l cap [] (b'^' ∷ b'C' ∷ b'\r' ∷ b'\n' ∷ []),
    )
    else if b == 8 || b == 0x7f
    then backspace l cap
    else if leb 0x20 b && leb b 0x7e
    then printable_byte l b cap
    else (record l { noise = (l.noise + 1) % 2 ^ 32 }, evt_none, [])

-- The byte after the start: in human mode an escape, or one that follows it
unfoldable pub feed_prepared : CliLine → Bool → ℕ → ℕ → LineFed
unfolding in_escape plain_byte
feed_prepared m was_cr b cap =
    if m.echo && b == 0x1b
    then (record m { esc = 1 }, evt_none, [])
    else if m.echo && (m.esc == 1 || m.esc == 2)
    then in_escape m b cap
    else plain_byte m was_cr b cap

-- `cli_line_feed`, with room for `cap` bytes of echo
unfoldable pub cli_line_feed : CliLine → ℕ → ℕ → ℕ → LineFed
unfolding prepared feed_prepared
cli_line_feed l b now_ms cap = feed_prepared (prepared l now_ms) l.last_cr b cap

-- `cli_line_take`: the line, and what is left of it
unfoldable pub cli_line_take : CliLine → CliLine × List ℕ
cli_line_take l = (
  record l { buf = take l.len l.buf; len = 0; browsing = false; overflow = false },
  take l.len l.buf,
)
