-- ===== src/Cli/Calls.antt =====
-- The bytes, one at a time, and the calls of components/cli_line/cli_line.c in any order.
use hill_grov.Base.{
  All, Bool, List, [], arith, false, if_lem, inl, inr, leb, length, length-append, length-take, ltb,
  not, refl, replicate, sub32, suc, sym, take, zero, ℕ, ◌%◌, ◌&&◌, ◌+◌, ◌-◌, ◌<◌, ◌==◌, ◌^◌, ◌||◌,
  ◌∷◌, ◌≡◌, ◌≤◌,
}
use hill_grov.Cli.{
  set_echo, LineFed, stale_ms, CliLine, backspace, cli_hist_len, cli_hist_n, cli_line_feed,
  feed_prepared, cli_line_init, cli_line_max, cli_line_take, in_escape, line_end, plain_byte,
  prepared, printable_byte,
}
use hill_grov.Cli.Invariant.{IsText, IsValid, hist_down-IsValid, hist_push-IsValid, hist_up-IsValid}

-- The length of a text that is cut at a place within it
cut_len : (n len : ℕ) (buf : List ℕ) → IsText buf len → n ≤ len → length (take n buf) ≡ n
cut_len n len buf h small = elim h.1 [
  | inl e ↦ omega (arith, length-take n buf)
  | inr e ↦ omega (arith, length-take n buf)
]

prepared-IsValid : (l : CliLine) (now_ms : ℕ) → IsValid l → IsValid (prepared l now_ms)
unfolding prepared
prepared-IsValid l now_ms v =
    if_lem IsValid ((not l.echo && ltb 0 l.len) && ltb stale_ms (sub32 now_ms l.last_ms)) _ _
      (λ b. record {
        text = (omega arith, inl refl);
        hist = v.hist;
        shown = v.shown;
        saved = v.saved;
        esc = v.esc;
      })
      (λ b. record {
        text =
            if_lem (λ s. IsText s l.len) (l.len == 0) [] l.buf
              (λ c. (omega arith, inl (ground (arith, c)))) (λ c. v.text);
        hist = v.hist;
        shown = v.shown;
        saved = v.saved;
        esc = v.esc;
      })

FedIsValid : LineFed → Type 0
FedIsValid f = IsValid f.0

with_esc : (l : CliLine) (n : ℕ) → n ≤ 2 → IsValid l → IsValid (record l { esc = n })
with_esc l n h v = record {
  text = v.text;
  hist = v.hist;
  shown = v.shown;
  saved = v.saved;
  esc = h;
}

with_noise : (l : CliLine) (n : ℕ) → IsValid l → IsValid (record l { noise = n })
with_noise l n v = record {
  text = v.text;
  hist = v.hist;
  shown = v.shown;
  saved = v.saved;
  esc = v.esc;
}

in_escape-IsValid : (l : CliLine) (b cap : ℕ) → IsValid l → FedIsValid (in_escape l b cap)
unfolding in_escape FedIsValid
in_escape-IsValid l b cap v =
    let calm = with_esc l 0 (omega arith) v in
    if_lem FedIsValid (l.esc == 1) _ _
      (λ c.
        if_lem FedIsValid (b == b'[') _ _ (λ d. with_esc l 2 (omega arith) v)
          (λ d. with_noise (record l { esc = 0 }) ((l.noise + 1) % 2 ^ 32) calm))
      (λ c.
        if_lem FedIsValid (b == b'A') _ _ (λ d. hist_up-IsValid (record l { esc = 0 }) calm)
          (λ d.
            if_lem FedIsValid (b == b'B') _ _ (λ e. hist_down-IsValid (record l { esc = 0 }) calm)
              (λ e. calm)))

line_end-IsValid : (l : CliLine) (cr : Bool) (cap : ℕ) → IsValid l → FedIsValid (line_end l cr cap)
unfolding line_end FedIsValid
line_end-IsValid l cr cap v =
    let done : IsValid (record l { last_cr = cr; browsing = false; buf = take l.len l.buf }) =
      record {
        text = (
          omega (arith, length-take l.len l.buf, v.text.0),
          inr (sym (cut_len l.len l.len l.buf v.text (omega arith))),
        );
        hist = v.hist;
        shown = (v.shown.0, inl refl);
        saved = v.saved;
        esc = v.esc;
      } in
    if_lem FedIsValid l.overflow _ _
      (λ c. record {
        text = (omega arith, inl refl);
        hist = v.hist;
        shown = (v.shown.0, inl refl);
        saved = v.saved;
        esc = v.esc;
      })
      (λ c. if_lem IsValid l.echo _ _ (λ d. hist_push-IsValid _ done) (λ d. done))

backspace-IsValid : (l : CliLine) (cap : ℕ) → IsValid l → FedIsValid (backspace l cap)
unfolding backspace FedIsValid
backspace-IsValid l cap v =
    if_lem FedIsValid (ltb 0 l.len) _ _
      (λ c. record {
        text = (
          omega (arith, length-take (l.len - 1) l.buf, v.text.0),
          inr (sym (cut_len (l.len - 1) l.len l.buf v.text (omega arith))),
        );
        hist = v.hist;
        shown = v.shown;
        saved = v.saved;
        esc = v.esc;
      })
      (λ c. v)

printable-IsValid : (l : CliLine) (b cap : ℕ) → IsValid l → FedIsValid (printable_byte l b cap)
unfolding printable_byte FedIsValid
printable-IsValid l b cap v =
    let cut = cut_len l.len l.len l.buf v.text (omega arith) in
    if_lem FedIsValid (l.len == cli_line_max - 1) _ _
      (λ c. record {
        text = v.text;
        hist = v.hist;
        shown = (v.shown.0, inl refl);
        saved = v.saved;
        esc = v.esc;
      })
      (λ c. record {
        text = (
          ground (
            arith,
            c,
            cut,
            length-append (take l.len l.buf) (b ∷ []),
            length-take l.len l.buf,
            v.text.0,
          ),
          inr (omega (arith, cut, length-append (take l.len l.buf) (b ∷ []))),
        );
        hist = v.hist;
        shown = (v.shown.0, inl refl);
        saved = v.saved;
        esc = v.esc;
      })

cleared-IsValid :
    (l : CliLine)
    → IsValid l
    → IsValid (record l { len = 0; buf = []; overflow = false; browsing = false; hist_at = 0 })
cleared-IsValid l v = record {
  text = (omega arith, inl refl);
  hist = v.hist;
  shown = (omega arith, inl refl);
  saved = v.saved;
  esc = v.esc;
}

plain_byte-IsValid :
    (l : CliLine) (was_cr : Bool) (b cap : ℕ) → IsValid l → FedIsValid (plain_byte l was_cr b cap)
unfolding plain_byte FedIsValid
plain_byte-IsValid l was_cr b cap v =
    if_lem FedIsValid (b == b'\n' && was_cr) _ _ (λ c. v)
      (λ c.
        if_lem FedIsValid (b == b'\r' || b == b'\n') _ _
          (λ d. line_end-IsValid l (b == b'\r') cap v)
          (λ d.
            if_lem FedIsValid (b == 3) _ _ (λ e. cleared-IsValid l v)
              (λ e.
                if_lem FedIsValid (b == 8 || b == 0x7f) _ _ (λ f. backspace-IsValid l cap v)
                  (λ f.
                    if_lem FedIsValid (leb 0x20 b && leb b 0x7e) _ _
                      (λ g. printable-IsValid l b cap v)
                      (λ g. with_noise l ((l.noise + 1) % 2 ^ 32) v)))))

cli_line_feed-IsValid :
    (l : CliLine) (b now_ms cap : ℕ) → IsValid l → IsValid (cli_line_feed l b now_ms cap).0
unfolding cli_line_feed feed_prepared FedIsValid
cli_line_feed-IsValid l b now_ms cap v =
    let m = prepared l now_ms in
    let w : IsValid m = prepared-IsValid l now_ms v in
    if_lem FedIsValid (m.echo && b == 0x1b) _ _ (λ c. with_esc m 1 (omega arith) w)
      (λ c.
        if_lem FedIsValid (m.echo && (m.esc == 1 || m.esc == 2)) _ _
          (λ d. in_escape-IsValid m b cap w) (λ d. plain_byte-IsValid m l.last_cr b cap w))

cli_line_take-IsValid : (l : CliLine) → IsValid l → IsValid (cli_line_take l).0
unfolding cli_line_take
cli_line_take-IsValid l v = record {
  text = (omega (arith, length-take l.len l.buf, v.text.0), inl refl);
  hist = v.hist;
  shown = (v.shown.0, inl refl);
  saved = v.saved;
  esc = v.esc;
}

replicate-IsShort : (n : ℕ) → All {A = List ℕ} (λ e. length e < cli_hist_len) (replicate n [])
replicate-IsShort zero = tt
replicate-IsShort (suc n) = (omega arith, replicate-IsShort n)

-- A call of the console: a byte with its time and the room for its echo, the taking of a line, or a
-- change of the mode
pub data Call : Type 0 where
  feed_call : ℕ → ℕ → ℕ → Call
  take_call : Call
  echo_call : Bool → Call

unfoldable pub after_calls : CliLine → List Call → CliLine
unfolding cli_line_feed cli_line_take set_echo
after_calls l [] = l
after_calls l (feed_call b now_ms cap ∷ calls) = after_calls (cli_line_feed l b now_ms cap).0 calls
after_calls l (take_call ∷ calls) = after_calls (cli_line_take l).0 calls
after_calls l (echo_call echo ∷ calls) = after_calls (set_echo l echo) calls

-- From the start and after any calls in any order, whatever the bytes, the times and the room
-- for the echo: the texts fit their arrays of 192 and 96 bytes with their terminators, the
-- length is that of the text or 0, the places in the history are within it, and an entry is
-- shown only when there is one.
pub after_calls-IsValid :
    (echo : Bool) (calls : List Call) → IsValid (after_calls (cli_line_init echo) calls)
unfolding after_calls cli_line_init set_echo
after_calls-IsValid echo calls = from (cli_line_init echo) calls (record {
  text = (omega arith, inl refl);
  hist = (refl, replicate-IsShort cli_hist_n, omega arith, omega arith);
  shown = (omega arith, inl refl);
  saved = omega arith;
  esc = omega arith;
})
  where
    from : (l : CliLine) (calls : List Call) → IsValid l → IsValid (after_calls l calls)
    from l [] v = v
    from l (feed_call b now_ms cap ∷ calls) v =
        from (cli_line_feed l b now_ms cap).0 calls (cli_line_feed-IsValid l b now_ms cap v)
    from l (take_call ∷ calls) v = from (cli_line_take l).0 calls (cli_line_take-IsValid l v)
    from l (echo_call e ∷ calls) v =
        from (set_echo l e) calls
          (record { text = v.text; hist = v.hist; shown = v.shown; saved = v.saved; esc = v.esc })
