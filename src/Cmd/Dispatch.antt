-- ===== src/Cmd/Dispatch.antt =====
-- components/cmd_core/cmd_dispatch.c: `cmd_dispatch`. `decide` is its way to a reply, to a forward, to
-- the help or to a handler; `cmd_dispatch` carries that out with the hooks and handlers it is given.
use hill_grov.Base.{
  Bool, List, Option, [], false, if◌then◌else◌, leb, length, ltb, negsuc, none, not, pos, some, suc,
  true, zero, ℕ, ℤ, ◌%◌, ◌&&◌, ◌++◌, ◌+◌, ◌==◌, ◌>>=◌, ◌^◌, ◌∷◌,
}
use hill_grov.Cmd.Rows.{
  Action, is_master, local, verb_set, word_help, word_zone, reject, forward, help, call,
}
use hill_grov.Cmd.{
  Core, CmdEntry, Err, Request, Session, Source, cmd_line_max, cmd_max_tokens, cmd_unlock_ms,
  bad_args, empty, internal, locked, master_only, not_local, out_of_range, too_long, unknown_cmd,
  wrong_zone, zone_only, zone_unknown,
}
use hill_grov.Cmd.Args.{has, parse_int_arg}
use hill_grov.Cmd.Text.{cmd_ci_eq, cmd_tokenize}
use hill_grov.Cmd.Tokens.{join}

-- Is the last of the tokens HELP, and which are before it
unfoldable pub helping : List (List ℕ) → Option (List (List ℕ))
helping [] = none
helping (t ∷ []) = if cmd_ci_eq t word_help then some [] else none
helping (t ∷ u ∷ toks) = elim (helping (u ∷ toks)) [ none ↦ none | some before ↦ some (t ∷ before) ]

-- What becomes of a zone's address: an error, the ring, or the line without it
pub data Address : Type 0 where
  refused : Err → Address
  remote : ℕ → Address
  here : Address

unfoldable pub address : Core → Option ℤ → Bool → Address
address core none more = refused bad_args
address core (some (negsuc z)) more = refused out_of_range
address core (some (pos z)) more =
    if ltb 8 z
    then refused out_of_range
    else if not more
    then refused bad_args
    else if z == 0
    then here
    else if is_master core.role
    then (if core.has_forward then remote z else refused zone_unknown)
    else if z == core.zone_id
    then here
    else refused wrong_zone

abbrev pub some_left : List (List ℕ) → Bool
some_left [] = false
some_left (t ∷ toks) = true

-- A line and what becomes of it: the line of the handler is the one without the address.
abbrev pub Decision : Type 0
Decision = Option (List ℕ × Action)

abbrev pub plain : Core → Session → ℕ → List ℕ → List (List ℕ) → Action
plain core ses now v rest = elim (helping (v ∷ rest)) [
  | some toks ↦ help toks
  | none ↦ local core ses now v rest
]

abbrev pub sent : Address → List ℕ → List ℕ → (List ℕ → Decision) → Decision
sent (refused x) line tail again = some (line, reject x)
sent (remote id) line tail again = some (line, forward id tail)
sent here line tail again = again tail

-- The body of `cmd_dispatch` on the tokens, with its call of itself as `again`
unfoldable pub decide_tokens :
    Core → Session → ℕ → (List ℕ → Decision) → List ℕ → List (List ℕ) → Decision
decide_tokens core ses now again line [] = some (line, reject empty)
decide_tokens core ses now again line (v ∷ []) = some (line, plain core ses now v [])
decide_tokens core ses now again line (v ∷ w ∷ []) = some (line, plain core ses now v (w ∷ []))
decide_tokens core ses now again line (v ∷ w ∷ z ∷ tail) = elim (cmd_ci_eq w word_zone) [
  | true ↦ sent (address core (parse_int_arg z) (some_left tail)) line (join v tail) again
  | false ↦ some (line, plain core ses now v (w ∷ z ∷ tail))
]

abbrev pub tokens_or :
    Core → Session → ℕ → (List ℕ → Decision) → List ℕ → Option (List (List ℕ)) → Decision
tokens_or core ses now again line none = some (line, reject bad_args)
tokens_or core ses now again line (some toks) = decide_tokens core ses now again line toks

-- The decision on a line; each zone address takes one step of the fuel.
unfoldable pub decide : ℕ → Core → Session → ℕ → List ℕ → Decision
decide zero core ses now line = none
decide (suc fuel) core ses now line = elim (leb cmd_line_max (length line)) [
  | true ↦ some (line, reject too_long)
  | false ↦
      tokens_or core ses now (λ tail. decide fuel core ses now tail) line
        (cmd_tokenize line cmd_max_tokens)
]

-- A line of 12 tokens has at most 5 addresses.
abbrev pub decide_fuel : ℕ
decide_fuel = 6

-- The handler's part of the work: its result, its reply, and what it leaves of the session and of the
-- rest of the system.
pub record Handled (W : Type 0) : Type 0 where
  pub rc : Bool
  pub resp : List ℕ
  pub ses : Session
  pub world : W

-- What `cmd_dispatch` leaves: as the handler, and the line that it reports to the audit
pub record Outcome (W : Type 0) : Type 0 where
  pub rc : Bool
  pub resp : List ℕ
  pub ses : Session
  pub world : W
  pub audited : Option (Source × List ℕ)

-- The text of an error's token
unfoldable pub err_text : Err → List ℕ
err_text too_long = b'T' ∷ b'O' ∷ b'O' ∷ b'_' ∷ b'L' ∷ b'O' ∷ b'N' ∷ b'G' ∷ []
err_text bad_args = b'B' ∷ b'A' ∷ b'D' ∷ b'_' ∷ b'A' ∷ b'R' ∷ b'G' ∷ b'S' ∷ []
err_text empty = b'E' ∷ b'M' ∷ b'P' ∷ b'T' ∷ b'Y' ∷ []
err_text out_of_range =
    b'O' ∷ b'U' ∷ b'T' ∷ b'_' ∷ b'O' ∷ b'F' ∷ b'_' ∷ b'R' ∷ b'A' ∷ b'N' ∷ b'G' ∷ b'E' ∷ []
err_text zone_unknown =
    b'Z' ∷ b'O' ∷ b'N' ∷ b'E' ∷ b'_' ∷ b'U' ∷ b'N' ∷ b'K' ∷ b'N' ∷ b'O' ∷ b'W' ∷ b'N' ∷ []
err_text wrong_zone = b'W' ∷ b'R' ∷ b'O' ∷ b'N' ∷ b'G' ∷ b'_' ∷ b'Z' ∷ b'O' ∷ b'N' ∷ b'E' ∷ []
err_text unknown_cmd =
    b'U' ∷ b'N' ∷ b'K' ∷ b'N' ∷ b'O' ∷ b'W' ∷ b'N' ∷ b'_' ∷ b'C' ∷ b'M' ∷ b'D' ∷ []
err_text master_only =
    b'M' ∷ b'A' ∷ b'S' ∷ b'T' ∷ b'E' ∷ b'R' ∷ b'_' ∷ b'O' ∷ b'N' ∷ b'L' ∷ b'Y' ∷ []
err_text zone_only = b'Z' ∷ b'O' ∷ b'N' ∷ b'E' ∷ b'_' ∷ b'O' ∷ b'N' ∷ b'L' ∷ b'Y' ∷ []
err_text not_local = b'N' ∷ b'O' ∷ b'T' ∷ b'_' ∷ b'L' ∷ b'O' ∷ b'C' ∷ b'A' ∷ b'L' ∷ []
err_text locked = b'L' ∷ b'O' ∷ b'C' ∷ b'K' ∷ b'E' ∷ b'D' ∷ []
err_text internal = b'I' ∷ b'N' ∷ b'T' ∷ b'E' ∷ b'R' ∷ b'N' ∷ b'A' ∷ b'L' ∷ []

-- `cmd_err`: `ERR `, the token and the end of the line
unfoldable pub cmd_err : Err → List ℕ
cmd_err x = b'E' ∷ b'R' ∷ b'R' ∷ b' ' ∷ (err_text x ++ b'\n' ∷ [])

abbrev is_silent : List ℕ → Bool
is_silent [] = true
is_silent (c ∷ resp) = false

-- `cmd_dispatch` on a line decided upon. The handlers, the hook to the ring and the help are
-- arguments; the clock is read for the gate (`now`), after the handler (`done`) and to renew the unlock
-- (`again`).
module _ {W : Type 0} (handler : CmdEntry → Request → Session → W → Handled W)
    (forward_to : ℕ → List ℕ → W → Bool × List ℕ × W)
    (cmd_help : List (List ℕ) → W → Bool × List ℕ × W) where
  abbrev failed : Err → Session → W → Outcome W
  failed x ses w = record { rc = false; resp = cmd_err x; ses = ses; world = w; audited = none }

  abbrev passed_on : Session → Bool × List ℕ × W → Outcome W
  passed_on ses (rc, resp, w) = record {
    rc = rc;
    resp = resp;
    ses = ses;
    world = w;
    audited = none;
  }

  -- An unlock that has not run out by then starts over.
  abbrev renewed : ℕ → ℕ → Session → Session
  renewed done again ses =
      if ltb done ses.unlock_until_ms
      then record ses { unlock_until_ms = (again + cmd_unlock_ms) % 2 ^ 32 }
      else ses

  abbrev answered : Core → ℕ → ℕ → List ℕ → CmdEntry → ℕ → Handled W → Outcome W
  answered core done again line e verb h = elim (is_silent h.resp) [
    | true ↦ record {
      rc = false;
      resp = cmd_err internal;
      ses = h.ses;
      world = h.world;
      audited = none;
    }
    | false ↦ record {
      rc = h.rc;
      resp = h.resp;
      ses = renewed done again h.ses;
      world = h.world;
      audited =
          if h.rc && (has e.flags 1 && (verb == verb_set && core.has_audit))
          then some (h.ses.source, line)
          else none;
    }
  ]

  unfoldable pub carry_out : Core → Session → ℕ → ℕ → W → List ℕ × Action → Outcome W
  unfolding cmd_err
  carry_out core ses done again w (line, reject x) = failed x ses w
  carry_out core ses done again w (line, forward id tail) = passed_on ses (forward_to id tail w)
  carry_out core ses done again w (line, help toks) = passed_on ses (cmd_help toks w)
  carry_out core ses done again w (line, call e q) =
      answered core done again line e q.verb (handler e q ses w)

  -- `cmd_dispatch`; `none` when the fuel runs out, which it does not
  unfoldable pub cmd_dispatch : Core → Session → ℕ → ℕ → ℕ → W → List ℕ → Option (Outcome W)
  unfolding decide carry_out
  cmd_dispatch core ses now done again w line = do
    d ← decide decide_fuel core ses now line
    some (carry_out core ses done again w d)
