-- ===== src/Cmd/Rows.antt =====
-- components/cmd_core/cmd_dispatch.c: the row of a line without an address, its gates, and the request
-- that its handler gets.
use hill_grov.Base.{
  Bool, List, Option, [], false, if◌then◌else◌, leb, length, none, not, replicate, some, suc, true,
  zero, ℕ, ℤ, ◌&&◌, ◌==◌, ◌∷◌,
}
use hill_grov.Cmd.{
  Core, CmdEntry, Err, Request, Result, Session, Source, bad_args, err, locked, master_only,
  not_local, ok, role_master, role_zone, src_http, unknown_cmd, zone_only, Role,
}
use hill_grov.Cmd.Args.{has, match_row, parse_args}
use hill_grov.Cmd.Text.{cmd_ci_eq}

-- What the dispatcher does with a line, before the handler answers
pub data Action : Type 0 where
  reject : Err → Action
  forward : ℕ → List ℕ → Action
  help : List (List ℕ) → Action
  call : CmdEntry → Request → Action

abbrev pub verb_set : ℕ
verb_set = 1

abbrev pub verb_get : ℕ
verb_get = 2

abbrev pub verb_bare : ℕ
verb_bare = 4

abbrev pub word_set : List ℕ
word_set = b'S' ∷ b'E' ∷ b'T' ∷ []

abbrev pub word_get : List ℕ
word_get = b'G' ∷ b'E' ∷ b'T' ∷ []

abbrev pub word_zone : List ℕ
word_zone = b'Z' ∷ b'O' ∷ b'N' ∷ b'E' ∷ []

abbrev pub word_help : List ℕ
word_help = b'H' ∷ b'E' ∷ b'L' ∷ b'P' ∷ []

-- `vbit` and `noun0`
unfoldable pub verb_of : List ℕ → ℕ × ℕ
verb_of first =
    if cmd_ci_eq first word_set
    then (verb_set, 1)
    else if cmd_ci_eq first word_get
    then (verb_get, 1)
    else (verb_bare, 0)

abbrev pub Found : Type 0
Found = Option (CmdEntry × List (List ℕ))

-- The first of two rows that is found, with its arguments
abbrev pub or_else : Option CmdEntry → List (List ℕ) → Found → Found
or_else none args other = other
or_else (some e) args other = some (e, args)

abbrev pub single : List CmdEntry → ℕ → List ℕ → List (List ℕ) → Found
single table vbit n1 rest = or_else (match_row table vbit n1 none) rest none

-- Two nouns with one argument between them
abbrev pub split : List CmdEntry → ℕ → List ℕ → List (List ℕ) → Found
split table vbit n1 [] = single table vbit n1 []
split table vbit n1 (arg ∷ []) = single table vbit n1 (arg ∷ [])
split table vbit n1 (arg ∷ n2 ∷ after) =
    or_else (match_row table vbit n1 (some n2)) (arg ∷ after)
      (single table vbit n1 (arg ∷ n2 ∷ after))

-- The row and the tokens of its arguments, for the tokens from the noun on: two nouns side by side,
-- two with one argument between them, or one.
unfoldable pub find_row : List CmdEntry → ℕ → List (List ℕ) → Found
find_row table vbit [] = none
find_row table vbit (n1 ∷ []) = single table vbit n1 []
find_row table vbit (n1 ∷ n2 ∷ after) =
    or_else (match_row table vbit n1 (some n2)) after (split table vbit n1 (n2 ∷ after))

abbrev pub is_master : Role → Bool
is_master role_master = true
is_master role_zone = false

abbrev pub is_http : Source → Bool
is_http src_http = true
is_http s = false

-- The gates of a row's flags
unfoldable pub gate : Core → Session → ℕ → CmdEntry → Option Err
gate core ses now e =
    if has e.flags 4 && not (is_master core.role)
    then some master_only
    else if has e.flags 8 && is_master core.role
    then some zone_only
    else if has e.flags 16 && is_http ses.source
    then some not_local
    else if has e.flags 2 && leb ses.unlock_until_ms now
    then some locked
    else none

-- The least and the greatest number of arguments of a row under a verb
unfoldable pub arg_range : ℕ → CmdEntry → ℕ × ℕ
arg_range vbit e = if vbit == verb_get then (e.n_key, e.n_key) else (e.min_args, e.max_args)

-- The handler's request from the values, or the error in them
abbrev pub request : ℕ → CmdEntry → List (List ℕ) → Result (List ℤ × List ℕ) → Action
request vbit e args (err x) = reject x
request vbit e args (ok (vals, mac)) =
    call e (record { verb = vbit; tok = args; val = vals; mac = mac })

-- The number of arguments is one that the row takes.
abbrev pub is_count : ℕ → CmdEntry → ℕ → Bool
is_count vbit e n = leb (arg_range vbit e).0 n && leb n (arg_range vbit e).1

abbrev pub gated : Option Err → ℕ → CmdEntry → List (List ℕ) → Action
gated (some x) vbit e args = reject x
gated none vbit e args = elim (is_count vbit e (length args)) [
  | true ↦ request vbit e args (parse_args e.args args (replicate 6 0))
  | false ↦ reject bad_args
]

-- From the row on: the gates, the number of arguments and their values
abbrev pub run_row : Core → Session → ℕ → ℕ → Found → Action
run_row core ses now vbit none = reject unknown_cmd
run_row core ses now vbit (some (e, args)) = gated (gate core ses now e) vbit e args

-- The tokens from `noun0` on
abbrev pub from_noun : ℕ → List ℕ → List (List ℕ) → List (List ℕ)
from_noun zero first rest = first ∷ rest
from_noun (suc n) first rest = rest

-- The row of a line without an address
unfoldable pub local : Core → Session → ℕ → List ℕ → List (List ℕ) → Action
local core ses now first rest =
    let v : ℕ × ℕ = verb_of first in
    run_row core ses now v.0 (find_row core.table v.0 (from_noun v.1 first rest))
