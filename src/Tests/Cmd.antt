-- ===== src/Tests/Cmd.antt =====
-- The command line: rows like those of the firmware's tables, run on typed lines.
use hill_grov.Base.{
  All, Bool, List, [], arith, false, inr, length, none, pos, refl, replicate, some, suc, true, zero,
  ℕ, ◌+◌, ◌<◌, ◌∷◌, ◌≡◌, ◌⊎◌,
}
use hill_grov.Cmd.{
  Arg, Core, CmdEntry, Request, Session, arg_enum, arg_int, bad_args, err, locked, ok, role_zone,
  src_cli, cmd_line_max, cmd_max_tokens,
}
use hill_grov.Cmd.Args.{
  enum_index, enum_scan, index_from, mac_byte, mac_bytes, match_row, next_byte, noun2_fits,
  parse_arg_as, parse_args, parse_int_arg, parse_mac,
}
use hill_grov.Cmd.Confirm.{SameText, parse_arg-confirm}
use hill_grov.Cmd.Dispatch.{Handled, Outcome, cmd_dispatch, decide, decide_tokens, helping}
use hill_grov.Cmd.Rows.{
  arg_range, call, find_row, gate, local, reject, verb_of, word_zone, word_set,
}
use hill_grov.Cmd.Ends.{cmd_dispatch-ends}
use hill_grov.Cmd.Gates.{Permitted}
use hill_grov.Cmd.Gates.Decisions.{decide-Permitted}
use hill_grov.Cmd.Text.{
  at_colon, cmd_ci_eq, cmd_parse_time, cmd_tokenize, digits_from, magnitude, scan_tokens,
  skip_prefix, skip_spaces, strtol, time_at, whole_number,
}
use hill_grov.Cmd.Tokens.{IsWord, cmd_tokenize-join, join}
use hill_grov.Cmd.Values.{bars}
use hill_grov.Cmd.Zones.{cmd_dispatch-own_zone}

abbrev light : List ℕ
light = b'L' ∷ b'I' ∷ b'G' ∷ b'H' ∷ b'T' ∷ []

abbrev two : List ℕ
two = b'2' ∷ []

abbrev three : List ℕ
three = b'3' ∷ []

abbrev on_name : List ℕ
on_name = b'O' ∷ b'N' ∷ []

abbrev off_on : List ℕ
off_on = b'O' ∷ b'F' ∷ b'F' ∷ b'|' ∷ b'O' ∷ b'N' ∷ []

abbrev confirm : List ℕ
confirm = b'C' ∷ b'O' ∷ b'N' ∷ b'F' ∷ b'I' ∷ b'R' ∷ b'M' ∷ []

abbrev confirm_typed : List ℕ
confirm_typed = b'C' ∷ b'o' ∷ b'n' ∷ b'f' ∷ b'i' ∷ b'r' ∷ b'm' ∷ []

abbrev noon : List ℕ
noon = b'1' ∷ b'2' ∷ b':' ∷ b'0' ∷ b'5' ∷ []

abbrev mac_text : List ℕ
mac_text =
    b'0' ∷ b'a' ∷ b':' ∷ b'1' ∷ b'B' ∷ b':' ∷ b'f' ∷ b'f' ∷ b':' ∷ b'0' ∷ b'0' ∷ b':' ∷ b'7' ∷ b':'
    ∷ b'2' ∷ b'0' ∷ []

abbrev mac_good : List ℕ
mac_good =
    b'0' ∷ b'a' ∷ b':' ∷ b'1' ∷ b'B' ∷ b':' ∷ b'f' ∷ b'f' ∷ b':' ∷ b'0' ∷ b'0' ∷ b':' ∷ b'0' ∷ b'7'
    ∷ b':' ∷ b'2' ∷ b'0' ∷ []

abbrev light_args : ℕ → Arg
light_args zero = record { name = light; type = arg_int; lo = pos 1; hi = pos 4; enums = [] }
light_args (suc i) = record {
  name = on_name;
  type = arg_enum;
  lo = pos 0;
  hi = pos 0;
  enums = off_on;
}

abbrev light_row : CmdEntry
light_row = record {
  verbs = 3;
  area = 6;
  noun1 = light;
  noun2 = none;
  args = light_args;
  n_key = 1;
  min_args = 2;
  max_args = 2;
  flags = 3;
}

abbrev confirm_arg : Arg
confirm_arg = record { name = confirm; type = arg_enum; lo = pos 0; hi = pos 0; enums = confirm }

abbrev zone_core : Core
zone_core = record {
  table = light_row ∷ [];
  role = role_zone;
  zone_id = 3;
  has_forward = false;
  has_audit = true;
}

abbrev open_session : Session
open_session = record { source = src_cli; echo = 1; notify_mask = 0; unlock_until_ms = 5000 }

abbrev short_line : List ℕ
short_line = join word_set (light ∷ two ∷ on_name ∷ [])

abbrev light_request : Request
light_request = record {
  verb = 1;
  tok = two ∷ on_name ∷ [];
  val = pos 2 ∷ pos 1 ∷ [];
  mac = replicate 6 0;
}

-- The set line reaches the row; from the deadline on the session is locked.
set_runs :
    decide 6 zone_core open_session 4999 short_line
    ≡ some (short_line, call light_row light_request)
unfolding decide decide_tokens cmd_tokenize scan_tokens join cmd_ci_eq helping local verb_of
    find_row match_row noun2_fits gate arg_range parse_args parse_arg_as parse_int_arg enum_index
    enum_scan index_from strtol skip_spaces skip_prefix magnitude digits_from
set_runs = refl

set_locked : decide 6 zone_core open_session 5000 short_line ≡ some (short_line, reject locked)
unfolding decide decide_tokens cmd_tokenize scan_tokens join cmd_ci_eq helping local verb_of
    find_row match_row noun2_fits gate arg_range parse_args parse_arg_as parse_int_arg enum_index
    enum_scan index_from strtol skip_spaces skip_prefix magnitude digits_from
set_locked = refl

time_run : cmd_parse_time noon ≡ some 725
unfolding cmd_parse_time time_at at_colon whole_number strtol skip_spaces skip_prefix magnitude
    digits_from
time_run = refl

mac_runs : parse_mac mac_good ≡ some (10 ∷ 27 ∷ 255 ∷ 0 ∷ 7 ∷ 32 ∷ [])
unfolding parse_mac mac_bytes mac_byte next_byte strtol skip_spaces skip_prefix magnitude
    digits_from
mac_runs = refl

mac_refused : parse_mac mac_text ≡ none
unfolding parse_mac mac_bytes mac_byte next_byte strtol skip_spaces skip_prefix magnitude
    digits_from
mac_refused = refl

decide-Permitted_example : Permitted zone_core open_session 4999 (call light_row light_request)
decide-Permitted_example =
    decide-Permitted 6 zone_core open_session 4999 short_line short_line
      (call light_row light_request) set_runs

-- A handler that counts its calls
abbrev counted : CmdEntry → Request → Session → ℕ → Handled ℕ
counted e q s w = record { rc = true; resp = b'O' ∷ b'K' ∷ []; ses = s; world = w + 1 }

abbrev nowhere : ℕ → List ℕ → ℕ → Bool × List ℕ × ℕ
nowhere id line w = (false, [], w)

abbrev no_help : List (List ℕ) → ℕ → Bool × List ℕ × ℕ
no_help toks w = (true, b'+' ∷ [], w)

cmd_dispatch-ends_example :
    (o : Outcome ℕ) × (cmd_dispatch counted nowhere no_help zone_core open_session 4999 4999 4999 7
        short_line
      ≡ some o)
cmd_dispatch-ends_example =
    cmd_dispatch-ends counted nowhere no_help zone_core open_session 4999 4999 4999 7 short_line

abbrev zone_words : List (List ℕ)
zone_words = word_zone ∷ three ∷ light ∷ two ∷ on_name ∷ []

words-IsWord : All IsWord (word_set ∷ zone_words)
words-IsWord = (
  (omega arith, (refl, (refl, (refl, tt)))),
  (
    (omega arith, (refl, (refl, (refl, (refl, tt))))),
    (
      (omega arith, (refl, tt)),
      (
        (omega arith, (refl, (refl, (refl, (refl, (refl, tt)))))),
        ((omega arith, (refl, tt)), ((omega arith, (refl, (refl, tt))), tt)),
      ),
    ),
  ),
)

three_read : parse_int_arg three ≡ some (pos 3)
unfolding parse_int_arg strtol skip_spaces skip_prefix magnitude digits_from
three_read = refl

zone_read : cmd_ci_eq word_zone word_zone ≡ true
unfolding cmd_ci_eq
zone_read = refl

line_fits : length (join word_set zone_words) < cmd_line_max
unfolding join
line_fits = omega arith

cmd_dispatch-own_zone_example :
    cmd_dispatch counted nowhere no_help zone_core open_session 4999 4999 4999 7
      (join word_set zone_words)
    ≡ cmd_dispatch counted nowhere no_help zone_core open_session 4999 4999 4999 7 short_line
cmd_dispatch-own_zone_example =
    cmd_dispatch-own_zone counted nowhere no_help zone_core open_session 4999 4999 4999 3 7 word_set
      word_zone three light (two ∷ on_name ∷ []) (inr (refl, refl, omega arith)) three_read
      zone_read words-IsWord (omega arith) line_fits

cmd_tokenize-join_example :
    cmd_tokenize (join word_set zone_words) cmd_max_tokens ≡ some (word_set ∷ zone_words)
cmd_tokenize-join_example =
    cmd_tokenize-join word_set zone_words cmd_max_tokens words-IsWord (omega arith)

confirm_plain : bars confirm ≡ 0
unfolding bars
confirm_plain = refl

parse_arg-confirm_example :
    (SameText confirm (b'0' ∷ [])
      × (parse_arg_as arg_enum confirm_arg (b'0' ∷ []) ≡ ok (pos 0, none)))
    ⊎ (¬ SameText confirm (b'0' ∷ [])
        × (parse_arg_as arg_enum confirm_arg (b'0' ∷ []) ≡ err bad_args))
parse_arg-confirm_example =
    parse_arg-confirm confirm_arg (b'0' ∷ []) (omega arith) (omega arith) confirm_plain

-- The zero is refused and the name taken, whatever its case.
confirm_runs :
    (parse_arg_as arg_enum confirm_arg (b'0' ∷ []) ≡ err bad_args)
    × (parse_arg_as arg_enum confirm_arg confirm_typed ≡ ok (pos 0, none))
unfolding parse_arg_as enum_index enum_scan index_from parse_int_arg strtol skip_spaces skip_prefix
    magnitude digits_from cmd_ci_eq
confirm_runs = (refl, refl)
