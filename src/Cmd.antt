-- ===== src/Cmd.antt =====
-- components/cmd_core: the command line's grammar. The types of cmd_core.h; the children hold
-- cmd_tok.c (Text) and cmd_dispatch.c (Args, Rows, Dispatch), with their theorems.
pub mod Text
pub mod Tokens
pub mod Args
pub mod Rows
pub mod Dispatch
pub mod Values
pub mod Gates
pub mod Zones
pub mod Confirm
pub mod Ends
use hill_grov.Base.{Bool, List, Option, ℕ, ℤ}

-- `CMD_LINE_MAX`
abbrev pub cmd_line_max : ℕ
cmd_line_max = 192

-- `CMD_MAX_TOKENS`
abbrev pub cmd_max_tokens : ℕ
cmd_max_tokens = 12

-- `CMD_UNLOCK_MS`
abbrev pub cmd_unlock_ms : ℕ
cmd_unlock_ms = 600000

-- `cmd_src_t`
pub data Source : Type 0 where
  src_cli src_http src_ring src_internal : Source

-- `cmd_arg_type_t`; `arg_other` is any other number in the type's byte.
pub data ArgType : Type 0 where
  arg_int arg_enum arg_str arg_time arg_mac arg_other : ArgType

-- `cmd_arg_t`
pub record Arg : Type 0 where
  pub name : List ℕ
  pub type : ArgType
  pub lo : ℤ
  pub hi : ℤ
  pub enums : List ℕ

-- `CMD_ROLE_MASTER` and `CMD_ROLE_ZONE`
pub data Role : Type 0 where
  role_master role_zone : Role

-- `cmd_session_t`
pub record Session : Type 0 where
  pub source : Source
  pub echo : ℕ
  pub notify_mask : ℕ
  pub unlock_until_ms : ℕ

-- `cmd_entry_t`, without the handler, which the dispatcher takes as a function of the row. `args` is a
-- pointer: the description that stands at a place from it on, of which `max_args` are the row's.
pub record CmdEntry : Type 0 where
  pub verbs : ℕ
  pub area : ℕ
  pub noun1 : List ℕ
  pub noun2 : Option (List ℕ)
  pub args : ℕ → Arg
  pub n_key : ℕ
  pub min_args : ℕ
  pub max_args : ℕ
  pub flags : ℕ

-- `cmd_core_t`: what the dispatcher reads of it; the two hooks may be absent.
pub record Core : Type 0 where
  pub table : List CmdEntry
  pub role : Role
  pub zone_id : ℕ
  pub has_forward : Bool
  pub has_audit : Bool

-- `cmd_req_t`
pub record Request : Type 0 where
  pub verb : ℕ
  pub tok : List (List ℕ)
  pub val : List ℤ
  pub mac : List ℕ

-- The token of an `ERR` reply of the dispatcher
pub data Err : Type 0 where
  too_long bad_args empty out_of_range zone_unknown wrong_zone : Err
  unknown_cmd master_only zone_only not_local locked internal : Err

-- An answer of the dispatcher's steps, or the error that it replies at once
pub data Result {ℓ} (A : Type ℓ) : Type ℓ where
  err : Err → Result A
  ok : A → Result A
