-- ===== src/WebAuth.antt =====
-- components/web_auth/web_auth.c: the sessions of the web interface. SHA-256 and the random bytes come
-- from outside; they are arguments.
pub mod Header
pub mod Restart
pub mod Cookie
pub mod Lockout
pub mod Granted
pub mod Kept
use hill_grov.Base.{
  Bool, List, Option, [], bit_or, bit_xor, drop, false, get_or, if◌then◌else◌, leb, length, ltb,
  min, none, not, replicate, set, some, suc, take, true, zero, ℕ, ◌%◌, ◌++◌, ◌+◌, ◌/◌, ◌==◌, ◌^◌,
  ◌||◌, ◌∷◌,
}

-- `WA_SESSIONS`
abbrev pub wa_sessions : ℕ
wa_sessions = 4

-- `WA_TOKEN_LEN`
abbrev pub wa_token_len : ℕ
wa_token_len = 16

-- `WA_TTL_S`
abbrev pub wa_ttl_s : ℕ
wa_ttl_s = 2592000

-- `WA_LOCK_FAILS`
abbrev pub wa_lock_fails : ℕ
wa_lock_fails = 5

-- `WA_LOCK_S`
abbrev pub wa_lock_s : ℕ
wa_lock_s = 60

-- `WA_PW_MIN`
abbrev pub wa_pw_min : ℕ
wa_pw_min = 8

-- `WA_PW_MAX`
abbrev pub wa_pw_max : ℕ
wa_pw_max = 63

-- `wa_session_t`
pub record WaSession : Type 0 where
  pub token : List ℕ
  pub expires_s : ℕ
  pub used : Bool
  pub seq : ℕ

-- `wa_state_t`, without the two functions
pub record WaState : Type 0 where
  pub s : List WaSession
  pub fails : ℕ
  pub lock_until_s : ℕ
  pub next_seq : ℕ

-- What is read of `hg_mcfg_t`: the flag of the default password, the salt and the hash
pub record Mcfg : Type 0 where
  pub web_default : Bool
  pub web_salt : List ℕ
  pub web_hash : List ℕ

abbrev pub no_session : WaSession
no_session = record { token = replicate wa_token_len 0; expires_s = 0; used = false; seq = 0 }

-- `web_auth_init`
unfoldable pub web_auth_init : WaState
web_auth_init = record {
  s = replicate wa_sessions no_session;
  fails = 0;
  lock_until_s = 0;
  next_seq = 1;
}

-- The loop of `ct_eq` and `ct_eq_str`: every difference so far, in `d`
unfoldable pub ct_loop : ℕ → ℕ → List ℕ → List ℕ → ℕ
ct_loop zero d a b = d
ct_loop (suc n) d a b =
    ct_loop n (bit_or d (bit_xor (get_or a 0 0) (get_or b 0 0))) (drop 1 a) (drop 1 b)

-- `ct_eq`
unfoldable pub ct_eq : List ℕ → List ℕ → ℕ → Bool
unfolding ct_loop
ct_eq a b n = ct_loop n 0 a b == 0

-- `WA_PWBUF`
abbrev pub wa_pwbuf : ℕ
wa_pwbuf = wa_pw_max + 1

-- `pad_str_ct`: the text cut at 64 bytes and filled up with zeros, and its length
unfoldable pub pad_str_ct : List ℕ → List ℕ × ℕ
pad_str_ct s = (take wa_pwbuf (s ++ replicate wa_pwbuf 0), min wa_pwbuf (length s))

-- `ct_eq_str`; the lengths are below 256.
unfoldable pub ct_eq_str : List ℕ → List ℕ → Bool
unfolding ct_loop pad_str_ct
ct_eq_str a b =
    ct_loop wa_pwbuf (bit_xor (pad_str_ct a).1 (pad_str_ct b).1) (pad_str_ct a).0 (pad_str_ct b).0
    == 0

-- hillgrow1
abbrev pub default_password : List ℕ
default_password = b'h' ∷ b'i' ∷ b'l' ∷ b'l' ∷ b'g' ∷ b'r' ∷ b'o' ∷ b'w' ∷ b'1' ∷ []

-- A session is free when it is not used or has run out.
abbrev pub is_free : ℕ → WaSession → Bool
is_free now_s x = not x.used || (x.expires_s == 0 || leb x.expires_s now_s)

-- The first free place from `i` on
unfoldable pub free_from : ℕ → ℕ → List WaSession → Option ℕ
free_from now_s i [] = none
free_from now_s i (x ∷ xs) = elim (is_free now_s x) [
  | true ↦ some i
  | false ↦ free_from now_s (suc i) xs
]

-- The place of the least `seq`, `best` and `oldest` being the least before place `i`
unfoldable pub oldest_from : ℕ → ℕ → ℕ → List WaSession → ℕ
oldest_from best oldest i [] = best
oldest_from best oldest i (x ∷ xs) = elim (ltb x.seq oldest) [
  | true ↦ oldest_from i x.seq (suc i) xs
  | false ↦ oldest_from best oldest (suc i) xs
]

-- The place that a new session takes
unfoldable pub slot_for : ℕ → List WaSession → ℕ
unfolding free_from oldest_from
slot_for now_s [] = 0
slot_for now_s (x ∷ xs) = elim (free_from now_s 0 (x ∷ xs)) [
  | some i ↦ i
  | none ↦ oldest_from 0 x.seq 1 xs
]

-- The results of `web_auth_login`: 0 with the cookie, -1 and -2
pub data Login : Type 0 where
  granted : List ℕ → Login
  wrong lock : Login

-- One failure more
abbrev pub login_failed : WaState → ℕ → WaState
login_failed st now_s =
    let fails = if ltb st.fails 0xff then st.fails + 1 else st.fails in
    record st {
      fails = fails;
      lock_until_s =
          if leb wa_lock_fails fails then (now_s + wa_lock_s) % 2 ^ 32 else st.lock_until_s;
    }

abbrev pub new_session : WaState → ℕ → List ℕ → WaSession
new_session st now_s fresh = record {
  token = fresh;
  expires_s = (now_s + wa_ttl_s) % 2 ^ 32;
  used = true;
  seq = st.next_seq;
}

-- The state with a new session
abbrev pub opened : WaState → ℕ → List ℕ → WaState
opened st now_s fresh = record st {
  fails = 0;
  s = set st.s (slot_for now_s st.s) (new_session st now_s fresh);
  next_seq = (st.next_seq + 1) % 2 ^ 32;
}

-- `hex_encode`
abbrev pub hex_digit : ℕ → ℕ
hex_digit n =
    get_or
      (b'0' ∷ b'1' ∷ b'2' ∷ b'3' ∷ b'4' ∷ b'5' ∷ b'6' ∷ b'7' ∷ b'8' ∷ b'9' ∷ b'a' ∷ b'b' ∷ b'c'
        ∷ b'd' ∷ b'e' ∷ b'f' ∷ [])
      n 0

unfoldable pub hex_encode : List ℕ → List ℕ
hex_encode [] = []
hex_encode (b ∷ bytes) = hex_digit (b / 16) ∷ hex_digit (b % 16) ∷ hex_encode bytes

-- The functions with SHA-256 (of a text) and the random bytes that are drawn
module _ (sha : List ℕ → List ℕ) where
  -- `pw_matches`
  unfoldable pub pw_matches : Mcfg → List ℕ → Bool
  unfolding ct_eq ct_eq_str
  pw_matches m pw =
      if m.web_default
      then ct_eq_str pw default_password
      else ct_eq (sha (m.web_salt ++ take wa_pwbuf pw)) m.web_hash 32

  -- `web_auth_verify`
  unfoldable pub web_auth_verify : Mcfg → List ℕ → Bool
  unfolding pw_matches
  web_auth_verify m pw = pw_matches m pw

  -- `web_auth_set_password`; `none` is its -1
  unfoldable pub web_auth_set_password : Mcfg → List ℕ → List ℕ → Option Mcfg
  web_auth_set_password m pw salt =
      if ltb (length pw) wa_pw_min || ltb wa_pw_max (length pw)
      then none
      else some (record { web_default = false; web_salt = salt; web_hash = sha (salt ++ pw) })

  -- `web_auth_login`
  unfoldable pub web_auth_login : WaState → Mcfg → List ℕ → ℕ → List ℕ → WaState × Login
  unfolding pw_matches slot_for hex_encode
  web_auth_login st m pw now_s fresh =
      if ltb now_s st.lock_until_s
      then (st, lock)
      else if pw_matches m pw
      then (opened st now_s fresh, granted (hex_encode fresh))
      else (login_failed st now_s, wrong)
