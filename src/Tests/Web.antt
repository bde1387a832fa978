-- ===== src/Tests/Web.antt =====
-- The web sessions: a login with the default password, five wrong guesses, and a restart.
use hill_grov.Base.{
  All, Byte, List, [], arith, false, length, ltb, refl, replicate, some, suc, take, true, zero, ℕ,
  ◌%◌, ◌++◌, ◌+◌, ◌<◌, ◌^◌, ◌∷◌, ◌≡◌,
}
use hill_grov.WebAuth.{
  Login, Mcfg, WaState, ct_eq, ct_eq_str, ct_loop, default_password, free_from, granted, hex_encode,
  lock, pad_str_ct, pw_matches, slot_for, wa_ttl_s, web_auth_init, web_auth_login,
  web_auth_set_password,
}
use hill_grov.WebAuth.Restart.{session_bytes, web_auth_pack, web_auth_unpack}
use hill_grov.WebAuth.Header.{cookie_name, web_auth_check, web_auth_logout}
use hill_grov.WebAuth.Granted.{IsNew, login-check}
use hill_grov.WebAuth.Kept.{IsSession, after_restart, unpack-pack}
use hill_grov.WebAuth.Lockout.{AllWrong, Try, after_tries, five_wrong}

-- In place of SHA-256 a function that is simple to follow: the first 32 bytes of the text
abbrev first_bytes : List ℕ → List ℕ
first_bytes text = take 32 (text ++ replicate 32 0)

abbrev by_default : Mcfg
by_default = record { web_default = true; web_salt = []; web_hash = [] }

abbrev drawn : List ℕ
drawn = 0xa0 ∷ 1 ∷ 0x2f ∷ replicate 13 7

abbrev after_login : WaState × Login
after_login = web_auth_login first_bytes web_auth_init by_default default_password 1000 drawn

login_run : after_login.1 ≡ granted (hex_encode drawn)
unfolding web_auth_login web_auth_init pw_matches ct_eq_str ct_loop pad_str_ct slot_for free_from
login_run = refl

init_lem : (length web_auth_init.s ≡ 4) × IsNew drawn web_auth_init.s
unfolding web_auth_init
init_lem = (refl, (refl, (refl, (refl, (refl, tt)))))

replicate-Byte : (n b : ℕ) → b < 256 → All Byte (replicate n b)
replicate-Byte zero b h = tt
replicate-Byte (suc n) b h = (h, replicate-Byte n b h)

drawn-Byte : All Byte drawn
drawn-Byte = (omega arith, (omega arith, (omega arith, replicate-Byte 13 7 (omega arith))))

login-check_example :
    (web_auth_check after_login.0 (cookie_name ++ hex_encode drawn) 2592999
      ≡ ltb 2592999 ((1000 + wa_ttl_s) % 2 ^ 32))
    × (web_auth_check
          (web_auth_logout after_login.0 (cookie_name ++ hex_encode drawn))
          (cookie_name ++ hex_encode drawn)
          2592999
        ≡ false)
login-check_example =
    login-check first_bytes web_auth_init by_default default_password 1000 2592999 drawn
      (hex_encode drawn) init_lem.0 refl drawn-Byte init_lem.1 login_run

-- A salted password, and a wrong guess of it
abbrev salted : Mcfg
salted = record {
  web_default = false;
  web_salt = replicate 16 9;
  web_hash = first_bytes (replicate 16 9 ++ default_password);
}

set_run :
    web_auth_set_password first_bytes by_default default_password (replicate 16 9) ≡ some salted
unfolding web_auth_set_password
set_run = refl

abbrev guess : Try
guess = (b'g' ∷ b'u' ∷ b'e' ∷ b's' ∷ b's' ∷ [], 1000, drawn)

abbrev four_guesses : List Try
four_guesses = guess ∷ guess ∷ guess ∷ guess ∷ []

guesses-AllWrong : AllWrong first_bytes salted web_auth_init (four_guesses ++ guess ∷ [])
unfolding AllWrong web_auth_login pw_matches ct_eq ct_loop web_auth_init slot_for free_from
guesses-AllWrong = (refl, (refl, (refl, (refl, (refl, tt)))))

abbrev guessed : WaState
guessed = after_tries first_bytes salted web_auth_init (four_guesses ++ guess ∷ [])

five_wrong_example :
    web_auth_login first_bytes guessed salted default_password 1059 drawn ≡ (guessed, lock)
five_wrong_example =
    five_wrong first_bytes salted web_auth_init four_guesses 1000 1059
      (b'g' ∷ b'u' ∷ b'e' ∷ b's' ∷ b's' ∷ []) drawn default_password drawn (omega arith)
      guesses-AllWrong (omega arith) (omega arith)

-- Two live sessions, one that was never used and one that was logged out
abbrev kept : WaState
kept = record {
  s =
      record { token = drawn; expires_s = 2593000; used = true; seq = 2 }
      ∷ record { token = replicate 16 1; expires_s = 70000; used = true; seq = 1 }
      ∷ record { token = replicate 16 0; expires_s = 0; used = false; seq = 0 }
      ∷ record { token = replicate 16 0; expires_s = 0; used = false; seq = 0 }
      ∷ [];
  fails = 3;
  lock_until_s = 0;
  next_seq = 3;
}

kept-IsSession : All IsSession kept.s
kept-IsSession =
    ((refl, omega arith), ((refl, omega arith), ((refl, omega arith), ((refl, omega arith), tt))))

unpack-pack_example :
    (web_auth_pack kept 128 ≡ some (session_bytes kept.s))
    × (web_auth_unpack web_auth_init (session_bytes kept.s ++ 5 ∷ [])
        ≡ some (record web_auth_init { s = after_restart kept.s; next_seq = 1 }))
unpack-pack_example = unpack-pack kept web_auth_init 128 (5 ∷ []) refl kept-IsSession (omega arith)
