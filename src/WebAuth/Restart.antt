-- ===== src/WebAuth/Restart.antt =====
-- components/web_auth/web_auth.c: what is kept of the sessions over a restart.
use hill_grov.Base.{
  List, Option, [], drop, get_or, if◌then◌else◌, le32, length, ltb, none, not, rd32, some, suc,
  take, zero, ℕ, ◌++◌, ◌==◌, ◌∷◌,
}
use hill_grov.WebAuth.{WaSession, WaState, wa_sessions, wa_token_len}

-- The length of what is kept over a restart: 16 bytes of token and 4 of time for each session
abbrev pub wa_pack_len : ℕ
wa_pack_len = 80

unfoldable pub session_bytes : List WaSession → List ℕ
session_bytes [] = []
session_bytes (x ∷ xs) = x.token ++ (le32 x.expires_s ++ session_bytes xs)

-- `web_auth_pack`; `none` is its -1
unfoldable pub web_auth_pack : WaState → ℕ → Option (List ℕ)
unfolding session_bytes
web_auth_pack st cap = if ltb cap wa_pack_len then none else some (session_bytes st.s)

-- A session that is read back; its `seq` is not kept.
abbrev pub restored : List ℕ → ℕ → WaSession
restored token expires_s = record {
  token = token;
  expires_s = expires_s;
  used = not (expires_s == 0);
  seq = 0;
}

abbrev pub expiry_at : List ℕ → ℕ
expiry_at p = rd32 (get_or p 0 0) (get_or p 1 0) (get_or p 2 0) (get_or p 3 0)

unfoldable pub sessions_from : ℕ → List ℕ → List WaSession
sessions_from zero p = []
sessions_from (suc n) p =
    restored (take wa_token_len p) (expiry_at (drop wa_token_len p))
    ∷ sessions_from n (drop 4 (drop wa_token_len p))

-- `web_auth_unpack`; `none` is its -1
unfoldable pub web_auth_unpack : WaState → List ℕ → Option WaState
unfolding sessions_from
web_auth_unpack st input =
    if ltb (length input) wa_pack_len
    then none
    else some (record st { s = sessions_from wa_sessions input; next_seq = 1 })
