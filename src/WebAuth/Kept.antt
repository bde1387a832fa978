-- ===== src/WebAuth/Kept.antt =====
-- The sessions that components/web_auth/web_auth.c keeps over a restart.
use hill_grov.Base.{
  All, List, [], ap, append_assoc, ap₂, arith, drop, drop-append, false, if◌then◌else◌, le32,
  length, length-append, ltb, none, rd32-le32, refl, some, sym, take, take-append, ℕ, ◌*◌, ◌++◌,
  ◌<◌, ◌∙◌, ◌∷◌, ◌≡◌, ◌≤◌,
}
use hill_grov.WebAuth.{WaSession, WaState, wa_sessions, wa_token_len}
use hill_grov.WebAuth.Restart.{
  expiry_at, restored, session_bytes, sessions_from, wa_pack_len, web_auth_pack, web_auth_unpack,
}

-- A token of its length and a time of 32 bits
abbrev pub IsSession : WaSession → Type 0
IsSession x = (length x.token ≡ wa_token_len) × (x.expires_s < 4294967296)

-- The sessions as a restart leaves them: the token and the time stay, a session is in use when its
-- time is not 0, and its place in the order of the logins is lost.
pub after_restart : List WaSession → List WaSession
after_restart [] = []
after_restart (x ∷ xs) =
    record { token = x.token; expires_s = x.expires_s; used = ltb 0 x.expires_s; seq = 0 }
    ∷ after_restart xs

restored_lem :
    (x : WaSession)
    → restored x.token x.expires_s
      ≡ record { token = x.token; expires_s = x.expires_s; used = ltb 0 x.expires_s; seq = 0 }
restored_lem x =
    ap (λ b. record { token = x.token; expires_s = x.expires_s; used = b; seq = 0 }) (ground arith)

sessions-bytes :
    (xs : List WaSession) (more : List ℕ)
    → All IsSession xs
    → sessions_from (length xs) (session_bytes xs ++ more) ≡ after_restart xs
unfolding sessions_from session_bytes after_restart
sessions-bytes [] more h = refl
sessions-bytes (x ∷ xs) more ((n, small), h) =
    let rest : List ℕ = session_bytes xs ++ more in
    let split : (x.token ++ (le32 x.expires_s ++ session_bytes xs)) ++ more
        ≡ x.token ++ (le32 x.expires_s ++ rest) =
      append_assoc x.token (le32 x.expires_s ++ session_bytes xs) more in
    let token =
      ap (take wa_token_len) split
      ∙ take-append wa_token_len x.token (le32 x.expires_s ++ rest) n in
    let behind =
      ap (drop wa_token_len) split
      ∙ drop-append wa_token_len x.token (le32 x.expires_s ++ rest) n in
    let time = ap expiry_at behind ∙ rd32-le32 x.expires_s small in
    ap₂ ◌∷◌ (ap₂ restored token time ∙ restored_lem x)
      (ap (λ p. sessions_from (length xs) (drop 4 p)) behind ∙ sessions-bytes xs more h)

length-session_bytes :
    (xs : List WaSession) → All IsSession xs → length (session_bytes xs) ≡ 20 * length xs
unfolding session_bytes
length-session_bytes [] h = refl
length-session_bytes (x ∷ xs) ((n, small), h) = omega (
  arith,
  n,
  length-append x.token (le32 x.expires_s ++ session_bytes xs),
  length-session_bytes xs h,
)

-- Four sessions with tokens of 16 bytes and times of 32 bits are packed when the buffer has 80
-- bytes, and unpacked into any state, also with later bytes behind them: each with its token and
-- time, in use when its time is not 0, and with the sequence number 0, while the next login takes 1.
pub unpack-pack :
    (st into : WaState) (cap : ℕ) (more : List ℕ)
    → length st.s ≡ wa_sessions
    → All IsSession st.s
    → wa_pack_len ≤ cap
    → (web_auth_pack st cap ≡ some (session_bytes st.s))
      × (web_auth_unpack into (session_bytes st.s ++ more)
          ≡ some (record into { s = after_restart st.s; next_seq = 1 }))
unfolding web_auth_pack web_auth_unpack
unpack-pack st into cap more four h room =
    let fits : ltb cap wa_pack_len ≡ false = ground (arith, room) in
    let len : ltb (length (session_bytes st.s ++ more)) wa_pack_len ≡ false =
      ground (arith, length-append (session_bytes st.s) more, length-session_bytes st.s h, four) in
    let read : sessions_from wa_sessions (session_bytes st.s ++ more) ≡ after_restart st.s =
      ap (λ n. sessions_from n (session_bytes st.s ++ more)) (sym four)
      ∙ sessions-bytes st.s more h in
    (
      ap (λ b. if b then none else some (session_bytes st.s)) fits,
      ap
            (λ b.
              if b
              then none
              else some (record into {
                s = sessions_from wa_sessions (session_bytes st.s ++ more);
                next_seq = 1;
              }))
            len
          ∙ ap (λ xs. some (record into { s = xs; next_seq = 1 })) read,
    )
