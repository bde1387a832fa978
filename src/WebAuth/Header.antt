-- ===== src/WebAuth/Header.antt =====
-- components/web_auth/web_auth.c: the cookie in a header, and what is done with its session.
use hill_grov.Base.{
  Bool, List, Option, [], false, if◌then◌else◌, leb, length, ltb, none, some, true, ℕ, ◌&&◌, ◌*◌,
  ◌++◌, ◌+◌, ◌-◌, ◌==◌, ◌||◌, ◌∷◌,
}
use hill_grov.WebAuth.{WaSession, WaState, ct_eq, no_session, wa_token_len}

-- `hexval`; `none` is its -1
abbrev pub hexval : ℕ → Option ℕ
hexval c =
    if leb b'0' c && leb c b'9'
    then some (c - b'0')
    else if leb b'a' c && leb c b'f'
    then some (c - b'a' + 10)
    else none

abbrev pub byte_of : Option ℕ → Option ℕ → Option (List ℕ) → Option (List ℕ)
byte_of (some hi) (some lo) (some bytes) = some ((hi * 16 + lo) ∷ bytes)
byte_of hi lo bytes = none

-- The bytes of a text of hexadecimal digits, when all of them are
unfoldable pub hex_decode : List ℕ → Option (List ℕ)
hex_decode [] = some []
hex_decode (h ∷ []) = none
hex_decode (h ∷ l ∷ text) = byte_of (hexval h) (hexval l) (hex_decode text)

-- hg_sess=
abbrev pub cookie_name : List ℕ
cookie_name = b'h' ∷ b'g' ∷ b'_' ∷ b's' ∷ b'e' ∷ b's' ∷ b's' ∷ b'=' ∷ []

-- What stands behind a name, if a segment begins with it
unfoldable pub after_name : List ℕ → List ℕ → Option (List ℕ)
after_name [] seg = some seg
after_name (n ∷ name) [] = none
after_name (n ∷ name) (c ∷ seg) = elim (n == c) [ true ↦ after_name name seg | false ↦ none ]

-- A cookie's value as the token
unfoldable pub token_of : List ℕ → Option (List ℕ)
unfolding hex_decode
token_of val = if length val == 2 * wa_token_len then hex_decode val else none

-- The segments of a header, `some seg` being the one that is read
unfoldable pub segments : Option (List ℕ) → List ℕ → List (List ℕ)
segments none [] = []
segments (some seg) [] = seg ∷ []
segments none (c ∷ hdr) = elim (c == b' ' || c == b';') [
  | true ↦ segments none hdr
  | false ↦ segments (some (c ∷ [])) hdr
]
segments (some seg) (c ∷ hdr) = elim (c == b';') [
  | true ↦ seg ∷ segments none hdr
  | false ↦ segments (some (seg ++ c ∷ [])) hdr
]

-- The token of the first segment with the name
unfoldable pub first_token : List (List ℕ) → Option (List ℕ)
unfolding after_name token_of
first_token [] = none
first_token (seg ∷ segs) = elim (after_name cookie_name seg) [
  | some val ↦ token_of val
  | none ↦ first_token segs
]

-- `extract_cookie_token`
unfoldable pub extract_cookie_token : List ℕ → Option (List ℕ)
unfolding first_token segments
extract_cookie_token hdr = first_token (segments none hdr)

-- The first session in use with the token: is it still valid
unfoldable pub check_from : List ℕ → ℕ → List WaSession → Bool
unfolding ct_eq
check_from token now_s [] = false
check_from token now_s (x ∷ xs) = elim (x.used && ct_eq x.token token wa_token_len) [
  | true ↦ ltb now_s x.expires_s
  | false ↦ check_from token now_s xs
]

-- `web_auth_check`: `true` is its 0
unfoldable pub web_auth_check : WaState → List ℕ → ℕ → Bool
unfolding extract_cookie_token check_from
web_auth_check st cookie_header now_s = elim (extract_cookie_token cookie_header) [
  | none ↦ false
  | some token ↦ check_from token now_s st.s
]

-- The first session in use with the token is erased.
unfoldable pub erase_from : List ℕ → List WaSession → List WaSession
unfolding ct_eq
erase_from token [] = []
erase_from token (x ∷ xs) = elim (x.used && ct_eq x.token token wa_token_len) [
  | true ↦ no_session ∷ xs
  | false ↦ x ∷ erase_from token xs
]

-- `web_auth_logout`
unfoldable pub web_auth_logout : WaState → List ℕ → WaState
unfolding extract_cookie_token erase_from
web_auth_logout st cookie_header = elim (extract_cookie_token cookie_header) [
  | none ↦ st
  | some token ↦ record st { s = erase_from token st.s }
]
