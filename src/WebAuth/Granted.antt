-- ===== src/WebAuth/Granted.antt =====
-- The session of components/web_auth/web_auth.c that a login opens: its cookie is good until it runs out
-- or is logged out.
use hill_grov.Base.{
  All, Bool, Bool-cases, Byte, List, Option-cases, [], ap, arith, false, if_lem, inl, inr, length,
  ltb, refl, set, some, subst, suc, sym, true, zero, ℕ, ◌%◌, ◌&&◌, ◌++◌, ◌+◌, ◌<◌, ◌^◌, ◌∙◌, ◌∷◌,
  ◌≡◌,
}
use hill_grov.WebAuth.{
  Login, Mcfg, WaSession, WaState, ct_eq, free_from, granted, hex_encode, is_free, new_session,
  oldest_from, opened, pw_matches, slot_for, wa_sessions, wa_token_len, wa_ttl_s, web_auth_login,
}
use hill_grov.WebAuth.Header.{
  check_from, cookie_name, erase_from, extract_cookie_token, web_auth_check, web_auth_logout,
}
use hill_grov.WebAuth.Cookie.{ct_eq_refl, extract-cookie}

free_from-lt :
    (now_s i : ℕ) (xs : List WaSession) (k : ℕ) → free_from now_s i xs ≡ some k → k < i + length xs
unfolding free_from
free_from-lt now_s i [] k h = absurd (cc)
free_from-lt now_s i (x ∷ xs) k h = elim (Bool-cases (is_free now_s x)) [
  | inl b ↦
      let e : some i ≡ some k = sym (rw (b, free_from) refl) ∙ h in
      let same : i ≡ k = cc in omega (arith, same)
  | inr b ↦ omega (arith, free_from-lt now_s (suc i) xs k (sym (rw (b, free_from) refl) ∙ h))
]

oldest_from-lt :
    (best oldest i : ℕ) (xs : List WaSession)
    → best < i
    → oldest_from best oldest i xs < i + length xs
unfolding oldest_from
oldest_from-lt best oldest i [] h = omega (arith, h)
oldest_from-lt best oldest i (x ∷ xs) h = ground (
  arith,
  oldest_from-lt i x.seq (suc i) xs (omega arith),
  oldest_from-lt best oldest (suc i) xs (omega (arith, h)),
)

slot_for-lt : (now_s : ℕ) (xs : List WaSession) → 0 < length xs → slot_for now_s xs < length xs
unfolding slot_for
slot_for-lt now_s [] h = absurd (omega (arith, h))
slot_for-lt now_s (x ∷ xs) h = elim (Option-cases (free_from now_s 0 (x ∷ xs))) [
  | inl e ↦ rw (e, slot_for) (omega (arith, oldest_from-lt 0 x.seq 1 xs (omega arith)))
  | inr (k, e) ↦ rw (e, slot_for) (omega (arith, free_from-lt now_s 0 (x ∷ xs) k e))
]

-- A session in use that has this token
abbrev pub has_token : List ℕ → WaSession → Bool
has_token token x = x.used && ct_eq x.token token wa_token_len

-- None of the sessions has the token.
abbrev pub IsNew : List ℕ → List WaSession → Type 0
IsNew token = All (λ x. has_token token x ≡ false)

check-set :
    (token : List ℕ) (t i : ℕ) (x : WaSession) (xs : List WaSession)
    → IsNew token xs
    → has_token token x ≡ true
    → i < length xs
    → check_from token t (set xs i x) ≡ ltb t x.expires_s
unfolding check_from
check-set token t i x [] a h small = absurd (omega (arith, small))
check-set token t zero x (y ∷ xs) (ay, a) h small = rw (h, check_from) refl
check-set token t (suc i) x (y ∷ xs) (ay, a) h small =
    rw (ay, check_from) (check-set token t i x xs a h (omega (arith, small)))

check-IsNew :
    (token : List ℕ) (t : ℕ) (xs : List WaSession) → IsNew token xs → check_from token t xs ≡ false
unfolding check_from
check-IsNew token t [] a = refl
check-IsNew token t (y ∷ xs) (ay, a) = rw (ay, check_from) (check-IsNew token t xs a)

check-past :
    (token : List ℕ) (t : ℕ) (y : WaSession) (xs : List WaSession)
    → has_token token y ≡ false
    → check_from token t (y ∷ xs) ≡ check_from token t xs
unfolding check_from
check-past token t y xs h = rw (h, check_from) refl

erase-past :
    (token : List ℕ) (y : WaSession) (xs : List WaSession)
    → has_token token y ≡ false
    → erase_from token (y ∷ xs) ≡ y ∷ erase_from token xs
unfolding erase_from
erase-past token y xs h = rw (h, erase_from) refl

check-erased :
    (token : List ℕ) (t i : ℕ) (x : WaSession) (xs : List WaSession)
    → IsNew token xs
    → has_token token x ≡ true
    → i < length xs
    → check_from token t (erase_from token (set xs i x)) ≡ false
unfolding check_from erase_from
check-erased token t i x [] a h small = absurd (omega (arith, small))
check-erased token t zero x (y ∷ xs) (ay, a) h small = rw (h, erase_from) (check-IsNew token t xs a)
check-erased token t (suc i) x (y ∷ xs) (ay, a) h small =
    ap (check_from token t) (erase-past token y (set xs i x) ay)
    ∙ check-past token t y (erase_from token (set xs i x)) ay
    ∙ check-erased token t i x xs a h (omega (arith, small))

check-token :
    (st : WaState) (hdr token : List ℕ) (t : ℕ)
    → extract_cookie_token hdr ≡ some token
    → web_auth_check st hdr t ≡ check_from token t st.s
unfolding web_auth_check
check-token st hdr token t e = rw (e, web_auth_check) refl

logout-token :
    (st : WaState) (hdr token : List ℕ)
    → extract_cookie_token hdr ≡ some token
    → (web_auth_logout st hdr).s ≡ erase_from token st.s
unfolding web_auth_logout
logout-token st hdr token e = rw (e, web_auth_logout) refl

granted_lem :
    (sha : List ℕ → List ℕ) (st : WaState) (m : Mcfg) (pw : List ℕ) (now_s : ℕ)
    (fresh cookie : List ℕ)
    → (web_auth_login sha st m pw now_s fresh).1 ≡ granted cookie
    → ((web_auth_login sha st m pw now_s fresh).0 ≡ opened st now_s fresh)
      × (hex_encode fresh ≡ cookie)
unfolding web_auth_login
granted_lem sha st m pw now_s fresh cookie h =
    if_lem
      (λ (r : WaState × Login).
        r.1 ≡ granted cookie → (r.0 ≡ opened st now_s fresh) × (hex_encode fresh ≡ cookie))
      (ltb now_s st.lock_until_s) _ _ (λ c e. absurd (cc))
      (λ c.
        if_lem
          (λ (r : WaState × Login).
            r.1 ≡ granted cookie → (r.0 ≡ opened st now_s fresh) × (hex_encode fresh ≡ cookie))
          (pw_matches sha m pw) _ _ (λ d e. (refl, cc)) (λ d e. absurd (cc)))
      h

-- When a login is granted a cookie, in a state of four sessions, with 16 random bytes that no
-- session in use has for its token, the cookie is good exactly before the 30 days from the login
-- are over, on the 32-bit clock, and after it is logged out it is good at no time.
pub login-check :
    (sha : List ℕ → List ℕ) (st : WaState) (m : Mcfg) (pw : List ℕ) (now_s later_s : ℕ)
    (fresh cookie : List ℕ)
    → length st.s ≡ wa_sessions
    → length fresh ≡ wa_token_len
    → All Byte fresh
    → IsNew fresh st.s
    → (web_auth_login sha st m pw now_s fresh).1 ≡ granted cookie
    → (web_auth_check (web_auth_login sha st m pw now_s fresh).0 (cookie_name ++ cookie) later_s
        ≡ ltb later_s ((now_s + wa_ttl_s) % 2 ^ 32))
      × (web_auth_check
            (web_auth_logout (web_auth_login sha st m pw now_s fresh).0 (cookie_name ++ cookie))
            (cookie_name ++ cookie)
            later_s
          ≡ false)
login-check sha st m pw now_s later_s fresh cookie four n h new e =
    let g = granted_lem sha st m pw now_s fresh cookie e in
    let token : extract_cookie_token (cookie_name ++ cookie) ≡ some fresh =
      subst (λ c. extract_cookie_token (cookie_name ++ c) ≡ some fresh) g.1
        (extract-cookie fresh n h) in
    let small : slot_for now_s st.s < length st.s = slot_for-lt now_s st.s (omega (arith, four)) in
    let own : has_token fresh (new_session st now_s fresh) ≡ true =
      ct_eq_refl wa_token_len fresh h in
    let now_in : WaState = (web_auth_login sha st m pw now_s fresh).0 in
    let sessions : now_in.s ≡ (opened st now_s fresh).s = ap (λ (x : WaState). x.s) g.0 in
    let session : WaSession = new_session st now_s fresh in
    let slot : ℕ = slot_for now_s st.s in
    (
      check-token now_in (cookie_name ++ cookie) fresh later_s token
          ∙ ap (check_from fresh later_s) sessions
          ∙ check-set fresh later_s slot session st.s new own small,
      check-token (web_auth_logout now_in (cookie_name ++ cookie)) (cookie_name ++ cookie) fresh
            later_s token
          ∙ ap (check_from fresh later_s) (
              logout-token now_in (cookie_name ++ cookie) fresh token
              ∙ ap (erase_from fresh) sessions)
          ∙ check-erased fresh later_s slot session st.s new own small,
    )
