-- ===== src/WebAuth/Lockout.antt =====
-- Guessing a password: components/web_auth/web_auth.c refuses every try for a minute after five wrong
-- ones in a row.
use hill_grov.Base.{
  List, [], ap, arith, if_lem, if◌then◌else◌, length, ltb, lt→ltb, min, refl, subst, suc, sym, true,
  ℕ, ◌++◌, ◌+◌, ◌<◌, ◌^◌, ◌∙◌, ◌∷◌, ◌≡◌, ◌≤◌,
}
use hill_grov.WebAuth.{
  hex_encode, Login, Mcfg, WaState, granted, lock, login_failed, opened, pw_matches, wa_lock_s,
  web_auth_login, wrong,
}

-- A try: the password, the time, and the bytes that are drawn if it is right
abbrev pub Try : Type 0
Try = List ℕ × ℕ × List ℕ

module _ (sha : List ℕ → List ℕ) (m : Mcfg) where
  abbrev pub try_login : WaState → Try → WaState × Login
  try_login st (pw, now_s, fresh) = web_auth_login sha st m pw now_s fresh

  unfoldable pub after_tries : WaState → List Try → WaState
  after_tries st [] = st
  after_tries st (t ∷ tries) = after_tries (try_login st t).0 tries

  -- Each try is answered as wrong.
  unfoldable pub AllWrong : WaState → List Try → Type 0
  AllWrong st [] = Unit
  AllWrong st (t ∷ tries) = ((try_login st t).1 ≡ wrong) × AllWrong (try_login st t).0 tries

  wrong-failed :
      (st : WaState) (pw : List ℕ) (now_s : ℕ) (fresh : List ℕ)
      → (web_auth_login sha st m pw now_s fresh).1 ≡ wrong
      → (web_auth_login sha st m pw now_s fresh).0 ≡ login_failed st now_s
  unfolding web_auth_login
  wrong-failed st pw now_s fresh h =
      if_lem (λ (r : WaState × Login). r.1 ≡ wrong → r.0 ≡ login_failed st now_s)
        (ltb now_s st.lock_until_s) _ _ (λ c e. absurd (cc))
        (λ c.
          if_lem (λ (r : WaState × Login). r.1 ≡ wrong → r.0 ≡ login_failed st now_s)
            (pw_matches sha m pw) _ _ (λ d e. absurd (cc)) (λ d e. refl))
        h

  counted_more :
      (st : WaState) (now_s k : ℕ)
      → min k 5 ≤ st.fails
      → min (suc k) 5 ≤ (login_failed st now_s).fails
  counted_more st now_s k h = ground (arith, h)

  locked_from :
      (st : WaState) (now_s k : ℕ)
      → min k 5 ≤ st.fails
      → 4 ≤ k
      → now_s + wa_lock_s < 2 ^ 32
      → (login_failed st now_s).lock_until_s ≡ now_s + wa_lock_s
  locked_from st now_s k h four small = ground (arith, h, four, small)

  tries-locked :
      (st : WaState) (tries : List Try) (k now_s : ℕ) (pw fresh : List ℕ)
      → min k 5 ≤ st.fails
      → 4 ≤ k + length tries
      → now_s + wa_lock_s < 2 ^ 32
      → AllWrong st (tries ++ (pw, now_s, fresh) ∷ [])
      → (after_tries st (tries ++ (pw, now_s, fresh) ∷ [])).lock_until_s ≡ now_s + wa_lock_s
  unfolding after_tries AllWrong
  tries-locked st [] k now_s pw fresh h four small (e, _) =
      ap (λ (s : WaState). s.lock_until_s) (wrong-failed st pw now_s fresh e)
      ∙ locked_from st now_s k h (omega (arith, four)) small
  tries-locked st ((pw_one, at, drawn) ∷ tries) k now_s pw fresh h four small (e, es) =
      let next : WaState = (try_login st (pw_one, at, drawn)).0 in
      tries-locked next tries (suc k) now_s pw fresh
        (subst (λ (s : WaState). min (suc k) 5 ≤ s.fails) (sym (wrong-failed st pw_one at drawn e))
          (counted_more st at k h))
        (omega (arith, four)) small es

  -- After five or more wrong passwords in a row, each answered as wrong, every login within the
  -- minute from the last of them is refused and changes nothing, whatever its password, the
  -- right one included, while the clock stays within 32 bits.
  pub five_wrong :
      (st : WaState) (tries : List Try) (now_s later_s : ℕ) (pw fresh guess drawn : List ℕ)
      → 4 ≤ length tries
      → AllWrong st (tries ++ (pw, now_s, fresh) ∷ [])
      → now_s + wa_lock_s < 2 ^ 32
      → later_s < now_s + wa_lock_s
      → web_auth_login sha (after_tries st (tries ++ (pw, now_s, fresh) ∷ [])) m guess later_s drawn
        ≡ (after_tries st (tries ++ (pw, now_s, fresh) ∷ []), lock)
  unfolding web_auth_login
  five_wrong st tries now_s later_s pw fresh guess drawn five h small early =
      let st' : WaState = after_tries st (tries ++ (pw, now_s, fresh) ∷ []) in
      let until =
        tries-locked st tries 0 now_s pw fresh (omega arith) (omega (arith, five)) small h in
      let c : ltb later_s st'.lock_until_s ≡ true =
        lt→ltb later_s st'.lock_until_s (omega (arith, until, early)) in
      ap
        (λ b.
          if b
          then (st', lock)
          else if pw_matches sha m guess
          then (opened st' later_s drawn, granted (hex_encode drawn))
          else (login_failed st' later_s, wrong))
        c
