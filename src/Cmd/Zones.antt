-- ===== src/Cmd/Zones.antt =====
-- The zone address in front of a command: components/cmd_core/cmd_dispatch.c hands the line without it
-- to itself. That ends, and at the addressed node it is the plain command.
use hill_grov.Base.{
  All, Bool, Bool-cases, List, Option-cases, [], ap, arith, false, inl, inr, leb, length, pos, refl,
  some, subst, suc, sym, true, zero, ℕ, ◌*◌, ◌+◌, ◌<◌, ◌>>=◌, ◌∙◌, ◌∷◌, ◌≡◌, ◌≤◌, ◌⊎◌,
}
use hill_grov.Cmd.{Request, role_zone, Core, CmdEntry, Session, cmd_line_max, cmd_max_tokens}
use hill_grov.Cmd.Args.{parse_int_arg}
use hill_grov.Cmd.Dispatch.{
  carry_out, Address, Decision, Handled, address, cmd_dispatch, decide, decide_fuel, decide_tokens,
  here, refused, remote, sent, some_left,
}
use hill_grov.Cmd.Rows.{is_master, word_zone}
use hill_grov.Cmd.Text.{cmd_ci_eq, cmd_tokenize}
use hill_grov.Cmd.Tokens.{IsWord, some-inj, cmd_tokenize-IsWord, cmd_tokenize-join, join}

-- Two ways to go on that agree on the lines of fewer tokens give the same decision.
sent_agree :
    (a : Address) (line tail : List ℕ) (f g : List ℕ → Decision)
    → f tail ≡ g tail
    → sent a line tail f ≡ sent a line tail g
sent_agree (refused x) line tail f g h = refl
sent_agree (remote id) line tail f g h = refl
sent_agree here line tail f g h = h

decide_tokens-agree :
    (core : Core) (ses : Session) (now : ℕ) (f g : List ℕ → Decision) (line : List ℕ)
    (toks : List (List ℕ))
    → ((v : List ℕ) (tail : List (List ℕ))
        → All IsWord (v ∷ tail)
        → suc (suc (suc (length tail))) ≤ length toks
        → f (join v tail) ≡ g (join v tail))
    → All IsWord toks
    → decide_tokens core ses now f line toks ≡ decide_tokens core ses now g line toks
unfolding decide_tokens
decide_tokens-agree core ses now f g line [] h k = refl
decide_tokens-agree core ses now f g line (v ∷ []) h k = refl
decide_tokens-agree core ses now f g line (v ∷ w ∷ []) h k = refl
decide_tokens-agree core ses now f g line (v ∷ w ∷ z ∷ tail) h (kv, (kw, (kz, k))) =
    elim (Bool-cases (cmd_ci_eq w word_zone)) [
      | inr b ↦ rw (b, decide_tokens) refl
      | inl b ↦
          rw (b, decide_tokens)
            (sent_agree (address core (parse_int_arg z) (some_left tail)) line (join v tail) f g
              (h v tail (kv, k) (omega arith)))
    ]

-- The decision on a line of tokens, told by the tokens
decide-join :
    (fuel : ℕ) (core : Core) (ses : Session) (now : ℕ) (line : List ℕ) (toks : List (List ℕ))
    → length line < cmd_line_max
    → cmd_tokenize line cmd_max_tokens ≡ some toks
    → decide (suc fuel) core ses now line
      ≡ decide_tokens core ses now (λ tail. decide fuel core ses now tail) line toks
unfolding decide
decide-join fuel core ses now line toks h e =
    let b : leb cmd_line_max (length line) ≡ false = ground arith in rw (b, e, decide) refl

-- Enough fuel on two sides for the tokens of a line, if it has any
IsEnough : ℕ → ℕ → List ℕ → Type 0
IsEnough f g line =
    (toks : List (List ℕ))
    → cmd_tokenize line cmd_max_tokens ≡ some toks
    → (length toks ≤ 2 * f + 2) × (length toks ≤ 2 * g + 2)

tail-IsEnough :
    (f g : ℕ) (v : List ℕ) (tail : List (List ℕ))
    → All IsWord (v ∷ tail)
    → suc (length tail) ≤ 2 * f + 2
    → suc (length tail) ≤ 2 * g + 2
    → length tail < cmd_max_tokens
    → IsEnough f g (join v tail)
unfolding IsEnough
tail-IsEnough f g v tail k a b c toks e =
    let same : v ∷ tail ≡ toks = some-inj (sym (cmd_tokenize-join v tail cmd_max_tokens k c) ∙ e) in
    subst (λ ts. (length ts ≤ 2 * f + 2) × (length ts ≤ 2 * g + 2)) same (a, b)

-- Two fuels agree on a line when they do on every line that it may hand on.
agree_on :
    (f g : ℕ) (core : Core) (ses : Session) (now : ℕ) (line : List ℕ)
    → IsEnough f g line
    → ((v : List ℕ) (tail : List (List ℕ))
        → All IsWord (v ∷ tail)
        → suc (length tail) ≤ 2 * f
        → suc (length tail) ≤ 2 * g
        → length tail < cmd_max_tokens
        → decide f core ses now (join v tail) ≡ decide g core ses now (join v tail))
    → decide (suc f) core ses now line ≡ decide (suc g) core ses now line
unfolding IsEnough decide
agree_on f g core ses now line h deeper = elim (Bool-cases (leb cmd_line_max (length line))) [
  | inl b ↦ rw (b, decide) refl
  | inr b ↦ elim (Option-cases (cmd_tokenize line cmd_max_tokens)) [
    | inl n ↦ rw (b, n, decide) refl
    | inr (toks, s) ↦
        let small = cmd_tokenize-IsWord line cmd_max_tokens toks s in
        let enough = h toks s in
        rw (b, s, decide)
          (decide_tokens-agree core ses now (λ t. decide f core ses now t)
            (λ t. decide g core ses now t) line toks
            (λ v tail k l.
              deeper v tail k (omega (arith, enough.0, l)) (omega (arith, enough.1, l))
                (omega (arith, small.1, l)))
            small.0)
  ]
]

decide_any_fuel :
    (f g : ℕ) (core : Core) (ses : Session) (now : ℕ) (line : List ℕ)
    → IsEnough f g line
    → decide (suc f) core ses now line ≡ decide (suc g) core ses now line
decide_any_fuel zero g core ses now line h =
    agree_on zero g core ses now line h (λ v tail k a b c. absurd (omega (arith, a)))
decide_any_fuel (suc f) zero core ses now line h =
    agree_on (suc f) zero core ses now line h (λ v tail k a b c. absurd (omega (arith, b)))
decide_any_fuel (suc f) (suc g) core ses now line h =
    agree_on (suc f) (suc g) core ses now line h (λ v tail k a b c.
      decide_any_fuel f g core ses now (join v tail)
        (tail-IsEnough f g v tail k (omega (arith, a)) (omega (arith, b)) c))

-- More steps than the fuel has decide no line otherwise.
pub decide-fuel :
    (more : ℕ) (core : Core) (ses : Session) (now : ℕ) (line : List ℕ)
    → decide (decide_fuel + more) core ses now line ≡ decide decide_fuel core ses now line
unfolding IsEnough
decide-fuel more core ses now line =
    let e : decide_fuel + more ≡ suc (5 + more) = omega arith in
    rw e (
      decide_any_fuel (5 + more) 5 core ses now line (λ toks s.
        let small = cmd_tokenize-IsWord line cmd_max_tokens toks s in
        (omega (arith, small.1), omega (arith, small.1))))

-- The address of this node: the number 0, or in a zone its own number.
here_lem :
    (core : Core) (id : ℕ)
    → (id ≡ 0) ⊎ ((id ≡ core.zone_id) × (core.role ≡ role_zone) × (id ≤ 8))
    → address core (some (pos id)) true ≡ here
unfolding address
here_lem core id (inl e) = rw e refl
here_lem core id (inr (e, r, small)) =
    let slave : is_master core.role ≡ false = ap is_master r in rw slave (ground (arith, e, small))

decide-own_zone :
    (core : Core) (ses : Session) (now id : ℕ) (v w z t : List ℕ) (tail : List (List ℕ))
    → (id ≡ 0) ⊎ ((id ≡ core.zone_id) × (core.role ≡ role_zone) × (id ≤ 8))
    → parse_int_arg z ≡ some (pos id)
    → cmd_ci_eq w word_zone ≡ true
    → All IsWord (v ∷ w ∷ z ∷ t ∷ tail)
    → length tail ≤ 8
    → length (join v (w ∷ z ∷ t ∷ tail)) < cmd_line_max
    → decide decide_fuel core ses now (join v (w ∷ z ∷ t ∷ tail))
      ≡ decide decide_fuel core ses now (join v (t ∷ tail))
unfolding decide_tokens decide
decide-own_zone core ses now id v w z t tail h n c (kv, (kw, (kz, k))) small short =
    let toks =
      cmd_tokenize-join v (w ∷ z ∷ t ∷ tail) cmd_max_tokens (kv, (kw, (kz, k))) (omega arith) in
    let at_home = here_lem core id h in
    let first : decide decide_fuel core ses now (join v (w ∷ z ∷ t ∷ tail))
        ≡ decide 5 core ses now (join v (t ∷ tail)) =
      decide-join 5 core ses now (join v (w ∷ z ∷ t ∷ tail)) (v ∷ w ∷ z ∷ t ∷ tail) short toks
      ∙ rw (c, n, at_home, decide_tokens) refl in
    first
    ∙ decide_any_fuel 4 5 core ses now (join v (t ∷ tail))
        (tail-IsEnough 4 5 v (t ∷ tail) (kv, k) (omega arith) (omega arith) (omega arith))

-- At the node that an address names (0 or the zone's own number, in whatever way the number is
-- written), a line of at most 12 tokens and fewer than 192 bytes has the outcome that the same
-- tokens without the address have: the reply, the session, the rest of the system and the line
-- of the audit.
pub cmd_dispatch-own_zone :
    {W : Type 0} (handler : CmdEntry → Request → Session → W → Handled W)
    (forward_to : ℕ → List ℕ → W → Bool × List ℕ × W)
    (cmd_help : List (List ℕ) → W → Bool × List ℕ × W) (core : Core) (ses : Session)
    (now done again id : ℕ) (world : W) (v w z t : List ℕ) (tail : List (List ℕ))
    → (id ≡ 0) ⊎ ((id ≡ core.zone_id) × (core.role ≡ role_zone) × (id ≤ 8))
    → parse_int_arg z ≡ some (pos id)
    → cmd_ci_eq w word_zone ≡ true
    → All IsWord (v ∷ w ∷ z ∷ t ∷ tail)
    → length tail ≤ 8
    → length (join v (w ∷ z ∷ t ∷ tail)) < cmd_line_max
    → cmd_dispatch handler forward_to cmd_help core ses now done again world
        (join v (w ∷ z ∷ t ∷ tail))
      ≡ cmd_dispatch handler forward_to cmd_help core ses now done again world (join v (t ∷ tail))
unfolding cmd_dispatch
cmd_dispatch-own_zone handler forward_to cmd_help core ses now done again id world v w z t tail h n
      c k small short =
    ap (λ d. d >>= (λ x. some (carry_out handler forward_to cmd_help core ses done again world x)))
      (decide-own_zone core ses now id v w z t tail h n c k small short)
