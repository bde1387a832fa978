-- ===== src/Cmd/Ends.antt =====
-- Every line is decided upon: components/cmd_core/cmd_dispatch.c hands a line on to itself at most five
-- times, each time two tokens shorter.
use hill_grov.Base.{
  All, Bool, Bool-cases, List, Option, Option-cases, [], ap, arith, inl, inr, leb, length, refl,
  some, subst, suc, sym, zero, ℕ, ◌*◌, ◌+◌, ◌>>=◌, ◌∙◌, ◌∷◌, ◌≡◌, ◌≤◌,
}
use hill_grov.Cmd.{
  Core, Session, CmdEntry, Request, cmd_line_max, cmd_max_tokens, too_long, bad_args,
}
use hill_grov.Cmd.Args.{parse_int_arg}
use hill_grov.Cmd.Dispatch.{
  Address, Decision, Handled, Outcome, address, carry_out, cmd_dispatch, decide, decide_tokens,
  here, refused, remote, sent, some_left,
}
use hill_grov.Cmd.Rows.{forward, reject, word_zone}
use hill_grov.Cmd.Text.{cmd_ci_eq, cmd_tokenize}
use hill_grov.Cmd.Tokens.{IsWord, cmd_tokenize-IsWord, cmd_tokenize-join, join, some-inj}

IsMade {ℓ} : {A : Type ℓ} → Option A → Type ℓ
IsMade {A = A} o = (a : A) × (o ≡ some a)

sent-IsMade :
    (a : Address) (line tail : List ℕ) (again : List ℕ → Decision)
    → IsMade (again tail)
    → IsMade (sent a line tail again)
unfolding IsMade
sent-IsMade (refused x) line tail again h = ((line, reject x), refl)
sent-IsMade (remote id) line tail again h = ((line, forward id tail), refl)
sent-IsMade here line tail again h = h

decide_tokens-IsMade :
    (core : Core) (ses : Session) (now : ℕ) (again : List ℕ → Decision) (line : List ℕ)
    (toks : List (List ℕ))
    → ((v : List ℕ) (tail : List (List ℕ))
        → All IsWord (v ∷ tail)
        → suc (suc (suc (length tail))) ≤ length toks
        → IsMade (again (join v tail)))
    → All IsWord toks
    → IsMade (decide_tokens core ses now again line toks)
unfolding decide_tokens IsMade
decide_tokens-IsMade core ses now again line [] h k = (_, refl)
decide_tokens-IsMade core ses now again line (v ∷ []) h k = (_, refl)
decide_tokens-IsMade core ses now again line (v ∷ w ∷ []) h k = (_, refl)
decide_tokens-IsMade core ses now again line (v ∷ w ∷ z ∷ tail) h (kv, (kw, (kz, k))) =
    elim (Bool-cases (cmd_ci_eq w word_zone)) [
      | inr b ↦ rw (b, decide_tokens, IsMade) (_, refl)
      | inl b ↦
          rw (b, decide_tokens)
            (sent-IsMade (address core (parse_int_arg z) (some_left tail)) line (join v tail) again
              (h v tail (kv, k) (omega arith)))
    ]

-- The rest of the tokens, when the fuel is enough for them
decide_step-IsMade :
    (fuel : ℕ) (core : Core) (ses : Session) (now : ℕ) (line : List ℕ)
    → ((v : List ℕ) (tail toks : List (List ℕ))
        → cmd_tokenize line cmd_max_tokens ≡ some toks
        → All IsWord (v ∷ tail)
        → suc (suc (suc (length tail))) ≤ length toks
        → IsMade (decide fuel core ses now (join v tail)))
    → IsMade (decide (suc fuel) core ses now line)
unfolding decide IsMade
decide_step-IsMade fuel core ses now line h = elim (Bool-cases (leb cmd_line_max (length line))) [
  | inl b ↦ rw (b, decide) ((line, reject too_long), refl)
  | inr b ↦ elim (Option-cases (cmd_tokenize line cmd_max_tokens)) [
    | inl n ↦ rw (b, n, decide) ((line, reject bad_args), refl)
    | inr (toks, s) ↦
        rw (b, s, decide)
          (decide_tokens-IsMade core ses now (λ t. decide fuel core ses now t) line toks
            (λ v tail k l. h v tail toks s k l) (cmd_tokenize-IsWord line cmd_max_tokens toks s).0)
  ]
]

decide-IsMade :
    (fuel : ℕ) (core : Core) (ses : Session) (now : ℕ) (line : List ℕ)
    → ((toks : List (List ℕ))
        → cmd_tokenize line cmd_max_tokens ≡ some toks
        → length toks ≤ 2 * fuel + 2)
    → IsMade (decide (suc fuel) core ses now line)
decide-IsMade zero core ses now line h =
    decide_step-IsMade zero core ses now line
      (λ v tail toks s k l. absurd (omega (arith, h toks s, l)))
decide-IsMade (suc fuel) core ses now line h =
    decide_step-IsMade (suc fuel) core ses now line (λ v tail toks s k l.
      let small = (cmd_tokenize-IsWord line cmd_max_tokens toks s).1 in
      decide-IsMade fuel core ses now (join v tail) (λ us e.
        let same : v ∷ tail ≡ us =
          some-inj
            (sym (cmd_tokenize-join v tail cmd_max_tokens k (omega (arith, small, l))) ∙ e) in
        subst (λ ts. length ts ≤ 2 * fuel + 2) same (omega (arith, h toks s, l))))

-- Every line is answered within the fuel, whatever the handlers do.
pub cmd_dispatch-ends :
    {W : Type 0} (handler : CmdEntry → Request → Session → W → Handled W)
    (forward_to : ℕ → List ℕ → W → Bool × List ℕ × W)
    (cmd_help : List (List ℕ) → W → Bool × List ℕ × W) (core : Core) (ses : Session)
    (now done again : ℕ) (world : W) (line : List ℕ)
    → (o : Outcome W) × (cmd_dispatch handler forward_to cmd_help core ses now done again world line
        ≡ some o)
unfolding cmd_dispatch IsMade
cmd_dispatch-ends handler forward_to cmd_help core ses now done again world line =
    let d =
      decide-IsMade 5 core ses now line
        (λ toks s. omega (arith, (cmd_tokenize-IsWord line cmd_max_tokens toks s).1)) in
    (
      carry_out handler forward_to cmd_help core ses done again world d.0,
      ap
          (λ x.
            x >>= (λ y. some (carry_out handler forward_to cmd_help core ses done again world y)))
          d.1,
    )
