-- ===== src/Cmd/Gates/Decisions.antt =====
-- Whatever a line says, the decision of components/cmd_core/cmd_dispatch.c is one that it may take.
use hill_grov.Base.{
  Bool, Bool-cases, List, Option, Option-cases, [], arith, inl, inr, leb, length, negsuc, none, pos,
  refl, some, subst, suc, true, zero, ℕ, ℤ, ◌<◌, ◌∷◌, ◌≡◌, ◌≤◌,
}
use hill_grov.Cmd.{bad_args, empty, too_long, cmd_line_max, cmd_max_tokens, Core, Session}
use hill_grov.Cmd.Args.{parse_int_arg}
use hill_grov.Cmd.Tokens.{join}
use hill_grov.Cmd.Dispatch.{
  Decision, Address, address, decide, decide_tokens, here, refused, remote, sent, some_left,
}
use hill_grov.Cmd.Rows.{Action, word_zone, forward, is_master}
use hill_grov.Cmd.Text.{cmd_ci_eq, cmd_tokenize}
use hill_grov.Cmd.Gates.{Permitted, plain-Permitted, rejected, forwarded}

-- A decision that was made is permitted.
IsPermitted : Core → Session → ℕ → Decision → Type 0
IsPermitted core ses now none = Unit
IsPermitted core ses now (some (line, a)) = Permitted core ses now a

address-remote :
    (core : Core) (z : Option ℤ) (more : Bool) (id : ℕ)
    → address core z more ≡ remote id
    → (is_master core.role ≡ true) × (core.has_forward ≡ true) × (0 < id) × (id ≤ 8)
unfolding address
address-remote core none more id e = absurd (cc)
address-remote core (some (negsuc z)) more id e = absurd (cc)
address-remote core (some (pos z)) more id e =
    (ground (arith, e), ground (arith, e), ground (arith, e), ground (arith, e))

sent-Permitted :
    (core : Core) (ses : Session) (now : ℕ) (a : Address) (line tail : List ℕ)
    (again : List ℕ → Decision)
    → ((id : ℕ) → a ≡ remote id → Permitted core ses now (forward id tail))
    → IsPermitted core ses now (again tail)
    → IsPermitted core ses now (sent a line tail again)
unfolding IsPermitted
sent-Permitted core ses now (refused x) line tail again h k = rejected x
sent-Permitted core ses now (remote id) line tail again h k = h id refl
sent-Permitted core ses now here line tail again h k = k

decide_tokens-Permitted :
    (core : Core) (ses : Session) (now : ℕ) (again : List ℕ → Decision) (line : List ℕ)
    (toks : List (List ℕ))
    → ((tail : List ℕ) → IsPermitted core ses now (again tail))
    → IsPermitted core ses now (decide_tokens core ses now again line toks)
unfolding decide_tokens IsPermitted
decide_tokens-Permitted core ses now again line [] h = rejected empty
decide_tokens-Permitted core ses now again line (v ∷ []) h = plain-Permitted core ses now v []
decide_tokens-Permitted core ses now again line (v ∷ w ∷ []) h =
    plain-Permitted core ses now v (w ∷ [])
decide_tokens-Permitted core ses now again line (v ∷ w ∷ z ∷ tail) h =
    elim (Bool-cases (cmd_ci_eq w word_zone)) [
      | inr b ↦ rw (b, decide_tokens, IsPermitted) (plain-Permitted core ses now v (w ∷ z ∷ tail))
      | inl b ↦
          rw (b, decide_tokens)
            (sent-Permitted core ses now (address core (parse_int_arg z) (some_left tail)) line
              (join v tail) again
              (λ id e.
                let r = address-remote core (parse_int_arg z) (some_left tail) id e in
                forwarded id (join v tail) r.0 r.1 r.2 r.3)
              (h (join v tail)))
    ]

decide_any-Permitted :
    (fuel : ℕ) (core : Core) (ses : Session) (now : ℕ) (line : List ℕ)
    → IsPermitted core ses now (decide fuel core ses now line)
unfolding decide IsPermitted
decide_any-Permitted zero core ses now line = tt
decide_any-Permitted (suc fuel) core ses now line =
    elim (Bool-cases (leb cmd_line_max (length line))) [
      | inl b ↦ rw (b, decide, IsPermitted) (rejected too_long)
      | inr b ↦ elim (Option-cases (cmd_tokenize line cmd_max_tokens)) [
        | inl n ↦ rw (b, n, decide, IsPermitted) (rejected bad_args)
        | inr (toks, s) ↦
            rw (b, s, decide)
              (decide_tokens-Permitted core ses now (λ tail. decide fuel core ses now tail) line
                toks (λ tail. decide_any-Permitted fuel core ses now tail))
      ]
    ]

-- Whatever the line, the dispatcher decides for an error, for the help, for a forward from a
-- master that has a ring to one of the zones 1 to 8, or for the handler of a row of the table
-- that takes the verb, whose gates are all open for this role and session at this time, with a
-- number of arguments that the row takes and with values that it allows.
pub decide-Permitted :
    (fuel : ℕ) (core : Core) (ses : Session) (now : ℕ) (line read : List ℕ) (a : Action)
    → decide fuel core ses now line ≡ some (read, a)
    → Permitted core ses now a
unfolding IsPermitted
decide-Permitted fuel core ses now line read a e =
    subst (λ d. IsPermitted core ses now d) e (decide_any-Permitted fuel core ses now line)
