-- ===== src/Cmd/Gates.antt =====
-- What a line must satisfy for components/cmd_core/cmd_dispatch.c to run a handler or to use the ring.
pub mod Decisions
use hill_grov.Base.{
  Bool-cases, Elem, List, Option, Option-cases, [], arith, false, inl, inr, leb, length, none, not,
  refl, replicate, some, subst, sym, true, ℕ, ℤ, ◌&&◌, ◌<◌, ◌==◌, ◌∙◌, ◌∷◌, ◌≡◌, ◌≢◌, ◌≤◌, ◌⊎◌,
}
use hill_grov.Cmd.{bad_args, unknown_cmd, Core, CmdEntry, Err, Request, Result, Session, err, ok}
use hill_grov.Cmd.Args.{fits, has, match_row, parse_args}
use hill_grov.Cmd.Values.{AreRead, parse_args-AreRead}
use hill_grov.Cmd.Dispatch.{helping, plain}
use hill_grov.Cmd.Rows.{
  Action, Found, call, find_row, forward, gate, gated, help, is_count, local, or_else, reject,
  arg_range, verb_get, request, run_row, single, split, verb_of, from_noun, is_master, is_http,
}

-- A number of arguments that a row takes: its keys for GET, and else between its least and its most
abbrev pub IsCount : ℕ → CmdEntry → ℕ → Type 0
IsCount vbit e n =
    ((vbit ≡ verb_get) × (n ≡ e.n_key)) ⊎ ((vbit ≢ verb_get) × (e.min_args ≤ n) × (n ≤ e.max_args))

is_count-IsCount : (vbit : ℕ) (e : CmdEntry) (n : ℕ) → is_count vbit e n ≡ true → IsCount vbit e n
unfolding arg_range
is_count-IsCount vbit e n h = elim (Bool-cases (vbit == verb_get)) [
  | inl b ↦ inl (ground (arith, b), ground (arith, b, h))
  | inr b ↦ inr (ground (arith, b), ground (arith, b, h), ground (arith, b, h))
]

-- What the dispatcher has checked of a row and a request when it runs the row's handler
pub record Allowed (core : Core) (ses : Session) (now : ℕ) (e : CmdEntry) (q : Request)
    : Type 0 where
  pub in_table : Elem e core.table
  pub verb_taken : has e.verbs q.verb ≡ true
  pub at_master : (has e.flags 4 && not (is_master core.role)) ≡ false
  pub at_zone : (has e.flags 8 && is_master core.role) ≡ false
  pub not_http : (has e.flags 16 && is_http ses.source) ≡ false
  pub unlocked : (has e.flags 2 && leb ses.unlock_until_ms now) ≡ false
  pub count : IsCount q.verb e (length q.tok)
  pub values : AreRead e.args q.tok q.val

-- The actions that the dispatcher may take: a forward goes from a master with a ring to one of the
-- zones 1 to 8.
pub data Permitted (core : Core) (ses : Session) (now : ℕ) : Action → Type 0 where
  rejected : (x : Err) → Permitted core ses now (reject x)
  helped : (toks : List (List ℕ)) → Permitted core ses now (help toks)
  forwarded :
      (id : ℕ) (line : List ℕ)
      → is_master core.role ≡ true
      → core.has_forward ≡ true
      → 0 < id
      → id ≤ 8
      → Permitted core ses now (forward id line)
  called :
      (e : CmdEntry) (q : Request) → Allowed core ses now e q → Permitted core ses now (call e q)

match_row-Elem :
    (table : List CmdEntry) (vbit : ℕ) (n1 : List ℕ) (n2 : Option (List ℕ)) (e : CmdEntry)
    → match_row table vbit n1 n2 ≡ some e
    → Elem e table × (has e.verbs vbit ≡ true)
unfolding match_row
match_row-Elem [] vbit n1 n2 e h = absurd (cc)
match_row-Elem (r ∷ table) vbit n1 n2 e h = elim (Bool-cases (fits vbit n1 n2 r)) [
  | inl b ↦
      let same : some r ≡ some e = sym (rw (b, match_row) refl) ∙ h in
      subst (λ x. Elem x (r ∷ table) × (has x.verbs vbit ≡ true)) (cc)
        (Elem.first table, ground (arith, b))
  | inr b ↦
      let rest = match_row-Elem table vbit n1 n2 e (sym (rw (b, match_row) refl) ∙ h) in
      (Elem.later r rest.0, rest.1)
]

-- A row that was found has what every match has.
module _ (P : CmdEntry → Type 0) where
  or_else-found :
      (o : Option CmdEntry) (args : List (List ℕ)) (other : Found) (e : CmdEntry)
      (as_read : List (List ℕ))
      → ((r : CmdEntry) → o ≡ some r → P r)
      → ((r : CmdEntry) (l : List (List ℕ)) → other ≡ some (r, l) → P r)
      → or_else o args other ≡ some (e, as_read)
      → P e
  or_else-found none args other e l h k f = k e l f
  or_else-found (some r) args other e l h k f = subst P (cc) (h r refl)

  module _ (table : List CmdEntry) (vbit : ℕ) where
    single-found :
        (n1 : List ℕ) (rest args : List (List ℕ)) (e : CmdEntry)
        → ((n2 : Option (List ℕ)) (r : CmdEntry) → match_row table vbit n1 n2 ≡ some r → P r)
        → single table vbit n1 rest ≡ some (e, args)
        → P e
    single-found n1 rest args e h f =
        or_else-found (match_row table vbit n1 none) rest none e args (h none)
          (λ r l k. absurd (cc)) f

    split-found :
        (n1 : List ℕ) (rest args : List (List ℕ)) (e : CmdEntry)
        → ((n2 : Option (List ℕ)) (r : CmdEntry) → match_row table vbit n1 n2 ≡ some r → P r)
        → split table vbit n1 rest ≡ some (e, args)
        → P e
    split-found n1 [] args e h f = single-found n1 [] args e h f
    split-found n1 (a ∷ []) args e h f = single-found n1 (a ∷ []) args e h f
    split-found n1 (a ∷ n2 ∷ after) args e h f =
        or_else-found (match_row table vbit n1 (some n2)) (a ∷ after)
          (single table vbit n1 (a ∷ n2 ∷ after)) e args (h (some n2))
          (λ r l k. single-found n1 (a ∷ n2 ∷ after) l r h k) f

    find_row-found :
        (toks args : List (List ℕ)) (e : CmdEntry)
        → ((n1 : List ℕ) (n2 : Option (List ℕ)) (r : CmdEntry)
            → match_row table vbit n1 n2 ≡ some r
            → P r)
        → find_row table vbit toks ≡ some (e, args)
        → P e
    unfolding find_row
    find_row-found [] args e h f = absurd (cc)
    find_row-found (n1 ∷ []) args e h f = single-found n1 [] args e (h n1) f
    find_row-found (n1 ∷ n2 ∷ after) args e h f =
        or_else-found (match_row table vbit n1 (some n2)) after (split table vbit n1 (n2 ∷ after)) e
          args (h n1 (some n2)) (λ r l k. split-found n1 (n2 ∷ after) l r (h n1) k) f

request-Permitted :
    (core : Core) (ses : Session) (now vbit : ℕ) (e : CmdEntry) (args : List (List ℕ))
    (r : Result (List ℤ × List ℕ))
    → ((vs : List ℤ) (m : List ℕ)
        → r ≡ ok (vs, m)
        → Allowed core ses now e (record { verb = vbit; tok = args; val = vs; mac = m }))
    → Permitted core ses now (request vbit e args r)
request-Permitted core ses now vbit e args (err x) h = rejected x
request-Permitted core ses now vbit e args (ok (vs, m)) h =
    called e (record { verb = vbit; tok = args; val = vs; mac = m }) (h vs m refl)

-- The four gates are open when there is no error.
gate-none :
    (core : Core) (ses : Session) (now : ℕ) (e : CmdEntry)
    → gate core ses now e ≡ none
    → ((has e.flags 4 && not (is_master core.role)) ≡ false)
      × ((has e.flags 8 && is_master core.role) ≡ false)
      × ((has e.flags 16 && is_http ses.source) ≡ false)
      × ((has e.flags 2 && leb ses.unlock_until_ms now) ≡ false)
unfolding gate
gate-none core ses now e h =
    (ground (arith, h), ground (arith, h), ground (arith, h), ground (arith, h))

gated-Permitted :
    (core : Core) (ses : Session) (now vbit : ℕ) (e : CmdEntry) (args : List (List ℕ))
    → Elem e core.table
    → has e.verbs vbit ≡ true
    → (o : Option Err) → gate core ses now e ≡ o
    → Permitted core ses now (gated o vbit e args)
gated-Permitted core ses now vbit e args el hv (some x) h = rejected x
gated-Permitted core ses now vbit e args el hv none h =
    let g = gate-none core ses now e h in
    elim (Bool-cases (is_count vbit e (length args))) [
      | inr b ↦ rw (b, gated) (rejected bad_args)
      | inl b ↦
          rw (b, gated)
            (request-Permitted core ses now vbit e args (parse_args e.args args (replicate 6 0))
              (λ vs m k. record {
                in_table = el;
                verb_taken = hv;
                at_master = g.0;
                at_zone = g.1;
                not_http = g.2;
                unlocked = g.3;
                count = is_count-IsCount vbit e (length args) b;
                values = parse_args-AreRead e.args args (replicate 6 0) vs m k;
              }))
    ]

run_row-Permitted :
    (core : Core) (ses : Session) (now vbit : ℕ) (o : Found)
    → ((e : CmdEntry) (args : List (List ℕ))
        → o ≡ some (e, args)
        → Elem e core.table × (has e.verbs vbit ≡ true))
    → Permitted core ses now (run_row core ses now vbit o)
run_row-Permitted core ses now vbit none h = rejected unknown_cmd
run_row-Permitted core ses now vbit (some (e, args)) h =
    let found = h e args refl in
    gated-Permitted core ses now vbit e args found.0 found.1 (gate core ses now e) refl

local-Permitted :
    (core : Core) (ses : Session) (now : ℕ) (v : List ℕ) (rest : List (List ℕ))
    → Permitted core ses now (local core ses now v rest)
unfolding local
local-Permitted core ses now v rest =
    let vb = verb_of v in
    run_row-Permitted core ses now vb.0 (find_row core.table vb.0 (from_noun vb.1 v rest))
      (λ e args f.
        find_row-found (λ r. Elem r core.table × (has r.verbs vb.0 ≡ true)) core.table vb.0
          (from_noun vb.1 v rest) args e (λ n1 n2 r k. match_row-Elem core.table vb.0 n1 n2 r k) f)

plain-Permitted :
    (core : Core) (ses : Session) (now : ℕ) (v : List ℕ) (rest : List (List ℕ))
    → Permitted core ses now (plain core ses now v rest)
plain-Permitted core ses now v rest = elim (Option-cases (helping (v ∷ rest))) [
  | inl h ↦ rw (h, plain) (local-Permitted core ses now v rest)
  | inr (toks, h) ↦ rw (h, plain) (helped toks)
]
