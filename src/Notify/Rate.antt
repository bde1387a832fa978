-- ===== src/Notify/Rate.antt =====
-- The limit of the rate in components/notify/notify.c.
use hill_grov.Base.{
  ==_iff, Bool, Bool-cases, List, [], ap, arith, false, get_or, get_or-set_ne, get_or-set_self,
  if_lem, if◌then◌else◌, inl, inr, length, length-set, ltb, not, refl, set, sub32, sym, true, ℕ,
  ◌&&◌, ◌<◌, ◌==◌, ◌∙◌, ◌∷◌, ◌≡◌, ◌≢◌, ◌≤◌, ◌⊎◌,
}
use hill_grov.Notify.{
  Notify, NtfType, emit_v, idx_of, interval_ms, last_of, line_of, ntf_count, ntf_idx_n, ntf_never,
  number_of, takers, with_last,
}

number-lt : (t : NtfType) → number_of t < ntf_count
number-lt t = ground arith

-- The table has a row for each type, and the row of this type a place for each index.
pub record IsTable (s : Notify) (t : NtfType) : Type 0 where
  pub rows : length s.last_ms ≡ ntf_count
  pub places : length (get_or s.last_ms (number_of t) []) ≡ ntf_idx_n

-- One event of the rate limit is not the other.
abbrev pub is_same : NtfType → ℕ → NtfType → ℕ → Bool
is_same t i u j = number_of t == number_of u && idx_of i == idx_of j

last_of_self :
    (s : Notify) (t : NtfType) (idx now : ℕ)
    → IsTable s t
    → last_of (with_last s t (idx_of idx) now) t (idx_of idx) ≡ now
last_of_self s t idx now h =
    let n = number-lt t in
    ap (λ row. get_or row (idx_of idx) ntf_never)
      (get_or-set_self s.last_ms (number_of t)
        (set (get_or s.last_ms (number_of t) []) (idx_of idx) now) [] (omega (arith, n, h.rows)))
    ∙ get_or-set_self (get_or s.last_ms (number_of t) []) (idx_of idx) now ntf_never
        (omega (arith, h.places))

last_of_other :
    (s : Notify) (t u : NtfType) (i j now : ℕ)
    → length s.last_ms ≡ ntf_count
    → is_same t i u j ≡ false
    → last_of (with_last s u (idx_of j) now) t (idx_of i) ≡ last_of s t (idx_of i)
last_of_other s t u i j now h apart = elim (Bool-cases (number_of t == number_of u)) [
  | inr b ↦
      ap (λ row. get_or row (idx_of i) ntf_never)
        (get_or-set_ne s.last_ms (number_of u) (number_of t)
          (set (get_or s.last_ms (number_of u) []) (idx_of j) now) []
          (λ e. absurd (ground (arith, b, e))))
  | inl b ↦ same_row ((==_iff (number_of t) (number_of u)).0 b) (ground (arith, b, apart))
]
  where
    same_row :
        number_of t ≡ number_of u
        → (idx_of i == idx_of j) ≡ false
        → last_of (with_last s u (idx_of j) now) t (idx_of i) ≡ last_of s t (idx_of i)
    same_row e d =
        let n = number-lt u in
        let row : List ℕ = get_or s.last_ms (number_of u) [] in
        ap
          (λ k.
            get_or (get_or (set s.last_ms (number_of u) (set row (idx_of j) now)) k []) (idx_of i)
              ntf_never)
          e
        ∙ ap (λ r. get_or r (idx_of i) ntf_never)
            (get_or-set_self s.last_ms (number_of u) (set row (idx_of j) now) []
              (omega (arith, n, h)))
        ∙ get_or-set_ne row (idx_of j) (idx_of i) now ntf_never (λ q. absurd (ground (arith, d, q)))
        ∙ ap (λ k. get_or (get_or s.last_ms k []) (idx_of i) ntf_never) (sym e)

-- A line of another event: its type, index, node, text and time
abbrev pub Other : Type 0
Other = NtfType × ℕ × ℕ × List ℕ × ℕ

unfoldable pub after_others : Notify → List Other → Notify
after_others s [] = s
after_others s ((u, j, node_id, content, now) ∷ others) =
    after_others (emit_v s u j node_id content now).0 others

-- What a line leaves as it was: the sinks, the size of the table, and the times of the other events
record Kept (s after : Notify) (t : NtfType) (i : ℕ) : Type 0 where
  sinks : after.sinks ≡ s.sinks
  rows : length after.last_ms ≡ ntf_count
  last : last_of after t (idx_of i) ≡ last_of s t (idx_of i)

emit-Kept :
    (s : Notify) (t u : NtfType) (i j node_id : ℕ) (content : List ℕ) (now : ℕ)
    → length s.last_ms ≡ ntf_count
    → is_same t i u j ≡ false
    → Kept s (emit_v s u j node_id content now).0 t i
unfolding emit_v
emit-Kept s t u i j node_id content now h apart =
    if_lem (λ (r : Notify × List ℕ × List ℕ). Kept s r.0 t i)
      (not (last_of s u (idx_of j) == ntf_never)
        && ltb (sub32 now (last_of s u (idx_of j))) (interval_ms u))
      _ _ (λ c. record { sinks = refl; rows = h; last = refl })
      (λ c. record {
        sinks = refl;
        rows =
            length-set s.last_ms (number_of u)
              (set (get_or s.last_ms (number_of u) []) (idx_of j) now)
            ∙ h;
        last = last_of_other s t u i j now h apart;
      })

-- None of the lines is of this event.
unfoldable pub AllApart : NtfType → ℕ → List Other → Type 0
AllApart t i [] = Unit
AllApart t i ((u, j, node_id, content, now) ∷ others) =
    (is_same t i u j ≡ false) × AllApart t i others

others-Kept :
    (s : Notify) (t : NtfType) (i : ℕ) (others : List Other)
    → length s.last_ms ≡ ntf_count
    → AllApart t i others
    → Kept s (after_others s others) t i
unfolding after_others AllApart
others-Kept s t i [] h a = record { sinks = refl; rows = h; last = refl }
others-Kept s t i ((u, j, node_id, content, now) ∷ others) h (a, rest_apart) =
    let one = emit-Kept s t u i j node_id content now h a in
    let rest = others-Kept (emit_v s u j node_id content now).0 t i others one.rows rest_apart in
    record { sinks = rest.sinks ∙ one.sinks; rows = rest.rows; last = rest.last ∙ one.last }

held_test :
    (last first now interval : ℕ)
    → last ≡ first
    → first ≢ ntf_never
    → (not (last == ntf_never) && ltb (sub32 now last) interval) ≡ ltb (sub32 now first) interval
held_test last first now interval e ne =
    let z : (first == ntf_never) ≡ false = ground (arith, ne) in
    ap (λ l. not (l == ntf_never) && ltb (sub32 now l) interval) e
    ∙ ap (λ b. not b && ltb (sub32 now first) interval) z

next_after :
    (s : Notify) (t : NtfType) (idx then_idx first now : ℕ) (others : List Other) (node_id : ℕ)
    (content : List ℕ)
    → IsTable s t
    → first ≢ ntf_never
    → idx_of then_idx ≡ idx_of idx
    → AllApart t idx others
    → (emit_v
        (after_others (with_last s t (idx_of idx) first) others)
        t
        then_idx
        node_id
        content
        now).1
      ≡ (if ltb (sub32 now first) (interval_ms t) then [] else takers t 0 s.sinks)
unfolding emit_v
next_after s t idx then_idx first now others node_id content h ne same a =
    let k =
      others-Kept (with_last s t (idx_of idx) first) t idx others
        (length-set s.last_ms (number_of t)
            (set (get_or s.last_ms (number_of t) []) (idx_of idx) first)
          ∙ h.rows)
        a in
    let after : Notify = after_others (with_last s t (idx_of idx) first) others in
    let last : last_of after t (idx_of then_idx) ≡ first =
      ap (last_of after t) same ∙ k.last ∙ last_of_self s t idx first h in
    let test = held_test (last_of after t (idx_of then_idx)) first now (interval_ms t) last ne in
    if_lem
      (λ (r : Notify × List ℕ × List ℕ).
        r.1 ≡ (if ltb (sub32 now first) (interval_ms t) then [] else takers t 0 s.sinks))
      (not (last_of after t (idx_of then_idx) == ntf_never)
        && ltb (sub32 now (last_of after t (idx_of then_idx))) (interval_ms t))
      _ _
      (λ c.
        let f : ltb (sub32 now first) (interval_ms t) ≡ true = sym test ∙ c in
        sym (ap (λ b. if b then [] else takers t 0 s.sinks) f))
      (λ c.
        let f : ltb (sub32 now first) (interval_ms t) ≡ false = sym test ∙ c in
        ap (takers t 0) k.sinks ∙ sym (ap (λ b. if b then [] else takers t 0 s.sinks) f))

due_test :
    (last interval now : ℕ)
    → (last ≡ ntf_never) ⊎ (interval ≤ sub32 now last)
    → (not (last == ntf_never) && ltb (sub32 now last) interval) ≡ false
due_test last interval now h = ground (arith, h)

-- The event had no line yet, or its interval is over.
abbrev pub IsDue : Notify → NtfType → ℕ → ℕ → Type 0
IsDue s t idx now =
    (last_of s t (idx_of idx) ≡ ntf_never) ⊎ (interval_ms t ≤ sub32 now (last_of s t (idx_of idx)))

due-emitted :
    (s : Notify) (t : NtfType) (idx node_id : ℕ) (content : List ℕ) (now : ℕ)
    → IsDue s t idx now
    → (emit_v s t idx node_id content now).0 ≡ with_last s t (idx_of idx) now
unfolding emit_v
due-emitted s t idx node_id content now h =
    let e : (not (last_of s t (idx_of idx) == ntf_never)
          && ltb (sub32 now (last_of s t (idx_of idx))) (interval_ms t))
        ≡ false =
      due_test (last_of s t (idx_of idx)) (interval_ms t) now h in
    ap
      (λ b.
        let r : Notify × List ℕ × List ℕ =
          if b
          then (s, [], [])
          else (with_last s t (idx_of idx) now, takers t 0 s.sinks, line_of t node_id content) in
        r.0)
      e

-- After a line of an event that was due, at a time that is not 2 ^ 32 - 1, in a table with the
-- size of the code's, and whatever lines of other events come then, the next line of that event
-- is given to no sink when less than the interval of its type has passed, on the 32-bit clock,
-- and otherwise to each sink that takes the type.
pub next_line :
    (s : Notify) (t : NtfType) (idx then_idx first now : ℕ) (others : List Other)
    (node_id then_id : ℕ) (content later : List ℕ)
    → IsTable s t
    → first ≢ ntf_never
    → IsDue s t idx first
    → idx_of then_idx ≡ idx_of idx
    → AllApart t idx others
    → (emit_v
        (after_others (emit_v s t idx node_id content first).0 others)
        t
        then_idx
        then_id
        later
        now).1
      ≡ (if ltb (sub32 now first) (interval_ms t) then [] else takers t 0 s.sinks)
next_line s t idx then_idx first now others node_id then_id content later h ne due same a =
    ap (λ r. (emit_v (after_others r others) t then_idx then_id later now).1)
      (due-emitted s t idx node_id content first due)
    ∙ next_after s t idx then_idx first now others then_id later h ne same a
