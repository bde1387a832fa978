-- ===== src/Ring/Dup/AtMostOnce.antt =====
-- A zone that starts a command, finishes it late and hears it again: when it executes again.
use hill_grov.Base.{
  All, List, Option, [], ap, arith, if◌then◌else◌, leb, none, refl, some, sub32, take, ℕ, ◌%◌, ◌+◌,
  ◌-◌, ◌<◌, ◌∙◌, ◌∷◌, ◌≡◌, ◌≢◌, ◌≤◌,
}
use hill_grov.Ring.Dup.{Dup, check, start, done, dup_exec, dup_absorb, dup_replay}

-- The clock of the board, in milliseconds since it started, is read modulo 2 ^ 32.
abbrev pub clock_at : ℕ → ℕ
clock_at t = t % 4294967296

-- A completion of a command: its sequence number, status, text, which may be a null pointer, and
-- time.
abbrev pub Completion : Type 0
Completion = ℕ × ℕ × Option (List ℕ) × ℕ

-- Completions that come in for commands, in order.
unfoldable pub completions : List Completion → Dup → Dup
completions [] c = c
completions ((seq, status, detail, now) ∷ rest) c = completions rest (done c seq status detail now)

abbrev pub Others : ℕ → List Completion → Type 0
Others seq = All (λ o. o.0 ≢ seq)

-- The text that a replay sends, of the text that the completion gave: 125 bytes at most
abbrev pub replayed_text : Option (List ℕ) → List ℕ
replayed_text none = []
replayed_text (some text) = take 125 text

done-other :
    (c : Dup) (seq status : ℕ) (detail : Option (List ℕ)) (now : ℕ)
    → seq ≢ c.seq
    → done c seq status detail now ≡ c
unfolding done
done-other c seq status detail now ne = ground arith

completions-Others : (os : List Completion) (c : Dup) → Others c.seq os → completions os c ≡ c
unfolding completions
completions-Others [] c h = refl
completions-Others ((seq, status, detail, now) ∷ os) c h =
    ap (completions os) (done-other c seq status detail now h.0) ∙ completions-Others os c h.1

-- While a command runs every copy of it is absorbed, at any time and whatever completions of other
-- sequence numbers, with or without a text, came in since it was started.
pub absorbed_while_running :
    (c : Dup) (seq t0 now : ℕ) (os : List Completion)
    → Others seq os
    → check (completions os (start c seq t0)) seq now ≡ dup_absorb
absorbed_while_running c seq t0 now os h =
    ap (λ d. check d seq now) (completions-Others os (start c seq t0) (unfold start in h)) ∙ running
  where
    running : check (start c seq t0) seq now ≡ dup_absorb
    running = unfold check start in ground arith

-- Once a command is done, and whatever completions of other sequence numbers come then, with or without a text, a copy
-- of it is answered from the cache, with the status and the text of the completion, for 3000 ms from the
-- completion however long the command ran, and executed anew after that, until 2 ^ 32 ms have
-- passed. The 32-bit clock may wrap in between.
pub replayed_after_done :
    (c : Dup) (seq t0 t1 t status : ℕ) (detail : Option (List ℕ)) (os : List Completion)
    → Others seq os
    → t1 ≤ t
    → t < t1 + 4294967296
    → let c' = completions os (done (start c seq (clock_at t0)) seq status detail (clock_at t1)) in
      (check c' seq (clock_at t) ≡ (if leb (t - t1) 3000 then dup_replay else dup_exec))
      × (c'.status ≡ status)
      × (c'.detail ≡ replayed_text detail)
replayed_after_done c seq t0 t1 t status detail os h le lt =
    let c' = done (start c seq (clock_at t0)) seq status detail (clock_at t1) in
    rw (completions-Others os c' (rw same_seq h)) (answer, kept, text detail)
  where
    same_seq : (done (start c seq (clock_at t0)) seq status detail (clock_at t1)).seq ≡ seq
    same_seq = unfold done start in ground arith

    kept : (done (start c seq (clock_at t0)) seq status detail (clock_at t1)).status ≡ status
    kept = unfold done start in ground arith

    text :
        (d : Option (List ℕ))
        → (done (start c seq (clock_at t0)) seq status d (clock_at t1)).detail ≡ replayed_text d
    text none = unfold done start in ground arith
    text (some d) = unfold done start in ground arith

    elapsed : sub32 (clock_at t) (clock_at t1) ≡ t - t1
    elapsed = omega arith

    answer :
        check (done (start c seq (clock_at t0)) seq status detail (clock_at t1)) seq (clock_at t)
        ≡ (if leb (t - t1) 3000 then dup_replay else dup_exec)
    answer = unfold check done start in ground (arith, elapsed)
