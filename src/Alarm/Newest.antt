-- ===== src/Alarm/Newest.antt =====
-- The ring gives back the newest events, and never one that has been overwritten.
use native.Mathlib.Nat.{add-zero}
use hill_grov.Base.{
  Bool-cases, List, [], ap, append-nil, append_assoc, arith, false, get_or, get_or-append_left,
  get_or-append_right, get_or-set_ne, get_or-set_self, if◌then◌else◌, inl, inr, leb, leb→le, length,
  length-append, length-replicate, length-set, ltb, none, refl, set, some, sub32, sym, true, ℕ,
  ℕ-cases, ◌%◌, ◌++◌, ◌+◌, ◌-◌, ◌<◌, ◌∙◌, ◌∷◌, ◌≡◌, ◌≤◌,
}
use hill_grov.Alarm.{AlarmEvent, no_event, Log, log_init, log_event, copy_event}

-- Events that are recorded one after the other.
unfoldable pub log_all : List AlarmEvent → Log → Log
log_all [] l = l
log_all (e ∷ es) l = log_all es (log_event l e)

-- The last 64 of the events so far stand at their places.
record Holds (l : Log) (es : List AlarmEvent) : Type 0 where
  total : l.total ≡ length es
  size : length l.ring ≡ 64
  at_place :
      (k : ℕ)
      → k < length es
      → length es ≤ k + 64
      → get_or l.ring (k % 64) no_event ≡ get_or es k no_event

log_event-Holds :
    (l : Log) (es : List AlarmEvent) (e : AlarmEvent)
    → Holds l es
    → length es + 1 < 4294967296
    → Holds (log_event l e) (es ++ e ∷ [])
unfolding log_event
log_event-Holds l es e h lt = record {
  total = omega (arith, length-append es (e ∷ []), h.total);
  size = length-set l.ring (l.total % 64) e ∙ h.size;
  at_place = λ k kl recent.
      place k (omega (arith, kl, length-append es (e ∷ [])))
        (omega (arith, recent, length-append es (e ∷ [])));
}
  where
    place :
        (k : ℕ)
        → k < length es + 1
        → length es + 1 ≤ k + 64
        → get_or (set l.ring (l.total % 64) e) (k % 64) no_event ≡ get_or (es ++ e ∷ []) k no_event
    place k kl recent = elim (ℕ-cases k (length es)) [
      | inl older ↦
          get_or-set_ne l.ring (l.total % 64) (k % 64) e no_event (λ q. omega (arith, q, h.total))
          ∙ h.at_place k older (omega arith)
          ∙ sym (get_or-append_left es (e ∷ []) k no_event older)
      | inr (inl newest) ↦
          ap (λ j. get_or (set l.ring j e) (k % 64) no_event) (omega (arith, h.total))
          ∙ get_or-set_self l.ring (k % 64) e no_event (omega (arith, h.size))
          ∙ sym (get_or-append_right es (e ∷ []) 0 no_event)
          ∙ ap (λ j. get_or (es ++ e ∷ []) j no_event) (omega (arith, add-zero (length es)))
      | inr (inr beyond) ↦ absurd (omega arith)
    ]

log_all-Holds :
    (new : List AlarmEvent) (l : Log) (es : List AlarmEvent)
    → Holds l es
    → length es + length new < 4294967296
    → Holds (log_all new l) (es ++ new)
unfolding log_all
log_all-Holds [] l es h lt = rw append-nil h
log_all-Holds (e ∷ new) l es h lt = rw append_assoc at (
    log_all-Holds new (log_event l e) (es ++ e ∷ []) (log_event-Holds l es e h (omega arith))
      (omega (arith, length-append es (e ∷ []))))

init-Holds : Holds log_init []
init-Holds = record {
  total = refl;
  size = length-replicate 64 no_event;
  at_place = λ k lt r. absurd (omega arith);
}

-- When events have been recorded since the start, fewer than 2 ^ 32 in all, some of them after the
-- total was read: for `i` below 64 the `i`-th newest of those before is given as long as at most 64
-- events came from it on, and nothing is given after that.
pub copy_event-log_all :
    (es more : List AlarmEvent) (i : ℕ)
    → i < length es
    → i < 64
    → length es + length more < 4294967296
    → copy_event (log_all (es ++ more) log_init) (length es) i ≡ (
        if leb (i + 1 + length more) 64
        then some (get_or es (length es - 1 - i) no_event)
        else none)
unfolding copy_event
copy_event-log_all es more i lt few fits =
    let h =
      log_all-Holds (es ++ more) log_init [] init-Holds (omega (arith, length-append es more)) in
    let age : ℕ = length es - 1 - i in
    let total : (log_all (es ++ more) log_init).total ≡ length es + length more =
      h.total ∙ length-append es more in
    let seq : sub32 (sub32 (length es) 1) i ≡ age = omega arith in
    let gap : sub32 (log_all (es ++ more) log_init).total age ≡ i + 1 + length more =
      omega (arith, total) in
    let kept : leb (if ltb (length es) 64 then length es else 64) i ≡ false = ground arith in
    let found : leb (i + 1 + length more) 64 ≡ true
        → get_or (log_all (es ++ more) log_init).ring (age % 64) no_event ≡ get_or es age no_event =
      λ e.
        h.at_place age (omega (arith, length-append es more))
          (omega (arith, leb→le (i + 1 + length more) 64 e, length-append es more))
        ∙ get_or-append_left es more age no_event (omega arith) in
    rw (seq, kept, gap)
      (elim (Bool-cases (leb (i + 1 + length more) 64)) [
        | inl live ↦ rw live (ap some (found live))
        | inr gone ↦ rw gone refl
      ])
