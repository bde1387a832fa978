-- ===== src/CfgSync/Fair.antt =====
-- What the tick of components/node_mgr/node_mgr_cfg.c starts: one transfer at most, for a request of an
-- operator or for a zone whose heartbeat has not been used for a decision yet.
use hill_grov.Base.{
  Bool, List, Option, [], ap, arith, false, get_or, if_lem, inl, inr, none, not, refl, set, some,
  subst, suc, true, zero, ℕ, ◌&&◌, ◌+◌, ◌-◌, ◌==◌, ◌||◌, ◌∷◌, ◌≡◌, ◌≢◌, ◌⊎◌,
}
use hill_grov.CfgSync.{Identity, Row, Zone, cooling_down}
use hill_grov.CfgSync.Decide.{Start, push, push_gen_for, start_set_req}
use hill_grov.CfgSync.Writes.{Inbox, Payload, take_set_req}
use hill_grov.Ring.Health.{Health, offline, updating}
use hill_grov.NodeStore.{hg_max_zones}
use hill_grov.CfgSync.Tick.{
  cfg_tick, automatic, start_queued, taken, Sync, decide, is_away, next, no_row, no_zone, place_of,
  scan_zones, visit, zone_at,
}

cooling_down-fresh : (z : Zone) (now : ℕ) → (cooling_down z now).1.fresh ≡ z.fresh
unfolding cooling_down
cooling_down-fresh z now = ground arith

-- A zone whose heartbeat is used, put in its place, gives no zone a fresh one.
used-fresh :
    (zones : List Zone) (k j : ℕ) (z : Zone)
    → z.fresh ≡ false
    → (get_or (set zones k z) j no_zone).fresh ≡ true
    → (get_or zones j no_zone).fresh ≡ true
used-fresh [] k j z e h = h
used-fresh (x ∷ zones) zero zero z e h = absurd (cc)
used-fresh (x ∷ zones) zero (suc j) z e h = h
used-fresh (x ∷ zones) (suc k) zero z e h = h
used-fresh (x ∷ zones) (suc k) (suc j) z e h = used-fresh zones k j z e h

used_self :
    (zones : List Zone) (k : ℕ) (z : Zone)
    → z.fresh ≡ false
    → (get_or (set zones k z) k no_zone).fresh ≡ false
used_self [] k z e = refl
used_self (x ∷ zones) zero z e = e
used_self (x ∷ zones) (suc k) z e = used_self zones k z e

-- A zone that has a fresh heartbeat after a visit had it before.
visit-fresh :
    (s : Sync) (k j : ℕ) (n : Row) (now : ℕ)
    → (zone_at (visit s k n now).0 j).fresh ≡ true
    → (zone_at s j).fresh ≡ true
unfolding visit decide
visit-fresh s k j n now h =
    let z : Zone = record (zone_at s k) { fresh = false } in
    let cooled = cooling_down-fresh z now in
    if_lem (λ (r : Sync × Option Start). (zone_at r.0 j).fresh ≡ true → (zone_at s j).fresh ≡ true)
      (not (zone_at s k).fresh) _ _ (λ a f. f)
      (λ a.
        if_lem
          (λ (r : Sync × Option Start). (zone_at r.0 j).fresh ≡ true → (zone_at s j).fresh ≡ true)
          (not n.used || is_away n.health) _ _ (λ b f. used-fresh s.zones k j z refl f)
          (λ b.
            if_lem
              (λ (r : Sync × Option Start).
                (zone_at r.0 j).fresh ≡ true → (zone_at s j).fresh ≡ true)
              (cooling_down z now).0 _ _
              (λ c f. used-fresh s.zones k j (cooling_down z now).1 cooled f)
              (λ c f. used-fresh s.zones k j (cooling_down z now).1 cooled f)))
      h

is_away-apart : (h : Health) → is_away h ≡ false → (h ≢ offline) × (h ≢ updating)
is_away-apart h e = (λ f. let g = rw f at e in absurd (cc), λ f. let g = rw f at e in absurd (cc))

-- A heartbeat that was not used yet, of a zone that is in the table and neither offline nor updating,
-- and that is used afterwards
abbrev pub Found : Sync → ℕ → Row → Sync → Type 0
Found s k n after =
    ((zone_at s k).fresh ≡ true)
    × (n.used ≡ true)
    × (n.health ≢ offline)
    × (n.health ≢ updating)
    × ((zone_at after k).fresh ≡ false)

-- What a visit that starts a transfer has found
visit-started :
    (s : Sync) (k : ℕ) (n : Row) (now : ℕ) (st : Start)
    → (visit s k n now).1 ≡ some st
    → Found s k n (visit s k n now).0
unfolding visit decide
visit-started s k n now st h =
    let z : Zone = record (zone_at s k) { fresh = false } in
    let cooled = cooling_down-fresh z now in
    if_lem (λ (r : Sync × Option Start). r.1 ≡ some st → Found s k n r.0) (not (zone_at s k).fresh)
      _ _ (λ a f. absurd (cc))
      (λ a.
        if_lem (λ (r : Sync × Option Start). r.1 ≡ some st → Found s k n r.0)
          (not n.used || is_away n.health) _ _ (λ b f. absurd (cc))
          (λ b.
            if_lem (λ (r : Sync × Option Start). r.1 ≡ some st → Found s k n r.0)
              (cooling_down z now).0 _ _ (λ c f. absurd (cc))
              (λ c f. (
                ground (arith, a),
                ground (arith, b),
                (is_away-apart n.health (ground (arith, b))).0,
                (is_away-apart n.health (ground (arith, b))).1,
                used_self s.zones k (cooling_down z now).1 cooled,
              ))))
      h

scan-started :
    (m i : ℕ) (s after : Sync) (rows : List Row) (now k : ℕ) (st : Start)
    → scan_zones m i s rows now ≡ (after, some (k, st))
    → Found s k (get_or rows k no_row) after
unfolding scan_zones
scan-started zero i s after rows now k st h = absurd (cc)
scan-started (suc m) i s after rows now k st h =
    from (visit s (place_of s i) (get_or rows (place_of s i) no_row) now)
      (λ x e. visit-started s (place_of s i) (get_or rows (place_of s i) no_row) now x e)
      (λ j e. visit-fresh s (place_of s i) j (get_or rows (place_of s i) no_row) now e)
      (λ t e. scan-started m (suc i) t after rows now k st e) h
  where
    from :
        (r : Sync × Option Start)
        → ((x : Start)
            → r.1 ≡ some x
            → Found s (place_of s i) (get_or rows (place_of s i) no_row) r.0)
        → ((j : ℕ) → (zone_at r.0 j).fresh ≡ true → (zone_at s j).fresh ≡ true)
        → ((t : Sync)
            → scan_zones m (suc i) t rows now ≡ (after, some (k, st))
            → Found t k (get_or rows k no_row) after)
        → next (place_of s i) r (λ t. scan_zones m (suc i) t rows now) ≡ (after, some (k, st))
        → Found s k (get_or rows k no_row) after
    from (t, none) here mono later e =
        let found = later t e in (mono k found.0, found.1, found.2, found.3, found.4)
    from (t, some x) here mono later e =
        let same_s : t ≡ after = ap (λ r. r.0) e in
        let same : some (place_of s i, x) ≡ some (k, st) = ap (λ r. r.1) e in
        let same_k : place_of s i ≡ k = cc in
        subst (λ u. Found s k (get_or rows k no_row) u) same_s
          (subst (λ j. Found s j (get_or rows j no_row) t) same_k (here x refl))

-- The write that is taken stands in the queue, and does not any more afterwards.
take_set_req-place :
    (z : ℕ) (w : Inbox) (zone : ℕ) (p : Payload)
    → (take_set_req z w).0 ≡ some (zone, p)
    → (i : ℕ) × (zone ≡ z + i)
      × (get_or w i none ≡ some p)
      × (get_or (take_set_req z w).1 i none ≡ none)
unfolding take_set_req
take_set_req-place z [] zone p e = absurd (cc)
take_set_req-place z (some q ∷ w) zone p e =
    let same : z ≡ zone = cc in (0, omega (arith, same), cc, refl)
take_set_req-place z (none ∷ w) zone p e =
    let (i, a, b, c) = take_set_req-place (suc z) w zone p e in (suc i, omega (arith, a), b, c)

-- A push of a payload: the cache that it announces is the payload in the generation of the push.
abbrev IsPushOf : Payload → Start → Type 0
IsPushOf p st =
    (gen : ℕ) × (i : Identity) × (st ≡ push gen i none)
    × (i.cache_gen ≡ gen)
    × (i.cache_crc ≡ p gen)

-- A write of an operator for the zone in place `k`, which is pushed and taken from the queue
abbrev pub Written : Sync → ℕ → Start → Sync → Type 0
Written s k st after =
    ((p : Payload) × (get_or s.set_req k none ≡ some p) × IsPushOf p st)
    × (get_or after.set_req k none ≡ none)

-- A push that an operator asked for, of a configuration that the master holds
abbrev pub Asked : Sync → ℕ → Type 0
Asked s k = (s.push_req_zone ≡ suc k) × ((zone_at (taken s) k).cfg.valid ≡ true)

automatic-started :
    (s after : Sync) (left : Inbox) (rows : List Row) (now k : ℕ) (st : Start)
    → automatic (record (taken s) { set_req = left }) s.push_req_zone rows now
      ≡ (after, some (k, st))
    → Asked s k ⊎ Found (taken s) k (get_or rows k no_row) after
unfolding automatic
automatic-started s after left rows now k st h =
    if_lem
      (λ (r : Sync × Option (ℕ × Start)).
        r ≡ (after, some (k, st)) → Asked s k ⊎ Found (taken s) k (get_or rows k no_row) after)
      (not (s.push_req_zone == 0) && (zone_at (taken s) (s.push_req_zone - 1)).cfg.valid) _ _
      (λ b e.
        let place : s.push_req_zone - 1 ≡ k = cc in
        let valid : (zone_at (taken s) (s.push_req_zone - 1)).cfg.valid ≡ true =
          ground (arith, b) in
        inl (
          ground (arith, b, place),
          subst (λ j. (zone_at (taken s) j).cfg.valid ≡ true) place valid,
        ))
      (λ b e.
        inr
          (scan-started hg_max_zones 0 (record (taken s) { set_req = left }) after rows now k st e))
      h

-- When the tick of the reconciler starts a transfer, no transfer has the tick, and, once the
-- clears that were asked for are done, one of three holds. A write of an operator for the zone
-- was queued, it is what the transfer pushes, and it is not queued any more after the tick. Or an
-- operator asked for a push to the zone, and the master holds its configuration. Or the zone is
-- in the table, neither offline nor updating, and had a heartbeat that was not used for a
-- decision yet; after the tick it has none, so that each heartbeat grants one decision.
pub tick-started :
    (s after : Sync) (rows : List Row) (busy : Bool) (now k : ℕ) (st : Start)
    → cfg_tick s rows busy now ≡ (after, some (k, st))
    → (busy ≡ false)
      × (Written (taken s) k st after ⊎ Asked s k ⊎ Found (taken s) k (get_or rows k no_row) after)
unfolding cfg_tick start_set_req
tick-started s after rows true now k st h = absurd (cc)
tick-started s after rows false now k st h =
    (refl, from (take_set_req 1 (taken s).set_req) (take_set_req-place 1 (taken s).set_req) h)
  where
    from :
        (o : Option (ℕ × Payload) × Inbox)
        → ((zone : ℕ) (p : Payload)
            → o.0 ≡ some (zone, p)
            → (i : ℕ) × (zone ≡ 1 + i)
              × (get_or (taken s).set_req i none ≡ some p)
              × (get_or o.1 i none ≡ none))
        → start_queued (taken s) o s.push_req_zone rows now ≡ (after, some (k, st))
        → Written (taken s) k st after ⊎ Asked s k ⊎ Found (taken s) k (get_or rows k no_row) after
    from (none, left) place e = inr (automatic-started s after left rows now k st e)
    from (some (zone, p), left) place e =
        let (i, a, b, c) = place zone p refl in
        let same_k : zone - 1 ≡ k = cc in
        let here : i ≡ k = omega (arith, a, same_k) in
        let n : Row = get_or rows (zone - 1) no_row in
        let gen : ℕ = push_gen_for n (zone_at (taken s) (zone - 1)).cfg in
        let same_st : (start_set_req (zone_at (taken s) (zone - 1)) n p).1 ≡ st = cc in
        let queue : left ≡ after.set_req = ap (λ r. r.0.set_req) e in
        inl (
          (
            p,
            subst (λ j. get_or (taken s).set_req j none ≡ some p) here b,
            subst (IsPushOf p) same_st (gen, _, refl, refl, refl),
          ),
          subst (λ j. get_or after.set_req j none ≡ none) here
              (subst (λ w. get_or w i none ≡ none) queue c),
        )
