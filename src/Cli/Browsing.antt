-- ===== src/Cli/Browsing.antt =====
-- The walk through the history of components/cli_line/cli_line.c and back to the line that was being
-- typed.
use hill_grov.Base.{
  List, ap, arith, false, if_lem, leb, length, ltb, min, not, refl, subst, suc, take, true, zero, ℕ,
  ◌+◌, ◌-◌, ◌<◌, ◌==◌, ◌≡◌, ◌≤◌,
}
use hill_grov.Cli.{CliLine, hist_down, hist_load, hist_up}

-- The up key pressed a number of times, and the down key
pub ups : ℕ → CliLine → CliLine
ups zero l = l
ups (suc n) l = ups n (hist_up l)

pub downs : ℕ → CliLine → CliLine
downs zero l = l
downs (suc n) l = downs n (hist_down l)

-- The entry number `k` is shown, and `s` was being typed before.
record IsBrowsing (l : CliLine) (k count : ℕ) (s : List ℕ) : Type 0 where
  showing : l.browsing ≡ true
  place : l.hist_at ≡ k
  entries : l.hist_count ≡ count
  behind : l.saved ≡ s

hist_up-next :
    (l : CliLine) (k count : ℕ) (s : List ℕ)
    → k ≤ count
    → IsBrowsing l k count s
    → IsBrowsing (hist_up l) (min (suc k) count) count s
unfolding hist_up hist_load
hist_up-next l k count s small h =
    if_lem (λ (m : CliLine). IsBrowsing m (min (suc k) count) count s) l.browsing _ _
      (λ b.
        if_lem (λ (m : CliLine). IsBrowsing (hist_load m) (min (suc k) count) count s)
          (ltb l.hist_at l.hist_count) (record l { hist_at = l.hist_at + 1 }) l
          (λ c. record {
            showing = h.showing;
            place = ground (arith, c, h.place, h.entries);
            entries = h.entries;
            behind = h.behind;
          })
          (λ c. record {
            showing = h.showing;
            place = ground (arith, c, h.place, h.entries, small);
            entries = h.entries;
            behind = h.behind;
          }))
      (λ b. absurd (cc))

-- The first press keeps the text that was being typed.
hist_up-first :
    (l : CliLine)
    → l.browsing ≡ false
    → 0 < l.hist_count
    → IsBrowsing (hist_up l) 1 l.hist_count (take l.len l.buf)
unfolding hist_up hist_load
hist_up-first l h some_entry =
    if_lem (λ (m : CliLine). IsBrowsing m 1 l.hist_count (take l.len l.buf)) l.browsing _ _
      (λ b. absurd (cc))
      (λ b.
        if_lem (λ (m : CliLine). IsBrowsing m 1 l.hist_count (take l.len l.buf)) (l.hist_count == 0)
          _ _ (λ c. absurd (ground (arith, c, some_entry)))
          (λ c. record { showing = refl; place = refl; entries = refl; behind = refl }))

ups-IsBrowsing :
    (n : ℕ) (l : CliLine) (k count : ℕ) (s : List ℕ)
    → k ≤ count
    → IsBrowsing l k count s
    → IsBrowsing (ups n l) (min (n + k) count) count s
unfolding ups
ups-IsBrowsing zero l k count s small h =
    subst (λ i. IsBrowsing l i count s) (omega (arith, small)) h
ups-IsBrowsing (suc n) l k count s small h =
    subst (λ i. IsBrowsing (ups n (hist_up l)) i count s) (omega (arith, small))
      (ups-IsBrowsing n (hist_up l) (min (suc k) count) count s (omega arith)
        (hist_up-next l k count s small h))

hist_down-next :
    (l : CliLine) (k count : ℕ) (s : List ℕ)
    → IsBrowsing l (suc (suc k)) count s
    → IsBrowsing (hist_down l) (suc k) count s
unfolding hist_down hist_load
hist_down-next l k count s h =
    if_lem (λ (m : CliLine). IsBrowsing m (suc k) count s) (not l.browsing) _ _
      (λ b. absurd (ground (arith, b, h.showing)))
      (λ b.
        if_lem (λ (m : CliLine). IsBrowsing m (suc k) count s) (leb l.hist_at 1) _ _
          (λ c. absurd (ground (arith, c, h.place)))
          (λ c. record {
            showing = h.showing;
            place = omega (arith, h.place);
            entries = h.entries;
            behind = h.behind;
          }))

-- The text that was being typed is there again, and no entry is shown.
record IsBack (l : CliLine) (s : List ℕ) : Type 0 where
  hidden : l.browsing ≡ false
  text : l.buf ≡ s
  size : l.len ≡ length s

hist_down-last :
    (l : CliLine) (count : ℕ) (s : List ℕ) → IsBrowsing l 1 count s → IsBack (hist_down l) s
unfolding hist_down
hist_down-last l count s h =
    if_lem (λ (m : CliLine). IsBack m s) (not l.browsing) _ _
      (λ b. absurd (ground (arith, b, h.showing)))
      (λ b.
        if_lem (λ (m : CliLine). IsBack m s) (leb l.hist_at 1) _ _
          (λ c. record { hidden = refl; text = h.behind; size = ap length h.behind })
          (λ c. absurd (ground (arith, c, h.place))))

downs-IsBack :
    (k : ℕ) (l : CliLine) (count : ℕ) (s : List ℕ)
    → IsBrowsing l (suc k) count s
    → IsBack (downs (suc k) l) s
unfolding downs
downs-IsBack zero l count s h = hist_down-last l count s h
downs-IsBack (suc k) l count s h =
    downs-IsBack k (hist_down l) count s (hist_down-next l k count s h)

-- In a line that shows no entry of a history that is not empty, however often up is pressed,
-- from once on, as many presses of down as entries could be shown bring back the text that was
-- being typed, its length, and no entry shown.
pub ups-downs :
    (n : ℕ) (l : CliLine)
    → l.browsing ≡ false
    → 0 < l.hist_count
    → ((downs (min (suc n) l.hist_count) (ups (suc n) l)).buf ≡ take l.len l.buf)
      × ((downs (min (suc n) l.hist_count) (ups (suc n) l)).len ≡ length (take l.len l.buf))
      × ((downs (min (suc n) l.hist_count) (ups (suc n) l)).browsing ≡ false)
unfolding ups
ups-downs n l h some_entry =
    let k = min (suc n) l.hist_count - 1 in
    let m : min (suc n) l.hist_count ≡ suc k = omega (arith, some_entry) in
    let up : IsBrowsing (ups (suc n) l) (suc k) l.hist_count (take l.len l.buf) =
      subst (λ i. IsBrowsing (ups (suc n) l) i l.hist_count (take l.len l.buf))
        (omega (arith, some_entry))
        (ups-IsBrowsing n (hist_up l) 1 l.hist_count (take l.len l.buf) some_entry
          (hist_up-first l h some_entry)) in
    let back = downs-IsBack k (ups (suc n) l) l.hist_count (take l.len l.buf) up in
    rw m (back.text, back.size, back.hidden)
