-- ===== src/Cli/Invariant.antt =====
-- Whatever is typed, the line editor of components/cli_line/cli_line.c stays within its arrays.
use hill_grov.Base.{
  All, Bool, List, [], arith, false, get_or, if_lem, if◌then◌else◌, inl, inr, leb, length,
  length-set, length-take, ltb, not, refl, set, suc, take, true, zero, ℕ, ◌%◌, ◌+◌, ◌-◌, ◌<◌, ◌==◌,
  ◌||◌, ◌∷◌, ◌≡◌, ◌≤◌, ◌⊎◌,
}
use hill_grov.Cli.{
  has_newest, is_empty, CliLine, cli_hist_len, cli_hist_n, cli_line_max, hist_down, hist_entry,
  hist_load, hist_push, hist_up,
}

-- A text and its length, 0 when the text was taken
abbrev pub IsText : List ℕ → ℕ → Type 0
IsText buf len = (length buf < cli_line_max) × ((len ≡ 0) ⊎ (len ≡ length buf))

abbrev pub IsHist : List (List ℕ) → ℕ → ℕ → Type 0
IsHist hist count next =
    (length hist ≡ cli_hist_n)
    × All (λ e. length e < cli_hist_len) hist
    × (count ≤ cli_hist_n)
    × (next < cli_hist_n)

-- While an entry is shown there is one at its place.
abbrev pub IsShown : Bool → ℕ → ℕ → Type 0
IsShown browsing at count = (at ≤ count) × ((browsing ≡ false) ⊎ (0 < at))

-- The texts fit their arrays and the places are within theirs.
pub record IsValid (l : CliLine) : Type 0 where
  pub text : IsText l.buf l.len
  pub hist : IsHist l.hist l.hist_count l.hist_next
  pub shown : IsShown l.browsing l.hist_at l.hist_count
  pub saved : length l.saved < cli_line_max
  pub esc : l.esc ≤ 2

All-set :
    (P : List ℕ → Type 0) (xs : List (List ℕ)) (i : ℕ) (v : List ℕ)
    → All P xs
    → P v
    → All P (set xs i v)
All-set P [] i v h p = tt
All-set P (x ∷ xs) zero v h p = (p, h.1)
All-set P (x ∷ xs) (suc i) v h p = (h.0, All-set P xs i v h.1 p)

get_or-All :
    (P : List ℕ → Type 0) (xs : List (List ℕ)) (i : ℕ) (d : List ℕ)
    → All P xs
    → P d
    → P (get_or xs i d)
get_or-All P [] i d h p = p
get_or-All P (x ∷ xs) zero d h p = h.0
get_or-All P (x ∷ xs) (suc i) d h p = get_or-All P xs i d h.1 p

hist_load-IsValid : (l : CliLine) → IsValid l → IsValid (hist_load l)
unfolding hist_load
hist_load-IsValid l v =
    let short : length (hist_entry l) < cli_hist_len =
      get_or-All (λ e. length e < cli_hist_len) l.hist
        ((l.hist_next + cli_hist_n - l.hist_at) % cli_hist_n) [] v.hist.1 (omega arith) in
    record {
      text = (omega arith, inr refl);
      hist = v.hist;
      shown = v.shown;
      saved = v.saved;
      esc = v.esc;
    }

-- The next older entry, if there is one
older-IsValid :
    (l : CliLine)
    → IsValid l
    → IsValid (if ltb l.hist_at l.hist_count then record l { hist_at = l.hist_at + 1 } else l)
older-IsValid l v =
    if_lem IsValid (ltb l.hist_at l.hist_count) (record l { hist_at = l.hist_at + 1 }) l
      (λ c. record {
        text = v.text;
        hist = v.hist;
        shown = (ground (arith, c), inr (omega arith));
        saved = v.saved;
        esc = v.esc;
      })
      (λ c. v)

pub hist_up-IsValid : (l : CliLine) → IsValid l → IsValid (hist_up l)
unfolding hist_up
hist_up-IsValid l v =
    if_lem IsValid l.browsing _ _ (λ b. hist_load-IsValid _ (older-IsValid l v))
      (λ b.
        if_lem IsValid (l.hist_count == 0) _ _ (λ c. v)
          (λ c.
            hist_load-IsValid (record l { saved = take l.len l.buf; browsing = true; hist_at = 1 })
              (record {
                text = v.text;
                hist = v.hist;
                shown = (ground (arith, c), inr (omega arith));
                saved = omega (arith, length-take l.len l.buf, v.text.0);
                esc = v.esc;
              })))

pub hist_down-IsValid : (l : CliLine) → IsValid l → IsValid (hist_down l)
unfolding hist_down
hist_down-IsValid l v =
    if_lem IsValid (not l.browsing) _ _ (λ b. v)
      (λ b.
        if_lem IsValid (leb l.hist_at 1) _ _
          (λ c. record {
            text = (v.saved, inr refl);
            hist = v.hist;
            shown = (omega arith, inl refl);
            saved = v.saved;
            esc = v.esc;
          })
          (λ c.
            hist_load-IsValid (record l { hist_at = l.hist_at - 1 })
              (record {
                text = v.text;
                hist = v.hist;
                shown = (omega (arith, v.shown.0), inr (ground (arith, c)));
                saved = v.saved;
                esc = v.esc;
              })))

pub hist_push-IsValid : (l : CliLine) → IsValid l → IsValid (hist_push l)
unfolding hist_push
hist_push-IsValid l v =
    if_lem IsValid (is_empty l.buf || has_newest l) _ _ (λ b. v)
      (λ b. record {
        text = v.text;
        hist = (
          rw (length-set l.hist l.hist_next (take (cli_hist_len - 1) l.buf)) v.hist.0,
          All-set (λ e. length e < cli_hist_len) l.hist l.hist_next (take (cli_hist_len - 1) l.buf)
              v.hist.1 (omega (arith, length-take (cli_hist_len - 1) l.buf)),
          ground (arith, v.hist.2),
          omega arith,
        );
        shown = (ground (arith, v.shown.0), v.shown.1);
        saved = v.saved;
        esc = v.esc;
      })
