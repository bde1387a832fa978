-- ===== src/Alarm/Active.antt =====
-- components/alarm_mgr/alarm_mgr.c: the set of alarms that are active, by key, in 16 slots.
use hill_grov.Base.{
  Bool, Bool-cases, List, Option, [], arith, false, if◌then◌else◌, inl, inr, length, none, not,
  refl, some, take, take_all, text_eq, text_eq_refl, true, ℕ, ◌&&◌, ◌||◌, ◌∷◌, ◌≡◌, ◌≤◌,
}

-- `am_active_t`
pub record Active : Type 0 where
  pub key : List ℕ
  pub text : List ℕ
  pub since_s : ℕ
  pub used : Bool

-- The first slot in use with this key gets the text; `none` when there is none.
unfoldable pub refresh : List Active → List ℕ → List ℕ → Option (List Active)
refresh [] key text = none
refresh (a ∷ rest) key text =
    let later : Option (List Active) = elim (refresh rest key text) [
      | none ↦ none
      | some rest' ↦ some (a ∷ rest')
    ] in
    if a.used && text_eq a.key key then some (record a { text = take 71 text } ∷ rest) else later

-- The first free slot is taken.
unfoldable pub occupy : List Active → List ℕ → List ℕ → ℕ → Option (List Active)
occupy [] key text now = none
occupy (a ∷ rest) key text now =
    let later : Option (List Active) = elim (occupy rest key text now) [
      | none ↦ none
      | some rest' ↦ some (a ∷ rest')
    ] in
    if not a.used
    then some (record { key = take 15 key; text = take 71 text; since_s = now; used = true } ∷ rest)
    else later

-- `active_upsert`: its loop looks for the key through all slots before the free one is used.
unfoldable pub active_upsert : List Active → List ℕ → List ℕ → ℕ → List Active
active_upsert t key text now = elim (refresh t key text) [
  | some t' ↦ t'
  | none ↦ elim (occupy t key text now) [ none ↦ t | some t' ↦ t' ]
]

-- `active_clear`
unfoldable pub active_clear : List Active → List ℕ → List Active
active_clear [] key = []
active_clear (a ∷ rest) key =
    let later = a ∷ active_clear rest key in
    if a.used && text_eq a.key key then record a { used = false } ∷ rest else later

unfoldable pub is_active : List Active → List ℕ → Bool
is_active [] key = false
is_active (a ∷ rest) key = a.used && text_eq a.key key || is_active rest key

unfoldable pub has_room : List Active → Bool
has_room [] = false
has_room (a ∷ rest) = not a.used || has_room rest

refresh-inactive :
    (t : List Active) (key text : List ℕ) → is_active t key ≡ false → refresh t key text ≡ none
unfolding refresh is_active
refresh-inactive [] key text h = refl
refresh-inactive (a ∷ rest) key text h = ground (arith, refresh-inactive rest key text)

-- What a free slot is filled with is active, and it alone has the key.
occupy-clear :
    (t : List Active) (key text : List ℕ) (now : ℕ)
    → is_active t key ≡ false
    → has_room t ≡ true
    → take 15 key ≡ key
    → (t' : List Active) × (occupy t key text now ≡ some t')
      × (is_active t' key ≡ true)
      × (is_active (active_clear t' key) key ≡ false)
unfolding occupy is_active active_clear has_room
occupy-clear [] key text now h room fits = absurd (ground arith)
occupy-clear (a ∷ rest) key text now h room fits = elim (Bool-cases a.used) [
  | inr free ↦ (
    record { key = take 15 key; text = take 71 text; since_s = now; used = true } ∷ rest,
    ground (arith, free),
    ground (arith, fits, text_eq_refl key),
    ground (arith, fits, text_eq_refl key, h, free),
  )
  | inl taken ↦
      let (t', at, on, off) =
        occupy-clear rest key text now (ground (arith, h)) (ground (arith, room, taken)) fits in
      (a ∷ t', ground (arith, taken, at), ground (arith, on), ground (arith, h, taken, off))
]

-- An alarm with a key of at most 15 characters that is not active, in a set with a free slot, is
-- active once it is raised, and is not once it is then cleared.
pub raised_and_cleared :
    (t : List Active) (key text : List ℕ) (now : ℕ)
    → is_active t key ≡ false
    → has_room t ≡ true
    → length key ≤ 15
    → (is_active (active_upsert t key text now) key ≡ true)
      × (is_active (active_clear (active_upsert t key text now) key) key ≡ false)
raised_and_cleared t key text now h room fits =
    let (t', at, on, off) = occupy-clear t key text now h room (take_all 15 key fits) in
    let put : active_upsert t key text now ≡ t' =
      unfold active_upsert in ground (arith, refresh-inactive t key text h, at) in
    rw put (on, off)
