-- ===== src/Link/Travel.antt =====
-- A frame on its way round the ring: each zone in turn routes it and, where it forwards, puts it on
-- its line with one less time to live.
use hill_grov.Base.{
  All, Bool, List, Option, Option-cases, [], ap, arith, false, if◌then◌else◌, inl, inr, length,
  none, some, suc, sym, true, ℕ, ◌+◌, ◌-◌, ◌<◌, ◌∙◌, ◌∷◌, ◌≡◌, ◌≢◌, ◌≤◌,
}
use hill_grov.Ring.Frame.{Hdr}
use hill_grov.Ring.Route.{
  Route, drop_self, consume, consume_fwd, forward, route, ring_id_master, ring_id_unassigned,
  ring_id_bcast,
}
use hill_grov.Link.{decremented}

pub record Zone : Type 0 where
  pub id : ℕ
  pub mac : List ℕ

-- What a zone that routed a frame so passes on.
unfoldable pub passed_on : Route → Hdr → Option Hdr
passed_on forward h = decremented h
passed_on consume_fwd h = decremented h
passed_on _ h = none

unfoldable pub onward : Zone → Hdr → List ℕ → Option Hdr
onward z h payload = passed_on (route false z.id z.mac h payload) h

-- What leaves the last of a chain of zones.
unfoldable pub travel : List Zone → Hdr → List ℕ → Option Hdr
travel [] h payload = some h
travel (z ∷ zs) h payload = elim (onward z h payload) [
  | none ↦ none
  | some h' ↦ travel zs h' payload
]

abbrev pub aged : Hdr → ℕ → Hdr
aged h k = record h { ttl = h.ttl - k }

-- The ids of assigned zones are neither the master's nor one of the two reserved.
pub record IsAssigned (z : Zone) : Type 0 where
  pub not_master : z.id ≢ ring_id_master
  pub not_unassigned : z.id ≢ ring_id_unassigned
  pub not_bcast : z.id ≢ ring_id_bcast

onward-ttl :
    (z : Zone) (h h' : Hdr) (payload : List ℕ)
    → h.ttl < 256
    → onward z h payload ≡ some h'
    → h'.ttl + 1 ≡ h.ttl
unfolding onward passed_on route decremented
onward-ttl z h h' payload lt e = ground arith

-- When a frame with an 8-bit time to live leaves a chain of zones, each of them has taken one
-- from its time to live, whatever the frame and the zones.
pub travel-ttl :
    (zs : List Zone) (h h' : Hdr) (payload : List ℕ)
    → h.ttl < 256
    → travel zs h payload ≡ some h'
    → h'.ttl + length zs ≡ h.ttl
unfolding travel
travel-ttl [] h h' payload lt e = ground arith
travel-ttl (z ∷ zs) h h' payload lt e = elim (Option-cases (onward z h payload)) [
  | inl stop ↦ absurd (ground (arith, stop))
  | inr (h₁, go) ↦
      let step : h₁.ttl + 1 ≡ h.ttl = onward-ttl z h h₁ payload lt go in
      omega (arith, travel-ttl zs h₁ h' payload (omega arith) (rw (go, travel) at e))
]

-- A zone that a frame from the master is not for.
abbrev pub Passes : Hdr → Zone → Type 0
Passes h z = IsAssigned z × (z.id ≢ h.dst)

onward-unicast :
    (z : Zone) (h : Hdr) (payload : List ℕ)
    → h.src ≡ ring_id_master
    → h.dst ≢ ring_id_bcast
    → h.dst ≢ ring_id_unassigned
    → Passes h z
    → 1 < h.ttl
    → h.ttl < 256
    → onward z h payload ≡ some (aged h 1)
unfolding onward passed_on route decremented
onward-unicast z h payload src bc un (a, ne) lo hi = ground arith

travel-unicast :
    (zs : List Zone) (h : Hdr) (payload : List ℕ)
    → h.src ≡ ring_id_master
    → h.dst ≢ ring_id_bcast
    → h.dst ≢ ring_id_unassigned
    → All (Passes h) zs
    → length zs < h.ttl
    → h.ttl < 256
    → travel zs h payload ≡ some (aged h (length zs))
unfolding travel
travel-unicast [] h payload src bc un ps lo hi = ground arith
travel-unicast (z ∷ zs) h payload src bc un ps lo hi =
    rw (onward-unicast z h payload src bc un ps.0 (omega arith) hi, travel)
      (travel-unicast zs (aged h 1) payload src bc un ps.1 (omega arith) (omega arith)
        ∙ ground arith)

-- A unicast frame of the master with more time to live than there are zones before its
-- destination, all assigned and none with its id, is passed on by each of them and then consumed
-- by the assigned zone that it is for.
pub travel-delivers :
    (zs : List Zone) (z : Zone) (h : Hdr) (payload : List ℕ)
    → h.src ≡ ring_id_master
    → h.dst ≡ z.id
    → IsAssigned z
    → All (Passes h) zs
    → length zs < h.ttl
    → h.ttl < 256
    → (travel zs h payload ≡ some (aged h (length zs)))
      × (route false z.id z.mac (aged h (length zs)) payload ≡ consume)
unfolding route
travel-delivers zs z h payload src dst a ps lo hi = (
  travel-unicast zs h payload src (λ e. a.not_bcast (sym dst ∙ e))
      (λ e. a.not_unassigned (sym dst ∙ e)) ps lo hi,
  ground (arith, a.not_master, a.not_unassigned),
)

-- A zone whose id, reserved or not, is neither the master's nor the broadcast address.
abbrev pub IsListener : Zone → Type 0
IsListener z = (z.id ≢ ring_id_master) × (z.id ≢ ring_id_bcast)

unfoldable pub consumes : Route → Bool
consumes consume = true
consumes consume_fwd = true
consumes _ = false

-- The ids of the zones of a chain that consume a frame, as far as it gets.
unfoldable pub consumers : List Zone → Hdr → List ℕ → List ℕ
consumers [] h payload = []
consumers (z ∷ zs) h payload =
    let rest : List ℕ = elim (onward z h payload) [
      | none ↦ []
      | some h' ↦ consumers zs h' payload
    ] in
    if consumes (route false z.id z.mac h payload) then z.id ∷ rest else rest

unfoldable pub ids : List Zone → List ℕ
ids [] = []
ids (z ∷ zs) = z.id ∷ ids zs

onward-broadcast :
    (z : Zone) (h : Hdr) (payload : List ℕ)
    → h.src ≡ ring_id_master
    → h.dst ≡ ring_id_bcast
    → IsListener z
    → 0 < h.ttl
    → h.ttl < 256
    → (onward z h payload ≡ some (aged h 1)) × (consumes (route false z.id z.mac h payload) ≡ true)
unfolding onward passed_on route decremented consumes
onward-broadcast z h payload src dst (nm, nb) lo hi = (ground arith, ground arith)

-- A broadcast of the master whose time to live is at least the number of zones, none of which
-- has the master's id or the broadcast address, is consumed by every zone in the order of the
-- chain and comes back to the master, which drops it as its own.
pub travel-broadcast :
    (zs : List Zone) (h : Hdr) (my_id : ℕ) (my_mac payload : List ℕ)
    → h.src ≡ ring_id_master
    → h.dst ≡ ring_id_bcast
    → All IsListener zs
    → length zs ≤ h.ttl
    → h.ttl < 256
    → (consumers zs h payload ≡ ids zs)
      × (travel zs h payload ≡ some (aged h (length zs)))
      × (route true my_id my_mac (aged h (length zs)) payload ≡ drop_self)
unfolding travel consumers ids route
travel-broadcast [] h my_id my_mac payload src dst ps lo hi = ground arith
travel-broadcast (z ∷ zs) h my_id my_mac payload src dst ps lo hi =
    let (go, eats) = onward-broadcast z h payload src dst ps.0 (omega arith) hi in
    let (cs, tr, back) =
      travel-broadcast zs (aged h 1) my_id my_mac payload src dst ps.1 (omega arith)
        (omega arith) in
    let end : aged (aged h 1) (length zs) ≡ aged h (suc (length zs)) = ground arith in
    (
      rw (consumers, eats, go) (ap (λ r. z.id ∷ r) cs),
      rw (travel, go) (tr ∙ ap some end),
      ground arith,
    )
