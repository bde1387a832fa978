-- ===== src/Ring/Health/Dwell.antt =====
-- How a changed verdict comes to be published while the ring stays open.
use hill_grov.Base.{List, Option, [], arith, false, none, refl, some, true, ℕ, ◌++◌, ◌∷◌, ◌≡◌}
use hill_grov.Ring.Health.{
  Verdict, blank, no_fault, wire, dead, end_eq, verdict_eq, Status, open_ring, dwell, Line,
  ring_open,
}

end_eq_refl : (a : Option ℕ) → end_eq a a ≡ true
unfolding end_eq
end_eq_refl none = refl
end_eq_refl (some a) = ground arith

pub verdict_eq_refl : (v : Verdict) → verdict_eq v v ≡ true
unfolding verdict_eq
verdict_eq_refl blank = refl
verdict_eq_refl no_fault = refl
verdict_eq_refl (wire a) = end_eq_refl a
verdict_eq_refl (dead u a) = ground (arith, end_eq_refl a)

-- The calls for a run of candidates, with what they notify.
unfoldable pub dwells : List Verdict → Status → Status × List Line
dwells [] st = (st, [])
dwells (c ∷ cs) st =
    let (st', ls) = dwell st c in let (st'', ls') = dwells cs st' in (st'', ls ++ ls')

-- While the ring is open, a verdict that is neither the published nor the pending one is published
-- and announced once, at the third tick in a row that brings it.
pub dwells_three :
    (st : Status) (c : Verdict)
    → st.state ≡ open_ring
    → verdict_eq c st.blame ≡ false
    → verdict_eq c st.pending_blame ≡ false
    → ((dwells (c ∷ c ∷ []) st).0.blame ≡ st.blame)
      × ((dwells (c ∷ c ∷ []) st).1 ≡ [])
      × ((dwells (c ∷ c ∷ c ∷ []) st).0.blame ≡ c)
      × ((dwells (c ∷ c ∷ c ∷ []) st).1 ≡ ring_open c ∷ [])
unfolding dwells dwell
dwells_three st c o b p = ground (arith, verdict_eq_refl c)

-- While the ring is open, a verdict that is neither the published nor the pending one and that
-- comes twice, then the published one, then twice again, is not published, and nothing is
-- announced.
pub dwells_flicker :
    (st : Status) (c : Verdict)
    → st.state ≡ open_ring
    → verdict_eq c st.blame ≡ false
    → verdict_eq c st.pending_blame ≡ false
    → ((dwells (c ∷ c ∷ st.blame ∷ c ∷ c ∷ []) st).0.blame ≡ st.blame)
      × ((dwells (c ∷ c ∷ st.blame ∷ c ∷ c ∷ []) st).1 ≡ [])
unfolding dwells dwell
dwells_flicker st c o b p = ground (arith, verdict_eq_refl c, verdict_eq_refl st.blame)
