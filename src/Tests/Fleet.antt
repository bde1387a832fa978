-- ===== src/Tests/Fleet.antt =====
-- A ring of four zones that breaks between the second and the third.
use hill_grov.Base.{
  Elem, List, [], arith, false, inl, inr, none, refl, some, true, ℕ, ◌<◌, ◌∷◌, ◌≡◌, ◌≤◌,
}
use hill_grov.Ring.Health.{
  Node, Health, online, offline, Verdict, dead, no_fault, blank, wire, ring_blame, hears_master,
  Status, open_ring,
}
use hill_grov.Ring.Health.Blame.{IsAbove, IsBelow, ring_blame-cut}

-- The zone of a given id, whose heartbeats take as many hops as there are zones behind it.
abbrev node : ℕ → ℕ → Health → Node
node id hops h = record {
  used = true;
  id = id;
  health = h;
  last_hb_ms = 1000;
  updating_until_ms = 0;
  hops = hops;
  link_flags = 1;
  cmd_timeouts = 0;
  hops_valid = true;
  uptime_s = 500;
}

abbrev free_row : Node
free_row = record (node 0 0 online) { used = false }

abbrev table : List Node
table = node 4 0 online ∷ node 2 2 offline ∷ free_row ∷ node 1 3 offline ∷ node 3 1 online ∷ []

is_above : (id hops : ℕ) → 2 ≤ hops → IsAbove 2 (node id hops offline)
is_above id hops h = record { in_use = refl; heard = refl; silent = refl; place = h }

is_below : (id hops : ℕ) → hops < 2 → IsBelow 2 (node id hops online)
is_below id hops h = record {
  in_use = refl;
  heard = refl;
  alive = inl refl;
  settled = omega arith;
  starved = unfold hears_master in refl;
  place = h;
}

ring_blame-cut_example : ring_blame table ≡ dead 2 (some 3)
ring_blame-cut_example =
    ring_blame-cut 2 table (node 2 2 offline) (node 3 1 online)
      (
        (inr (inr (is_below 4 0 (omega arith))), inr (inl (λ e. omega arith))),
        (
          (inr (inl (is_above 2 2 (omega arith))), inr (inr refl)),
          (
            (inl refl, inl refl),
            (
              (inr (inl (is_above 1 3 (omega arith))), inr (inl (λ e. omega arith))),
              ((inr (inr (is_below 3 1 (omega arith))), inr (inl (λ e. omega arith))), tt),
            ),
          ),
        ),
      )
      (
        (inr (inr (is_below 4 0 (omega arith))), inr (inl (λ e. omega arith))),
        (
          (inr (inl (is_above 2 2 (omega arith))), inr (inl (λ e. omega arith))),
          (
            (inl refl, inl refl),
            (
              (inr (inl (is_above 1 3 (omega arith))), inr (inl (λ e. omega arith))),
              ((inr (inr (is_below 3 1 (omega arith))), inr (inr refl)), tt),
            ),
          ),
        ),
      )
      (Elem.later _ (Elem.first _))
      (Elem.later _ (Elem.later _ (Elem.later _ (Elem.later _ (Elem.first _)))))
      (is_above 2 2 (omega arith)) refl (is_below 3 1 (omega arith)) refl

abbrev status : Status
status = record {
  state = open_ring;
  size = 4;
  online = 0xc;
  blame = no_fault;
  pending_blame = blank;
  pending_ticks = 0;
}

abbrev flicker : List Verdict
flicker = wire none ∷ wire none ∷ no_fault ∷ wire none ∷ wire none ∷ []
