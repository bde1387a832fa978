-- ===== src/Ring/Health/Ladder.antt =====
-- The ladder from online to offline, and the lines that its steps notify.
use hill_grov.Base.{
  Bool-cases, List, [], ap, arith, false, inl, inr, refl, subst, sym, true, ℕ, ◌<◌, ◌∙◌, ◌∷◌, ◌≡◌,
  ◌≤◌, ◌⊎◌,
}
use hill_grov.Ring.Health.{
  Node, Health, empty, online, degraded, offline, updating, health_eq, next_health, eval_node,
  eval_nodes,
}

health_eq_refl : (h : Health) → health_eq h h ≡ true
unfolding health_eq
health_eq_refl empty = refl
health_eq_refl online = refl
health_eq_refl degraded = refl
health_eq_refl offline = refl
health_eq_refl updating = refl

-- How bad a state is.
unfoldable pub rank : Health → ℕ
rank degraded = 1
rank offline = 2
rank _ = 0

-- The state of a zone that is not updating, at two times at or after its last heartbeat and
-- before the clock comes round, is at the later time no better than at the earlier.
pub next_health-worsens :
    (nd : Node) (t t' : ℕ)
    → nd.updating_until_ms ≡ 0
    → nd.last_hb_ms ≤ t
    → t ≤ t'
    → t' < 4294967296
    → rank (next_health nd t) ≤ rank (next_health nd t')
unfolding next_health rank
next_health-worsens nd t t' u l le lt = ground arith

-- The ladder does not read the state that the row is in.
next_health-record :
    (nd : Node) (h : Health) (now : ℕ)
    → next_health (record nd { health = h }) now ≡ next_health nd now
unfolding next_health
next_health-record nd h now = refl

eval_node-same :
    (nd : Node) (now : ℕ)
    → (nd.used ≡ false) ⊎ (health_eq (next_health nd now) nd.health ≡ true)
    → eval_node nd now ≡ (nd, [])
unfolding eval_node
eval_node-same nd now h = ground arith

eval_node-changed :
    (nd : Node) (now : ℕ)
    → nd.used ≡ true
    → health_eq (next_health nd now) nd.health ≡ false
    → (eval_node nd now).0 ≡ record nd { health = next_health nd now }
unfolding eval_node
eval_node-changed nd now u h = ground arith

eval_node_again :
    (nd : Node) (now : ℕ) → eval_node (eval_node nd now).0 now ≡ ((eval_node nd now).0, [])
eval_node_again nd now =
    eval_node-same (eval_node nd now).0 now
      (settled (Bool-cases nd.used) (Bool-cases (health_eq (next_health nd now) nd.health)))
  where
    Settled : Node → Type 0
    Settled r = (r.used ≡ false) ⊎ (health_eq (next_health r now) r.health ≡ true)

    stays :
        (nd.used ≡ false) ⊎ (health_eq (next_health nd now) nd.health ≡ true)
        → Settled (eval_node nd now).0
    stays h = subst (λ r. Settled r.0) (sym (eval_node-same nd now h)) h

    settled :
        (nd.used ≡ true) ⊎ (nd.used ≡ false)
        → (health_eq (next_health nd now) nd.health ≡ true)
          ⊎ (health_eq (next_health nd now) nd.health ≡ false)
        → Settled (eval_node nd now).0
    settled (inr unused) _ = stays (inl unused)
    settled (inl used) (inl same) = stays (inr same)
    settled (inl used) (inr new) = subst Settled (sym (eval_node-changed nd now used new)) (
        inr (
          ap (λ h. health_eq h (next_health nd now))
            (next_health-record nd (next_health nd now) now)
          ∙ health_eq_refl (next_health nd now)))

-- A second evaluation of the table at the same time changes no row and notifies nothing.
pub eval_nodes_again :
    (tab : List Node) (now : ℕ)
    → eval_nodes (eval_nodes tab now).0 now ≡ ((eval_nodes tab now).0, [])
unfolding eval_nodes
eval_nodes_again [] now = refl
eval_nodes_again (nd ∷ tab) now = rw (eval_node_again nd now, eval_nodes_again tab now) refl
