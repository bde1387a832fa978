-- ===== src/CfgSync/Failures.antt =====
-- A failure for good is not tried again: the latch of components/node_mgr/node_mgr_cfg_latch.c under
-- whatever happens on the other plane.
use hill_grov.Base.{
  All, Bool, List, Option, [], arith, false, none, some, subst, sym, true, ℕ, ◌&&◌, ◌∷◌, ◌≡◌,
}
use hill_grov.CfgSync.{
  Cache, Identity, Plane, Row, Zone, cooling_down, latched, note_failed, note_synced, plane_cfg,
  plane_hw, same_identity,
}
use hill_grov.CfgSync.Decide.{Start, note_fresh_hb, pull, push, try_start}
use hill_grov.CfgSync.Quiet.{identity_of}

-- What happens to a zone's record between two decisions: a transfer of a plane is done and leaves a
-- new cache, one fails, a heartbeat comes, or the tick asks whether the zone cools down.
pub data SyncEvent : Type 0 where
  synced : Plane → Cache → SyncEvent
  failed : Plane → Bool → Identity → ℕ → SyncEvent
  heartbeat : SyncEvent
  asked : ℕ → SyncEvent

abbrev pub same_plane : Plane → Plane → Bool
same_plane plane_cfg plane_cfg = true
same_plane plane_hw plane_hw = true
same_plane p q = false

-- A new cache of a plane
abbrev pub with_cache : Zone → Plane → Cache → Zone
with_cache z plane_cfg c = record z { cfg = c }
with_cache z plane_hw c = record z { hw = c }

unfoldable pub happens : Zone → SyncEvent → Zone
happens z (synced p c) = (note_synced (with_cache z p c) p 0).0
happens z (failed p terminal i now) = (note_failed z p terminal i now 0).0
happens z heartbeat = note_fresh_hb z
happens z (asked now) = (cooling_down z now).1

unfoldable pub all_happen : Zone → List SyncEvent → Zone
all_happen z [] = z
all_happen z (e ∷ es) = all_happen (happens z e) es

-- An event of the other plane, or one that is no verdict on this one
unfoldable pub IsApart : Plane → SyncEvent → Type 0
IsApart p (synced q c) = same_plane p q ≡ false
IsApart p (failed q terminal i now) = (same_plane p q && terminal) ≡ false
IsApart p heartbeat = Unit
IsApart p (asked now) = Unit

-- The plane that a transfer is for
abbrev pub starts : Plane → Option Start → Bool
starts p none = false
starts p (some (pull q i)) = same_plane p q
starts p (some (push gen i o)) = same_plane p plane_cfg

same_identity_refl : (i : Identity) → same_identity i i ≡ true
same_identity_refl i = ground arith

failed-latched :
    (z : Zone) (p : Plane) (i : Identity) (now timeouts : ℕ)
    → latched (note_failed z p true i now timeouts).0 p i ≡ true
unfolding note_failed latched
failed-latched z plane_cfg i now timeouts = same_identity_refl i
failed-latched z plane_hw i now timeouts = same_identity_refl i

asked-latched :
    (z : Zone) (p : Plane) (i : Identity) (now : ℕ)
    → latched z p i ≡ true
    → latched (cooling_down z now).1 p i ≡ true
unfolding latched cooling_down
asked-latched z plane_cfg i now h = ground (arith, h)
asked-latched z plane_hw i now h = ground (arith, h)

happens-latched :
    (z : Zone) (p : Plane) (i : Identity) (e : SyncEvent)
    → IsApart p e
    → latched z p i ≡ true
    → latched (happens z e) p i ≡ true
unfolding happens IsApart note_failed note_synced note_fresh_hb latched
happens-latched z plane_cfg i (synced plane_cfg c) a h = absurd (cc)
happens-latched z plane_cfg i (synced plane_hw c) a h = h
happens-latched z plane_hw i (synced plane_cfg c) a h = h
happens-latched z plane_hw i (synced plane_hw c) a h = absurd (cc)
happens-latched z plane_cfg i (failed plane_cfg true j now) a h = absurd (cc)
happens-latched z plane_cfg i (failed plane_cfg false j now) a h = h
happens-latched z plane_cfg i (failed plane_hw true j now) a h = h
happens-latched z plane_cfg i (failed plane_hw false j now) a h = h
happens-latched z plane_hw i (failed plane_cfg true j now) a h = h
happens-latched z plane_hw i (failed plane_cfg false j now) a h = h
happens-latched z plane_hw i (failed plane_hw true j now) a h = absurd (cc)
happens-latched z plane_hw i (failed plane_hw false j now) a h = h
happens-latched z p i heartbeat a h = h
happens-latched z p i (asked now) a h = asked-latched z p i now h

all_happen-latched :
    (z : Zone) (p : Plane) (i : Identity) (es : List SyncEvent)
    → All (IsApart p) es
    → latched z p i ≡ true
    → latched (all_happen z es) p i ≡ true
unfolding all_happen
all_happen-latched z p i [] a h = h
all_happen-latched z p i (e ∷ es) (a, as_before) h =
    all_happen-latched (happens z e) p i es as_before (happens-latched z p i e a h)

latched-quiet :
    (z : Zone) (n : Row) (p : Plane)
    → latched z p (identity_of z n p) ≡ true
    → starts p (try_start z n) ≡ false
unfolding try_start
latched-quiet z n plane_cfg h = ground (arith, h)
latched-quiet z n plane_hw h = ground (arith, h)

-- After a transfer of a plane has failed for good, and whatever came then of the other plane, of
-- failures that are not for good, of heartbeats and of the cooldown, the decision starts no
-- transfer of that plane while the heartbeat and the cache of the plane have the identity that
-- failed.
pub failed-quiet :
    (z : Zone) (p : Plane) (i : Identity) (now timeouts : ℕ) (es : List SyncEvent) (n : Row)
    → All (IsApart p) es
    → identity_of (all_happen (note_failed z p true i now timeouts).0 es) n p ≡ i
    → starts p (try_start (all_happen (note_failed z p true i now timeouts).0 es) n) ≡ false
failed-quiet z p i now timeouts es n a e =
    let after : Zone = all_happen (note_failed z p true i now timeouts).0 es in
    latched-quiet after n p (
      subst (λ j. latched after p j ≡ true) (sym e)
        (all_happen-latched (note_failed z p true i now timeouts).0 p i es a
          (failed-latched z p i now timeouts)))
