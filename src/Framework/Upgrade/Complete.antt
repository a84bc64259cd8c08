-- ===== src/Framework/Upgrade/Complete.antt =====
-- What the wait of pkg/framework/upgrade.go returns.
use openshift_online_rosa_e.Base.{
  String, ◌≡◌, ◌≢◌, refl, ap, ◌∙◌, ◌↔◌, ◌==◌, eq_iff, List, [], ◌∷◌, ◌++◌, All, Result, ok, err,
  none, some, Bool-cases, Option-cases, inl, inr, clash,
}
use openshift_online_rosa_e.Framework.Ocm.{Event, timeout, tick}
use openshift_online_rosa_e.Framework.Upgrade.{
  UpgradeError, timed_out_waiting, upgrade_verdict, wait_for_upgrade_complete,
}

-- A version that could not be read, or that is another one
abbrev pub IsPendingUpgrade : String → Event → Type 0
IsPendingUpgrade target_version timeout = ⊥
IsPendingUpgrade target_version (tick (err e)) = Unit
IsPendingUpgrade target_version (tick (ok current_version)) = current_version ≢ target_version

-- The first event that does not leave the wait pending is this one.
pub record FirstIs (target_version : String) (first : Event) (events : List Event) : Type 0 where
  pub before : List Event
  pub after : List Event
  pub split : events ≡ before ++ (first ∷ after)
  pub pending : All (IsPendingUpgrade target_version) before

abbrev pub ended_by : Result UpgradeError (Unit {0}) → String → Event
ended_by (ok tt) target_version = tick (ok target_version)
ended_by (err e) target_version = timeout

module _ (cluster_id target_version : String) where
  pending-none :
      (event : Event)
      → IsPendingUpgrade target_version event
      → upgrade_verdict cluster_id target_version event ≡ none
  pending-none timeout h = absurd h
  pending-none (tick (err e)) h = refl
  pending-none (tick (ok current_version)) h =
      elim (Bool-cases (current_version == target_version)) [
        | inl same ↦ absurd (h ((eq_iff current_version target_version).0 same))
        | inr other ↦ rw other refl
      ]

  none-pending :
      (event : Event)
      → upgrade_verdict cluster_id target_version event ≡ none
      → IsPendingUpgrade target_version event
  none-pending timeout h = cc
  none-pending (tick (err e)) h = tt
  none-pending (tick (ok current_version)) h =
      elim (Bool-cases (current_version == target_version)) [
        | inl same ↦ cc (rw same at h)
        | inr other ↦ λ e. clash ((eq_iff current_version target_version).1 e) other
      ]

  -- A verdict comes with its event.
  verdict-event :
      (event : Event) (verdict : Result UpgradeError (Unit {0}))
      → upgrade_verdict cluster_id target_version event ≡ some verdict
      → event ≡ ended_by verdict target_version
  verdict-event timeout (ok tt) h = cc
  verdict-event timeout (err e) h = refl
  verdict-event (tick (err e)) verdict h = cc
  verdict-event (tick (ok current_version)) (ok tt) h =
      elim (Bool-cases (current_version == target_version)) [
        | inl same ↦ ap (λ v. tick (ok v)) ((eq_iff current_version target_version).0 same)
        | inr other ↦ cc (rw other at h)
      ]
  verdict-event (tick (ok current_version)) (err e) h =
      elim (Bool-cases (current_version == target_version)) [
        | inl same ↦ cc (rw same at h)
        | inr other ↦ cc (rw other at h)
      ]

  found :
      (events : List Event) (verdict : Result UpgradeError (Unit {0}))
      → wait_for_upgrade_complete cluster_id target_version events ≡ some verdict
      → FirstIs target_version (ended_by verdict target_version) events
  unfolding wait_for_upgrade_complete
  found [] verdict h = cc
  found (event ∷ events) verdict h =
      elim (Option-cases (upgrade_verdict cluster_id target_version event)) [
        | inl goes_on ↦ later (none-pending event goes_on) (found events verdict (rw goes_on at h))
        | inr (end, ends) ↦ record {
          before = [];
          after = events;
          split = ap (λ e. e ∷ events) (verdict-event event verdict (ends ∙ rw ends at h));
          pending = tt;
        }
      ]
    where
      later :
          IsPendingUpgrade target_version event
          → FirstIs target_version (ended_by verdict target_version) events
          → FirstIs target_version (ended_by verdict target_version) (event ∷ events)
      later pending rest = record {
        before = event ∷ rest.before;
        after = rest.after;
        split = ap (λ l. event ∷ l) rest.split;
        pending = (pending, rest.pending);
      }

  skipped :
      (before rest : List Event)
      → All (IsPendingUpgrade target_version) before
      → wait_for_upgrade_complete cluster_id target_version (before ++ rest)
        ≡ wait_for_upgrade_complete cluster_id target_version rest
  unfolding wait_for_upgrade_complete
  skipped [] rest h = refl
  skipped (event ∷ before) rest h = rw (pending-none event h.0) (skipped before rest h.1)

  at_target :
      (after : List Event)
      → wait_for_upgrade_complete cluster_id target_version (tick (ok target_version) ∷ after)
        ≡ some (ok tt)
  unfolding wait_for_upgrade_complete
  at_target after = rw ((eq_iff target_version target_version).1 refl) refl

  at_timeout :
      (after : List Event)
      → wait_for_upgrade_complete cluster_id target_version (timeout ∷ after)
        ≡ some (err (timed_out_waiting cluster_id))
  unfolding wait_for_upgrade_complete
  at_timeout after = refl

  -- WaitForUpgradeComplete succeeds exactly when a tick read the target version before the timeout, and
  -- times out exactly when the timeout came before such a tick, whatever readings failed or gave other
  -- versions before.
  pub wait_for_upgrade_complete_iff :
      (events : List Event)
      → ((wait_for_upgrade_complete cluster_id target_version events ≡ some (ok tt))
          ↔ FirstIs target_version (tick (ok target_version)) events)
        × ((wait_for_upgrade_complete cluster_id target_version events
              ≡ some (err (timed_out_waiting cluster_id)))
            ↔ FirstIs target_version timeout events)
  wait_for_upgrade_complete_iff events = (
    (
      found events (ok tt),
      λ h.
          ap (wait_for_upgrade_complete cluster_id target_version) h.split
          ∙ skipped h.before _ h.pending
          ∙ at_target h.after,
    ),
    (
      found events (err (timed_out_waiting cluster_id)),
      λ h.
          ap (wait_for_upgrade_complete cluster_id target_version) h.split
          ∙ skipped h.before _ h.pending
          ∙ at_timeout h.after,
    ),
  )
