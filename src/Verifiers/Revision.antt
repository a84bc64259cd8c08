-- ===== src/Verifiers/Revision.antt =====
-- pkg/verifiers/revision.go, over a world that the API server, the timer and the context change. The
-- order in which the range visits the first snapshot is a parameter.
pub mod Stable
use openshift_online_rosa_e.Base.{
  ℕ, String, List, [], ◌∷◌, map, ◌==◌, ◌&&◌, not, Result, ok, err, Option, none, some,
  if◌then◌else◌, report, collect, Dict, Key, lookup, insert_all, true, ◌≡◌, ◌↔◌, eq_iff, ap, arith,
  Bool,
}
use mathlib.Core.Path.{ap₂}
use openshift_online_rosa_e.Base.Io.{Io, pure, within, ◌>>=◌, ◌>>◌}
use openshift_online_rosa_e.Verifiers.Conditions.{ApiError}

pub record DeploymentRef : Type 0 where
  pub namespace : String
  pub name : String

abbrev pub same_ref : DeploymentRef → DeploymentRef → Bool
same_ref a b = (a.namespace == b.namespace) && (a.name == b.name)

-- A deployment, by what is read of it; without the annotation the revision is the empty text.
pub record Deployed : Type 0 where
  pub namespace : String
  pub name : String
  pub revision : String

abbrev pub Revisions : Type 0
Revisions = Dict DeploymentRef String

pub data RevisionError : Type 0 where
  initial_snapshot final_snapshot : RevisionError → RevisionError
  listing_deployments context_done : ApiError → RevisionError
  unexpected_changes : List (DeploymentRef × (String × String)) → RevisionError

pub record Observed (World : Type 0) : Type 0 where
  pub list_deployments : World → Result ApiError (List Deployed) × World
  -- `none` when the timer fired, the context's error when that was first
  pub sleep : ℕ → World → Option ApiError × World

abbrev pub ref_of : Deployed → DeploymentRef × String
ref_of d = (record { namespace = d.namespace; name = d.name }, d.revision)

pub same_ref_iff : (a b : DeploymentRef) → (same_ref a b ≡ true) ↔ (a ≡ b)
same_ref_iff a b = (
  λ h. ap₂ (λ n m. record { namespace = n; name = m }) (decided.0 h).0 (decided.0 h).1,
  λ h. decided.1 (ap (λ r. r.namespace) h, ap (λ r. r.name) h),
)
  where
    decided : (same_ref a b ≡ true) ↔ ((a.namespace ≡ b.namespace) × (a.name ≡ b.name))
    decided = ground (arith, eq_iff a.namespace b.namespace, eq_iff a.name b.name)

instance abbrev pub ref_key : Key DeploymentRef
ref_key = record { same = same_ref; same_iff = same_ref_iff }

-- The map that `snapshotDeploymentRevisions` builds of the listed deployments
unfoldable pub revisions_of : List Deployed → Revisions
unfolding insert_all
revisions_of deployments = insert_all (map ref_of deployments) []

-- The body of the comparing loop
abbrev pub change_of :
    DeploymentRef × String → Option String → Option (DeploymentRef × (String × String))
change_of (ref, initial) none = none
change_of (ref, initial) (some final) =
    if not (initial == final) then some (ref, (initial, final)) else none

unfoldable pub changed : Revisions → Revisions → List (DeploymentRef × (String × String))
changed final visited = collect (λ entry. change_of entry (lookup (entry.0) final)) visited

module _ {World : Type 0} (cluster : Observed World) (visit : Revisions → Revisions) where
  abbrev pub snapshot_of :
      Result ApiError (List Deployed) × World → Result RevisionError Revisions × World
  snapshot_of (ok deployments, w) = (ok (revisions_of deployments), w)
  snapshot_of (err e, w) = (err (listing_deployments e), w)

  -- `snapshotDeploymentRevisions`
  abbrev pub snapshot_deployment_revisions : Io RevisionError World Revisions
  snapshot_deployment_revisions w = snapshot_of (cluster.list_deployments w)

  -- The select on the timer and the context
  abbrev pub woken : Option ApiError × World → Result RevisionError (Unit {0}) × World
  woken (none, w) = (ok tt, w)
  woken (some e, w) = (err (context_done e), w)

  abbrev pub observe : ℕ → Io RevisionError World (Unit {0})
  observe period w = woken (cluster.sleep period w)

  abbrev pub compare_to : Revisions → Revisions → Io RevisionError World (Unit {0})
  compare_to initial final w = (report unexpected_changes (changed final (visit initial)), w)

  -- What follows the first snapshot: an empty one is stable.
  unfoldable pub watch : ℕ → Revisions → Io RevisionError World (Unit {0})
  watch period [] = pure tt
  watch period (entry ∷ initial) =
      observe period
      >> within final_snapshot snapshot_deployment_revisions
      >>= compare_to (entry ∷ initial)

  -- `VerifyDeploymentRevisionsStable`
  unfoldable pub verify_deployment_revisions_stable : ℕ → Io RevisionError World (Unit {0})
  verify_deployment_revisions_stable period =
      within initial_snapshot snapshot_deployment_revisions >>= watch period
