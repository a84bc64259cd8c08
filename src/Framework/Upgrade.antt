-- ===== src/Framework/Upgrade.antt =====
-- pkg/framework/upgrade.go. The OCM SDK is a parameter; times are numbers of seconds.
pub mod Complete
use openshift_online_rosa_e.Base.{
  ℕ, ◌+◌, String, ◌==◌, List, [], ◌∷◌, if◌then◌else◌, Result, ok, err, Option, none, some,
}
use openshift_online_rosa_e.Base.Io.{Io}
use openshift_online_rosa_e.Framework.Ocm.{ApiError, Event, timeout, tick, settle}

-- What the builders of the three kinds of policies are told
pub record UpgradePolicy : Type 0 where
  pub version : String
  pub schedule_type : String
  pub upgrade_type : String
  pub next_run : ℕ

-- The collections of policies: of a cluster's control plane, of a cluster, and of a node pool
pub data Policies : Type 0 where
  control_plane_policies cluster_policies : String → Policies
  node_pool_policies : String → String → Policies

pub data UpgradeError : Type 0 where
  building_policy creating_policy : ApiError → UpgradeError
  timed_out_waiting : String → UpgradeError

pub record UpgradeApi (World : Type 0) : Type 0 where
  pub now : World → ℕ
  -- `Build`, which may refuse a policy
  pub build : UpgradePolicy → Option ApiError
  pub add : Policies → UpgradePolicy → World → Result ApiError (Unit {0}) × World

abbrev pub manual_policy : String → String → ℕ → UpgradePolicy
manual_policy upgrade_type target_version now = record {
  version = target_version;
  schedule_type = "manual";
  upgrade_type = upgrade_type;
  next_run = now + 300;
}

module _ {World : Type 0} (api : UpgradeApi World) where
  abbrev pub added : Result ApiError (Unit {0}) × World → Result UpgradeError (Unit {0}) × World
  added (ok tt, w) = (ok tt, w)
  added (err e, w) = (err (creating_policy e), w)

  abbrev pub send : Policies → UpgradePolicy → Option ApiError → Io UpgradeError World (Unit {0})
  send policies policy (some e) w = (err (building_policy e), w)
  send policies policy none w = added (api.add policies policy w)

  -- The common body of the three functions
  unfoldable pub initiate : Policies → String → String → Io UpgradeError World (Unit {0})
  initiate policies upgrade_type target_version w =
      let policy = manual_policy upgrade_type target_version (api.now w) in
      send policies policy (api.build policy) w

  -- `InitiateControlPlaneUpgrade`
  abbrev pub initiate_control_plane_upgrade : String → String → Io UpgradeError World (Unit {0})
  initiate_control_plane_upgrade cluster_id =
      initiate (control_plane_policies cluster_id) "ControlPlane"

  -- `InitiateClusterUpgrade`
  abbrev pub initiate_cluster_upgrade : String → String → Io UpgradeError World (Unit {0})
  initiate_cluster_upgrade cluster_id = initiate (cluster_policies cluster_id) "OSD"

  -- `InitiateNodePoolUpgrade`
  abbrev pub initiate_node_pool_upgrade :
      String → String → String → Io UpgradeError World (Unit {0})
  initiate_node_pool_upgrade cluster_id node_pool_id =
      initiate (node_pool_policies cluster_id node_pool_id) "NodePool"

-- What an event, the end of the timeout or a tick with the cluster's version, brings about
abbrev pub upgrade_verdict : String → String → Event → Option (Result UpgradeError (Unit {0}))
upgrade_verdict cluster_id target_version timeout = some (err (timed_out_waiting cluster_id))
upgrade_verdict cluster_id target_version (tick (err e)) = none
upgrade_verdict cluster_id target_version (tick (ok current_version)) =
    if current_version == target_version then some (ok tt) else none

-- `WaitForUpgradeComplete`, over the events so far; `none` where it still waits
unfoldable pub wait_for_upgrade_complete :
    String → String → List Event → Option (Result UpgradeError (Unit {0}))
wait_for_upgrade_complete cluster_id target_version [] = none
wait_for_upgrade_complete cluster_id target_version (event ∷ events) =
    settle (upgrade_verdict cluster_id target_version event)
      (wait_for_upgrade_complete cluster_id target_version events)
