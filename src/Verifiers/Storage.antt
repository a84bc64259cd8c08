-- ===== src/Verifiers/Storage.antt =====
-- pkg/verifiers/storage.go, cluster.go and classic.go
pub mod Laws
use openshift_online_rosa_e.Base.{
  ℕ, String, Bool, not, ◌==◌, eqb, if◌then◌else◌, Result, ok, err, Option, none, some, require,
}
use openshift_online_rosa_e.Unstructured.{Fields, get_map?, get_bool?}
use openshift_online_rosa_e.Verifiers.Conditions.{ApiError}
use openshift_online_rosa_e.Verifiers.ClusterOperators.{Item}

pub data StorageError : Type 0 where
  getting_pvc getting_snapshot : ApiError → StorageError
  pvc_not_bound : String → StorageError
  no_snapshot_status no_ready_to_use snapshot_not_ready : StorageError

-- `VerifyPVCBound`, from the answer to the reading of the claim, which is its phase
unfoldable pub verify_pvc_bound : Result ApiError String → Result StorageError (Unit {0})
verify_pvc_bound (err e) = err (getting_pvc e)
verify_pvc_bound (ok phase) = require (phase == "Bound") (pvc_not_bound phase)

abbrev pub judge_ready : Option Bool → Result StorageError (Unit {0})
judge_ready none = err no_ready_to_use
judge_ready (some ready_to_use) = require ready_to_use snapshot_not_ready

abbrev pub judge_status : Option Fields → Result StorageError (Unit {0})
judge_status none = err no_snapshot_status
judge_status (some status) = judge_ready (get_bool? "readyToUse" status)

-- `VerifyVolumeSnapshotReady`, from the answer to the reading of the snapshot
unfoldable pub verify_volume_snapshot_ready : Result ApiError Item → Result StorageError (Unit {0})
verify_volume_snapshot_ready (err e) = err (getting_snapshot e)
verify_volume_snapshot_ready (ok snapshot) = judge_status (get_map? "status" snapshot.content)

pub data ClusterError : Type 0 where
  getting_cluster : String → ApiError → ClusterError
  unexpected_state : String → String → String → ClusterError
  listing_machine_pools : String → ApiError → ClusterError
  unexpected_status : ℕ → String → ClusterError
  no_machine_pools : String → ClusterError

-- `VerifyClusterReady` and `VerifyClusterDeleting`, which differ in the state
unfoldable pub verify_cluster_state :
    String → String → Result ApiError String → Result ClusterError (Unit {0})
verify_cluster_state wanted cluster_id (err e) = err (getting_cluster cluster_id e)
verify_cluster_state wanted cluster_id (ok state) =
    require (state == wanted) (unexpected_state cluster_id wanted state)

abbrev pub verify_cluster_ready : String → Result ApiError String → Result ClusterError (Unit {0})
verify_cluster_ready cluster_id answer = verify_cluster_state "ready" cluster_id answer

abbrev pub verify_cluster_deleting :
    String → Result ApiError String → Result ClusterError (Unit {0})
verify_cluster_deleting cluster_id answer = verify_cluster_state "uninstalling" cluster_id answer

-- `VerifyMachinePoolsExist`, from the HTTP status and the total of the listing
unfoldable pub verify_machine_pools_exist :
    String → Result ApiError (ℕ × ℕ) → Result ClusterError (Unit {0})
verify_machine_pools_exist cluster_id (err e) = err (listing_machine_pools cluster_id e)
verify_machine_pools_exist cluster_id (ok (status, total)) =
    if not (eqb status 200)
    then err (unexpected_status status cluster_id)
    else if eqb total 0
    then err (no_machine_pools cluster_id)
    else ok tt
