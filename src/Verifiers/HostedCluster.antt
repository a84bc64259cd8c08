-- ===== src/Verifiers/HostedCluster.antt =====
-- pkg/verifiers/hostedcluster.go. `unstructured.NestedSlice` of Kubernetes is a parameter.
pub mod Laws
use openshift_online_rosa_e.Base.{
  String, Bool, false, not, List, [], ◌∷◌, ◌++◌, ◌&&◌, ◌||◌, ◌==◌, if◌then◌else◌, Result, ok, err,
  Option, none, some, report, collect,
}
use openshift_online_rosa_e.Unstructured.{
  Value, as_map, Fields, ShapeError, get_string, get_conditions,
}
use openshift_online_rosa_e.Verifiers.Conditions.{ApiError, map_type, map_status}
use openshift_online_rosa_e.Verifiers.ClusterOperators.{Item}

-- An entry of `issues`
pub data HealthIssue : Type 0 where
  bad_condition : String → String → String → String → HealthIssue
  available_not_found degraded_not_found : HealthIssue

-- An entry of `unhealthy`
pub data PoolIssue : Type 0 where
  no_pool_conditions : String → PoolIssue
  unhealthy_pool : String → List (String × String) → PoolIssue

pub data HostedClusterError : Type 0 where
  getting_hosted_cluster : ApiError → HostedClusterError
  extracting_conditions : String → HostedClusterError
  no_status_conditions : HostedClusterError
  not_healthy : List HealthIssue → HostedClusterError
  listing_node_pools : ApiError → HostedClusterError
  no_node_pools : HostedClusterError
  unhealthy_node_pools : List PoolIssue → HostedClusterError

-- The variables of the loop in `verifyConditions`
pub record Scan : Type 0 where
  pub issues : List HealthIssue
  pub available_found : Bool
  pub degraded_found : Bool

abbrev pub describe : Fields → HealthIssue
describe cond_map =
    bad_condition (map_type cond_map) (map_status cond_map) (get_string "reason" cond_map)
      (get_string "message" cond_map)

-- `if condType == type { found = true; if condStatus != wanted { issues = append(...) } }`: the issue
abbrev pub mismatch : String → String → Fields → List HealthIssue
mismatch type wanted cond_map =
    if map_type cond_map == type
    then (if not (map_status cond_map == wanted) then describe cond_map ∷ [] else [])
    else []

abbrev pub note_map : Scan → Fields → Scan
note_map scan cond_map = record {
  issues =
      (scan.issues ++ mismatch "Available" "True" cond_map) ++ mismatch "Degraded" "False" cond_map;
  available_found = scan.available_found || (map_type cond_map == "Available");
  degraded_found = scan.degraded_found || (map_type cond_map == "Degraded");
}

-- The loop's body: what is no map is passed over.
abbrev pub note_condition : Scan → Option Fields → Scan
note_condition scan none = scan
note_condition scan (some cond_map) = note_map scan cond_map

unfoldable pub note_conditions : Scan → List Value → Scan
note_conditions scan [] = scan
note_conditions scan (cond ∷ conditions) =
    note_conditions (note_condition scan (as_map cond)) conditions

abbrev pub missing : Bool → HealthIssue → List HealthIssue
missing found issue = if not found then issue ∷ [] else []

-- The end of `verifyConditions`
abbrev pub conclude : Scan → Result HostedClusterError (Unit {0})
conclude scan = report not_healthy (
    (scan.issues ++ missing scan.available_found available_not_found)
    ++ missing scan.degraded_found degraded_not_found)

abbrev pub new_scan : Scan
new_scan = record { issues = []; available_found = false; degraded_found = false }

-- `verifyConditions`, from the answer of `NestedSlice`
unfoldable pub verify_conditions :
    Result String (Option (List Value)) → Result HostedClusterError (Unit {0})
unfolding note_conditions
verify_conditions (err e) = err (extracting_conditions e)
verify_conditions (ok none) = err no_status_conditions
verify_conditions (ok (some conditions)) = conclude (note_conditions new_scan conditions)

-- `VerifyHostedClusterHealthy`, from the answer to the reading of the object
unfoldable pub verify_hosted_cluster_healthy :
    (Fields → List String → Result String (Option (List Value)))
    → Result ApiError Item
    → Result HostedClusterError (Unit {0})
unfolding verify_conditions
verify_hosted_cluster_healthy nested_slice (err e) = err (getting_hosted_cluster e)
verify_hosted_cluster_healthy nested_slice (ok hc) =
    verify_conditions (nested_slice hc.content ("status" ∷ "conditions" ∷ []))

-- The flags `ready` and `nodesHealthy`: a condition of the type was True.
unfoldable pub some_true : String → List Fields → Bool
some_true type [] = false
some_true type (cond ∷ conditions) =
    ((map_type cond == type) && (map_status cond == "True")) || some_true type conditions

abbrev pub pool_detail : Fields → Option (String × String)
pool_detail cond =
    if (map_type cond == "Ready") || (map_type cond == "AllNodesHealthy")
    then some (map_type cond, map_status cond)
    else none

abbrev pub judge_pool : String → Result ShapeError (Option (List Fields)) → Option PoolIssue
judge_pool name (err e) = some (no_pool_conditions name)
judge_pool name (ok none) = some (no_pool_conditions name)
judge_pool name (ok (some conditions)) =
    if not (some_true "Ready" conditions) || not (some_true "AllNodesHealthy" conditions)
    then some (unhealthy_pool name (collect pool_detail conditions))
    else none

-- The loop's body of `VerifyNodePoolHealthy`
abbrev pub pool_issue : Item → Option PoolIssue
pool_issue np = judge_pool np.name (get_conditions np.content)

-- `VerifyNodePoolHealthy`, from the answer to the listing
unfoldable pub verify_node_pool_healthy :
    Result ApiError (List Item) → Result HostedClusterError (Unit {0})
verify_node_pool_healthy (err e) = err (listing_node_pools e)
verify_node_pool_healthy (ok []) = err no_node_pools
verify_node_pool_healthy (ok (np ∷ pools)) =
    report unhealthy_node_pools (collect pool_issue (np ∷ pools))
