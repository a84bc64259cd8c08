-- ===== src/Verifiers/ManagedOperators.antt =====
-- The route monitors and VPC endpoints of pkg/verifiers/managed_operators.go. `unstructured.NestedSlice`
-- of Kubernetes is a parameter.
pub mod Laws
use openshift_online_rosa_e.Base.{
  String, Bool, true, false, List, [], ◌∷◌, ◌++◌, ◌||◌, ◌==◌, if◌then◌else◌, Result, ok, err, ◌>>=◌,
  Option, none, some, report, gather_results,
}
use openshift_online_rosa_e.Base.Text.{equal_fold}
use openshift_online_rosa_e.Unstructured.{Value, as_map, Fields}
use openshift_online_rosa_e.Verifiers.Conditions.{ApiError, map_type, map_status}
use openshift_online_rosa_e.Verifiers.ClusterOperators.{Item}

-- An entry of `unavailable`
pub data EndpointIssue : Type 0 where
  no_status : String → EndpointIssue
  bad_status : String → Fields → EndpointIssue
  condition_not_found : String → EndpointIssue

pub data ManagedError : Type 0 where
  listing_route_monitors listing_vpc_endpoints : ApiError → ManagedError
  no_route_monitors no_vpc_endpoints : ManagedError
  extracting : String → String → ManagedError
  unavailable_endpoints : List EndpointIssue → ManagedError

-- `VerifyRMORouteMonitors`, from the answer to the listing
unfoldable pub verify_rmo_route_monitors :
    Result ApiError (List Item) → Result ManagedError (Unit {0})
verify_rmo_route_monitors (err e) = err (listing_route_monitors e)
verify_rmo_route_monitors (ok []) = err no_route_monitors
verify_rmo_route_monitors (ok (monitor ∷ monitors)) = ok tt

abbrev pub is_readiness : Fields → Bool
is_readiness cond_map =
    (map_type cond_map == "AWSVpcEndpointReady") || equal_fold (map_type cond_map) "available"

abbrev pub is_true : Fields → Bool
is_true cond_map = equal_fold (map_status cond_map) "true"

-- One condition, with what the rest of the loop yields: `availableCondFound` and the issues. A true
-- condition ends the loop.
abbrev pub note_endpoint_map :
    String → Bool × List EndpointIssue → Fields → Bool × List EndpointIssue
note_endpoint_map name rest cond_map =
    if is_readiness cond_map
    then (if is_true cond_map then (true, []) else (true, bad_status name cond_map ∷ rest.1))
    else rest

unfoldable pub scan_endpoint : String → List Value → Bool × List EndpointIssue
scan_endpoint name [] = (false, [])
scan_endpoint name (cond ∷ conditions) =
    let rest = scan_endpoint name conditions in
    elim (as_map cond) [ none ↦ rest | some cond_map ↦ note_endpoint_map name rest cond_map ]

abbrev pub add_missing : String → Bool × List EndpointIssue → List EndpointIssue
add_missing name (true, issues) = issues
add_missing name (false, issues) = issues ++ (condition_not_found name ∷ [])

-- What the loop does with the answer of `NestedSlice`
abbrev pub judge_endpoint :
    String → Result String (Option (List Value)) → Result ManagedError (List EndpointIssue)
judge_endpoint name (err e) = err (extracting name e)
judge_endpoint name (ok none) = ok (no_status name ∷ [])
judge_endpoint name (ok (some conditions)) = ok (add_missing name (scan_endpoint name conditions))

-- `VerifyAVOVpcEndpoints`, from the answer to the listing
unfoldable pub verify_avo_vpc_endpoints :
    (Fields → List String → Result String (Option (List Value)))
    → Result ApiError (List Item)
    → Result ManagedError (Unit {0})
verify_avo_vpc_endpoints nested_slice (err e) = err (listing_vpc_endpoints e)
verify_avo_vpc_endpoints nested_slice (ok []) = err no_vpc_endpoints
verify_avo_vpc_endpoints nested_slice (ok (vpe ∷ endpoints)) =
    gather_results
      (λ vpe. judge_endpoint vpe.name (nested_slice vpe.content ("status" ∷ "conditions" ∷ [])))
      (vpe ∷ endpoints)
    >>= report unavailable_endpoints
