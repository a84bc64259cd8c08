-- ===== src/Verifiers/ServiceCluster.antt =====
-- The hubs and engines of pkg/verifiers/service_cluster.go. Its deployments stand with the others.
pub mod Laws
use openshift_online_rosa_e.Base.{
  String, Bool, false, List, [], ◌∷◌, ◌==◌, any, Result, ok, err, Option, none, some, require,
}
use openshift_online_rosa_e.Unstructured.{ShapeError, get_nested_field}
use openshift_online_rosa_e.Verifiers.Conditions.{ApiError}
use openshift_online_rosa_e.Verifiers.ClusterOperators.{Item}

pub data ServiceError : Type 0 where
  listing_resources : String → ApiError → ServiceError
  no_resources no_resource_in_phase : String → ServiceError

-- `if err != nil || !found { continue }; if status == phase { return nil }`
abbrev pub has_phase : String → Result ShapeError (Option String) → Bool
has_phase phase (err e) = false
has_phase phase (ok none) = false
has_phase phase (ok (some status)) = status == phase

abbrev pub is_in_phase : String → Item → Bool
is_in_phase phase item = has_phase phase (get_nested_field item.content ("status" ∷ "phase" ∷ []))

-- `VerifyACMHub` and `VerifyMCE`, which differ in the resource and the phase
unfoldable pub verify_resource_in_phase :
    String → String → Result ApiError (List Item) → Result ServiceError (Unit {0})
verify_resource_in_phase resource phase (err e) = err (listing_resources resource e)
verify_resource_in_phase resource phase (ok []) = err (no_resources resource)
verify_resource_in_phase resource phase (ok (item ∷ items)) =
    require (any (is_in_phase phase) (item ∷ items)) (no_resource_in_phase resource)

abbrev pub verify_acm_hub : Result ApiError (List Item) → Result ServiceError (Unit {0})
verify_acm_hub answer = verify_resource_in_phase "multiclusterhubs" "Running" answer

abbrev pub verify_mce : Result ApiError (List Item) → Result ServiceError (Unit {0})
verify_mce answer = verify_resource_in_phase "multiclusterengines" "Available" answer
