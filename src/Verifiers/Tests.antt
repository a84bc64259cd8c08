-- ===== src/Verifiers/Tests.antt =====
-- The checks of pkg/verifiers on Kubernetes objects, run, and the theorems at their data.
use openshift_online_rosa_e.Base.{
  String, ◌≡◌, refl, ◌≢◌, ◌↔◌, inl, List, [], ◌∷◌, All, Option, none, some, Result, ok, OkAnd,
}
use openshift_online_rosa_e.Unstructured.{
  Fields, Items, Value, array, cons, end, field, get_map?, get_slice?, nil, object, text,
}
use openshift_online_rosa_e.Verifiers.Conditions.{ApiError, Condition}
use openshift_online_rosa_e.Verifiers.Nodes.{Node, verify_all_nodes_ready}
use openshift_online_rosa_e.Verifiers.Nodes.Laws.{verify_all_nodes_ready_iff}
use openshift_online_rosa_e.Verifiers.Deployments.{
  Deployment, Deployments, verify_hcp_namespace_healthy,
}
use openshift_online_rosa_e.Verifiers.Deployments.Laws.{IsServing, verify_hcp_namespace_healthy_iff}
use openshift_online_rosa_e.Verifiers.ClusterOperators.{Item}
use openshift_online_rosa_e.Verifiers.HostedCluster.{verify_hosted_cluster_healthy}
use openshift_online_rosa_e.Verifiers.HostedCluster.Laws.{
  FoundHealthy, verify_hosted_cluster_healthy_iff,
}

-- Objects

abbrev condition : String → String → Condition
condition type status = record { condition_type = type; status = status }

abbrev map_of : String → String → Fields
map_of type status = field "type" (text type) (field "status" (text status) end)

abbrev with_conditions : String → Items → Item
with_conditions name conditions = record {
  name = name;
  content = field "status" (object (field "conditions" (array conditions) end)) end;
}

-- `unstructured.NestedSlice` where the fields on the way are maps
abbrev nested : Fields → List String → Result String (Option (List Value))
nested m names = elim (get_map? "status" m) [
  | none ↦ ok none
  | some status ↦ ok (get_slice? "conditions" status)
]

abbrev nodes : Result ApiError (List Node)
nodes = ok (record { name = "a"; conditions = condition "Ready" "True" ∷ [] } ∷ [])

nodes_are_ready : verify_all_nodes_ready nodes ≡ ok tt
nodes_are_ready = (verify_all_nodes_ready_iff nodes).1 (λ h. cc, (inl (refl, refl), tt))

abbrev idle : Deployment
idle = record {
  name = "idle";
  spec_replicas = some 0;
  conditions = [];
  ready_replicas = 0;
  replicas = 0;
}

abbrev deployments : Deployments
deployments = record { get = λ namespace name. ok idle; list = λ namespace. ok (idle ∷ []) }

verify_hcp_namespace_healthy_iff_example :
    (verify_hcp_namespace_healthy deployments "ns" ≡ ok tt)
    ↔ OkAnd (λ all. (all ≢ []) × All IsServing all) (deployments.list "ns")
verify_hcp_namespace_healthy_iff_example = verify_hcp_namespace_healthy_iff deployments "ns"

abbrev operators : Result ApiError (List Item)
operators = ok (
    with_conditions "dns"
      (cons (object (map_of "Available" "True")) (cons (object (map_of "Degraded" "False")) nil))
    ∷ with_conditions "insights" (cons (text "no map") nil)
    ∷ [])

abbrev hosted : Result ApiError Item
hosted = ok (
    with_conditions "hc" (
      cons (object (map_of "Available" "True"))
        (cons (text "no map") (cons (object (map_of "Degraded" "False")) nil))))

verify_hosted_cluster_healthy_iff_example :
    (verify_hosted_cluster_healthy nested hosted ≡ ok tt)
    ↔ OkAnd (λ hc. OkAnd FoundHealthy (nested hc.content ("status" ∷ "conditions" ∷ []))) hosted
verify_hosted_cluster_healthy_iff_example = verify_hosted_cluster_healthy_iff nested hosted
