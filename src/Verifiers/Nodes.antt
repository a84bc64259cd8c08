-- ===== src/Verifiers/Nodes.antt =====
-- pkg/verifiers/nodes.go
pub mod Laws
use openshift_online_rosa_e.Base.{
  ℕ, String, Bool, not, List, [], ◌∷◌, any, eqb, length, if◌then◌else◌, report, Result, ok, err,
}
use openshift_online_rosa_e.Verifiers.Conditions.{ApiError, Condition, is_condition}

pub record Node : Type 0 where
  pub name : String
  pub conditions : List Condition

pub data NodesError : Type 0 where
  listing_nodes listing_worker_nodes : ApiError → NodesError
  no_nodes : NodesError
  nodes_not_ready : List String → NodesError
  wrong_node_count : ℕ → ℕ → NodesError

-- The inner loop: `nodeIsReady`
abbrev pub node_is_ready : Node → Bool
node_is_ready node = any (is_condition "Ready" "True") node.conditions

-- The outer loop: `notReadyNodes`
unfoldable pub not_ready_nodes : List Node → List String
not_ready_nodes [] = []
not_ready_nodes (node ∷ nodes) =
    let rest = not_ready_nodes nodes in if not (node_is_ready node) then node.name ∷ rest else rest

-- `verifyAllNodesReady.Verify`, from the answer to the listing
unfoldable pub verify_all_nodes_ready : Result ApiError (List Node) → Result NodesError (Unit {0})
unfolding not_ready_nodes
verify_all_nodes_ready (err e) = err (listing_nodes e)
verify_all_nodes_ready (ok []) = err no_nodes
verify_all_nodes_ready (ok (node ∷ nodes)) = report nodes_not_ready (not_ready_nodes (node ∷ nodes))

-- `verifyNodeCount.Verify`, from the answer to the listing of the worker nodes
unfoldable pub verify_node_count : ℕ → Result ApiError (List Node) → Result NodesError (Unit {0})
verify_node_count expected (err e) = err (listing_worker_nodes e)
verify_node_count expected (ok nodes) =
    if not (eqb (length nodes) expected)
    then err (wrong_node_count expected (length nodes))
    else ok tt
