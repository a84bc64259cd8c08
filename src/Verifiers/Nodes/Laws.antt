-- ===== src/Verifiers/Nodes/Laws.antt =====
-- When the checks of pkg/verifiers/nodes.go pass, and what a failing one names.
use openshift_online_rosa_e.Base.{
  ℕ, ◌≡◌, refl, ◌≢◌, ◌↔◌, true, List, [], ◌∷◌, all, Any, All, any_iff, all_iff, arith, length,
  Result, ok, err, report_iff, OkAnd, eqb_iff,
}
use openshift_online_rosa_e.Verifiers.Conditions.{ApiError, IsCondition, is_condition_iff}
use openshift_online_rosa_e.Verifiers.Nodes.{
  Node, nodes_not_ready, node_is_ready, not_ready_nodes, verify_all_nodes_ready, verify_node_count,
}

abbrev pub IsReady : Node → Type 0
IsReady node = Any (IsCondition "Ready" "True") node.conditions

node_is_ready_iff : (node : Node) → (node_is_ready node ≡ true) ↔ IsReady node
node_is_ready_iff node = any_iff (is_condition_iff "Ready" "True") node.conditions

not_ready_nodes-eq-nil :
    (nodes : List Node) → (not_ready_nodes nodes ≡ []) ↔ (all node_is_ready nodes ≡ true)
unfolding not_ready_nodes
not_ready_nodes-eq-nil [] = ground arith
not_ready_nodes-eq-nil (node ∷ nodes) = ground (arith, not_ready_nodes-eq-nil nodes)

-- The check passes exactly when the listing succeeded, there is a node, and each node has a Ready
-- condition that is True.
pub verify_all_nodes_ready_iff :
    (answer : Result ApiError (List Node))
    → (verify_all_nodes_ready answer ≡ ok tt)
      ↔ OkAnd (λ nodes. (nodes ≢ []) × All IsReady nodes) answer
unfolding verify_all_nodes_ready
verify_all_nodes_ready_iff (err e) = (λ h. cc, λ h. absurd h)
verify_all_nodes_ready_iff (ok []) = (λ h. cc, λ h. absurd (h.0 refl))
verify_all_nodes_ready_iff (ok (node ∷ nodes)) = (
  λ h. (
    λ k. cc,
    (ready.0 (
        (not_ready_nodes-eq-nil (node ∷ nodes)).0
          ((report_iff nodes_not_ready (not_ready_nodes (node ∷ nodes))).0 h))),
  ),
  λ h.
      (report_iff nodes_not_ready (not_ready_nodes (node ∷ nodes))).1
        ((not_ready_nodes-eq-nil (node ∷ nodes)).1 (ready.1 h.1)),
)
  where
    ready : (all node_is_ready (node ∷ nodes) ≡ true) ↔ All IsReady (node ∷ nodes)
    ready = all_iff node_is_ready_iff (node ∷ nodes)

-- The count passes exactly when the listing of the worker nodes succeeded with the expected length.
pub verify_node_count_iff :
    (expected : ℕ) (answer : Result ApiError (List Node))
    → (verify_node_count expected answer ≡ ok tt) ↔ OkAnd (λ nodes. length nodes ≡ expected) answer
unfolding verify_node_count
verify_node_count_iff expected (err e) = (λ h. cc, λ h. absurd h)
verify_node_count_iff expected (ok nodes) = ground (arith, eqb_iff (length nodes) expected)
