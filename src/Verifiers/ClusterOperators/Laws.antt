-- ===== src/Verifiers/ClusterOperators/Laws.antt =====
-- When the check of pkg/verifiers/clusteroperators.go passes.
use openshift_online_rosa_e.Base.{String, ◌≡◌, List, Any, Option, none, some}
use openshift_online_rosa_e.Base.Text.{trim_space}
use openshift_online_rosa_e.Unstructured.{Fields}
use openshift_online_rosa_e.Verifiers.Conditions.{IsMapCondition}

-- The name is one of the excluded ones, once the spaces around those are dropped.
abbrev pub IsExcluded : List String → String → Type 0
IsExcluded exclude_operators name = Any (λ op. trim_space op ≡ name) exclude_operators

-- Conditions that the check is content with
abbrev pub AreHealthy : Option (List Fields) → Type 0
AreHealthy none = ⊥
AreHealthy (some conditions) =
    Any (IsMapCondition "Available" "True") conditions
    × Any (IsMapCondition "Degraded" "False") conditions
