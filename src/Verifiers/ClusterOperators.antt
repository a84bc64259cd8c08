-- ===== src/Verifiers/ClusterOperators.antt =====
-- pkg/verifiers/clusteroperators.go
pub mod Laws
use openshift_online_rosa_e.Base.{
  String, Bool, not, List, [], ◌∷◌, ◌||◌, ◌==◌, any, if◌then◌else◌, Result, ok, err, ◌>>=◌, Option,
  none, some, report, collect, gather_results,
}
use openshift_online_rosa_e.Base.Text.{trim_space}
use openshift_online_rosa_e.Unstructured.{Fields, ShapeError, get_conditions}
use openshift_online_rosa_e.Verifiers.Conditions.{ApiError, map_type, map_status, is_map_condition}

pub record Item : Type 0 where
  pub name : String
  pub content : Fields

-- An entry of `unhealthy`
pub data OperatorIssue : Type 0 where
  no_conditions_found : String → OperatorIssue
  unhealthy_operator : String → List (String × String) → OperatorIssue

pub data OperatorsError : Type 0 where
  listing_clusteroperators : ApiError → OperatorsError
  no_clusteroperators : OperatorsError
  getting_conditions : String → ShapeError → OperatorsError
  unhealthy_clusteroperators : List OperatorIssue → OperatorsError

-- `excluded[name]`, of the set that the first loop builds
unfoldable pub is_excluded : List String → String → Bool
is_excluded exclude_operators name = any (λ op. trim_space op == name) exclude_operators

abbrev pub is_reported : Fields → Bool
is_reported cond =
    (map_type cond == "Available")
    || ((map_type cond == "Degraded") || (map_type cond == "Progressing"))

abbrev pub condition_detail : Fields → Option (String × String)
condition_detail cond = if is_reported cond then some (map_type cond, map_status cond) else none

abbrev pub available : List Fields → Bool
available conditions = any (is_map_condition "Available" "True") conditions

abbrev pub degraded : List Fields → Bool
degraded conditions = not (any (is_map_condition "Degraded" "False") conditions)

-- What the loop does with the conditions of an operator that is not excluded
abbrev pub judge_operator :
    String → Result ShapeError (Option (List Fields)) → Result OperatorsError (List OperatorIssue)
judge_operator name (err e) = err (getting_conditions name e)
judge_operator name (ok none) = ok (no_conditions_found name ∷ [])
judge_operator name (ok (some conditions)) =
    if not (available conditions) || degraded conditions
    then ok (unhealthy_operator name (collect condition_detail conditions) ∷ [])
    else ok []

-- The loop's body
unfoldable pub operator_issues : List String → Item → Result OperatorsError (List OperatorIssue)
unfolding is_excluded get_conditions
operator_issues exclude_operators item =
    if is_excluded exclude_operators item.name
    then ok []
    else judge_operator item.name (get_conditions item.content)

-- `VerifyClusterOperatorsHealthy`, from the answer to the listing
unfoldable pub verify_cluster_operators_healthy :
    Result ApiError (List Item) → List String → Result OperatorsError (Unit {0})
unfolding operator_issues
verify_cluster_operators_healthy (err e) exclude_operators = err (listing_clusteroperators e)
verify_cluster_operators_healthy (ok []) exclude_operators = err no_clusteroperators
verify_cluster_operators_healthy (ok (item ∷ items)) exclude_operators =
    gather_results (operator_issues exclude_operators) (item ∷ items)
    >>= report unhealthy_clusteroperators
