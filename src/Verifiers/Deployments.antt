-- ===== src/Verifiers/Deployments.antt =====
-- The checks on deployments: pkg/verifiers/management_cluster.go, workload.go, hcp_namespace.go, the
-- audit webhook of managed_operators.go, and the deployments of service_cluster.go.
pub mod Laws
use openshift_online_rosa_e.Base.{
  ℕ, String, Bool, false, not, List, [], ◌∷◌, any, eqb, if◌then◌else◌, Result, ok, err, Option,
  none, some, report, collect, require,
}
use openshift_online_rosa_e.Verifiers.Conditions.{ApiError, Condition, is_condition}

-- The fields that the checks read. The API server refuses a negative number of replicas.
pub record Deployment : Type 0 where
  pub name : String
  pub spec_replicas : Option ℕ
  pub conditions : List Condition
  pub ready_replicas : ℕ
  pub replicas : ℕ

-- A line of the report on a namespace
pub record Unhealthy : Type 0 where
  pub deployment_name : String
  pub ready : ℕ
  pub total : ℕ

pub data DeploymentError : Type 0 where
  getting_deployment : String → String → ApiError → DeploymentError
  not_available : String → String → ℕ → ℕ → DeploymentError
  not_available_with : String → String → List Condition → DeploymentError
  listing_deployments : String → ApiError → DeploymentError
  no_deployments : String → DeploymentError
  unhealthy_deployments : String → List Unhealthy → DeploymentError

abbrev pub is_available : Deployment → Bool
is_available deploy = any (is_condition "Available" "True") deploy.conditions

-- The API server: `Get` and `List` of a namespace's deployments
pub record Deployments : Type 0 where
  pub get : String → String → Result ApiError Deployment
  pub list : String → Result ApiError (List Deployment)

abbrev pub judge_deployment :
    String → String → Result ApiError Deployment → Result DeploymentError (Unit {0})
judge_deployment namespace name (err e) = err (getting_deployment namespace name e)
judge_deployment namespace name (ok deploy) =
    require (is_available deploy)
      (not_available namespace name deploy.ready_replicas deploy.replicas)

module _ (client : Deployments) where
  -- `verifyDeploymentInNamespace`
  unfoldable pub verify_deployment_in_namespace :
      String → String → Result DeploymentError (Unit {0})
  verify_deployment_in_namespace namespace name =
      judge_deployment namespace name (client.get namespace name)

  abbrev pub verify_hyper_shift_operator : Result DeploymentError (Unit {0})
  verify_hyper_shift_operator = verify_deployment_in_namespace "hypershift" "operator"

  abbrev pub verify_external_dns : Result DeploymentError (Unit {0})
  verify_external_dns = verify_deployment_in_namespace "hypershift" "external-dns"

  abbrev pub verify_capi_provider : String → Result DeploymentError (Unit {0})
  verify_capi_provider hcp_namespace = verify_deployment_in_namespace hcp_namespace "capi-provider"

  abbrev pub verify_cert_manager : Result DeploymentError (Unit {0})
  verify_cert_manager = verify_deployment_in_namespace "cert-manager" "cert-manager"

  abbrev pub verify_hive_controllers : Result DeploymentError (Unit {0})
  verify_hive_controllers = verify_deployment_in_namespace "hive" "hive-controllers"

  -- `VerifyAuditWebhook`
  abbrev pub verify_audit_webhook : String → Result DeploymentError (Unit {0})
  verify_audit_webhook namespace =
      judge_deployment namespace "audit-webhook" (client.get namespace "audit-webhook")

abbrev pub judge_with_conditions :
    String → String → Result ApiError Deployment → Result DeploymentError (Unit {0})
judge_with_conditions namespace name (err e) = err (getting_deployment namespace name e)
judge_with_conditions namespace name (ok deployment) =
    require (is_available deployment) (not_available_with namespace name deployment.conditions)

-- `VerifyDeploymentAvailable`
unfoldable pub verify_deployment_available :
    Deployments → String → String → Result DeploymentError (Unit {0})
verify_deployment_available client namespace name =
    judge_with_conditions namespace name (client.get namespace name)

-- `deploy.Spec.Replicas != nil && *deploy.Spec.Replicas == 0`
abbrev pub is_scaled_to_zero : Option ℕ → Bool
is_scaled_to_zero none = false
is_scaled_to_zero (some n) = eqb n 0

-- The loop's body of `VerifyHCPNamespaceHealthy`
unfoldable pub unhealthy_deployment : Deployment → Option Unhealthy
unhealthy_deployment deploy =
    if is_scaled_to_zero deploy.spec_replicas
    then none
    else if not (is_available deploy)
    then some (record {
      deployment_name = deploy.name;
      ready = deploy.ready_replicas;
      total = deploy.replicas;
    })
    else none

abbrev pub judge_namespace :
    String → Result ApiError (List Deployment) → Result DeploymentError (Unit {0})
judge_namespace hcp_namespace (err e) = err (listing_deployments hcp_namespace e)
judge_namespace hcp_namespace (ok []) = err (no_deployments hcp_namespace)
judge_namespace hcp_namespace (ok (deploy ∷ deployments)) =
    report (unhealthy_deployments hcp_namespace)
      (collect unhealthy_deployment (deploy ∷ deployments))

-- `VerifyHCPNamespaceHealthy`
unfoldable pub verify_hcp_namespace_healthy :
    Deployments → String → Result DeploymentError (Unit {0})
verify_hcp_namespace_healthy mc_client hcp_namespace =
    judge_namespace hcp_namespace (mc_client.list hcp_namespace)
