-- ===== src/Verifiers/Deployments/Laws.antt =====
-- When the checks on deployments pass.
use openshift_online_rosa_e.Base.{
  ℕ, String, ◌≡◌, refl, ◌≢◌, ◌↔◌, ◌⊎◌, inl, inr, true, List, [], ◌∷◌, Any, any_iff, All, arith,
  Result, ok, err, Option, none, some, Bool-cases, clash, report-collect_iff, require_iff, OkAnd,
}
use openshift_online_rosa_e.Verifiers.Conditions.{ApiError, IsCondition, is_condition_iff}
use openshift_online_rosa_e.Verifiers.Deployments.{
  Deployment, Deployments, is_available, judge_deployment, judge_with_conditions, judge_namespace,
  is_scaled_to_zero, unhealthy_deployment, unhealthy_deployments, verify_deployment_in_namespace,
  verify_deployment_available, verify_hcp_namespace_healthy,
}

abbrev pub IsAvailable : Deployment → Type 0
IsAvailable deploy = Any (IsCondition "Available" "True") deploy.conditions

-- A deployment that the check of a namespace is content with
abbrev pub IsServing : Deployment → Type 0
IsServing deploy = (deploy.spec_replicas ≡ some 0) ⊎ IsAvailable deploy

is_available_iff : (deploy : Deployment) → (is_available deploy ≡ true) ↔ IsAvailable deploy
is_available_iff deploy = any_iff (is_condition_iff "Available" "True") deploy.conditions

judge_deployment_iff :
    (namespace name : String) (answer : Result ApiError Deployment)
    → (judge_deployment namespace name answer ≡ ok tt) ↔ OkAnd IsAvailable answer
judge_deployment_iff namespace name (err e) = (λ h. cc, λ h. absurd h)
judge_deployment_iff namespace name (ok deploy) = (
  λ h. up.0 ((require_iff (is_available deploy) _).0 h),
  λ h. (require_iff (is_available deploy) _).1 (up.1 h),
)
  where
    up : (is_available deploy ≡ true) ↔ IsAvailable deploy
    up = is_available_iff deploy

judge_with_conditions_iff :
    (namespace name : String) (answer : Result ApiError Deployment)
    → (judge_with_conditions namespace name answer ≡ ok tt) ↔ OkAnd IsAvailable answer
judge_with_conditions_iff namespace name (err e) = (λ h. cc, λ h. absurd h)
judge_with_conditions_iff namespace name (ok deploy) = (
  λ h. up.0 ((require_iff (is_available deploy) _).0 h),
  λ h. (require_iff (is_available deploy) _).1 (up.1 h),
)
  where
    up : (is_available deploy ≡ true) ↔ IsAvailable deploy
    up = is_available_iff deploy

-- Both checks of one deployment pass exactly when the deployment was read and has an Available
-- condition that is True.
pub verify_deployment_iff :
    (client : Deployments) (namespace name : String)
    → ((verify_deployment_in_namespace client namespace name ≡ ok tt)
        ↔ OkAnd IsAvailable (client.get namespace name))
      × ((verify_deployment_available client namespace name ≡ ok tt)
          ↔ OkAnd IsAvailable (client.get namespace name))
unfolding verify_deployment_in_namespace verify_deployment_available
verify_deployment_iff client namespace name =
    (judge_deployment_iff namespace name _, judge_with_conditions_iff namespace name _)

is_scaled_to_zero_iff :
    (replicas : Option ℕ) → (is_scaled_to_zero replicas ≡ true) ↔ (replicas ≡ some 0)
is_scaled_to_zero_iff none = ground arith
is_scaled_to_zero_iff (some n) = ground arith

unhealthy_deployment-eq-none :
    (deploy : Deployment) → (unhealthy_deployment deploy ≡ none) ↔ IsServing deploy
unfolding unhealthy_deployment
unhealthy_deployment-eq-none deploy = elim (Bool-cases (is_scaled_to_zero deploy.spec_replicas)) [
  | inl zero ↦ rw zero ((λ _. inl ((is_scaled_to_zero_iff deploy.spec_replicas).0 zero), λ _. refl))
  | inr busy ↦ elim (Bool-cases (is_available deploy)) [
    | inl up ↦ rw (busy, up) ((λ _. inr ((is_available_iff deploy).0 up), λ _. refl))
    | inr down ↦
        rw (busy, down)
          ((
            λ h. cc,
            elim [
              | inl zero ↦ (clash ((is_scaled_to_zero_iff deploy.spec_replicas).1 zero) busy)
              | inr up ↦ (clash ((is_available_iff deploy).1 up) down)
            ],
          ))
  ]
]

judge_namespace_iff :
    (namespace : String) (answer : Result ApiError (List Deployment))
    → (judge_namespace namespace answer ≡ ok tt)
      ↔ OkAnd (λ all. (all ≢ []) × All IsServing all) answer
judge_namespace_iff namespace (err e) = (λ h. cc, λ h. absurd h)
judge_namespace_iff namespace (ok []) = (λ h. cc, λ h. absurd (h.0 refl))
judge_namespace_iff namespace (ok (deploy ∷ deployments)) =
    let serving =
      report-collect_iff unhealthy_deployment-eq-none (unhealthy_deployments namespace)
        (deploy ∷ deployments) in
    (λ h. (λ k. cc, serving.0 h), λ h. serving.1 h.1)

-- The check of a hosted control plane's namespace passes exactly when the listing succeeded, there is
-- a deployment, and each one asks for zero replicas or has an Available condition that is True.
pub verify_hcp_namespace_healthy_iff :
    (client : Deployments) (namespace : String)
    → (verify_hcp_namespace_healthy client namespace ≡ ok tt)
      ↔ OkAnd
          (λ deployments. (deployments ≢ []) × All IsServing deployments)
          (client.list namespace)
unfolding verify_hcp_namespace_healthy
verify_hcp_namespace_healthy_iff client namespace =
    judge_namespace_iff namespace (client.list namespace)
