-- ===== src/Framework/Fixtures/Created.antt =====
-- What stands when the functions of pkg/framework/namespace.go and workload.go succeed, and when the
-- first of them does not try again.
use openshift_online_rosa_e.Base.{
  ℕ, String, ◌≡◌, refl, sym, ap, subst, ok-injective, ◌∙◌, Bool, true, false, [], Any, Result, ok,
  err, OkAnd, Bool-cases, inl, inr, arith,
}
use openshift_online_rosa_e.Base.Io.{Io, pure}
use openshift_online_rosa_e.Base.Io.Laws.{within-bind-ok}
use openshift_online_rosa_e.Verifiers.Conditions.{ApiError, IsCondition}
use openshift_online_rosa_e.Framework.Fixtures.{
  KubeApi, FixtureError, creating_namespace, is_non_transient_error,
}
use openshift_online_rosa_e.Framework.Fixtures.Namespaces.{
  labelled, judge_creation, try_create, poll_creation, delete_test_namespace, create_test_namespace,
}
use openshift_online_rosa_e.Framework.Fixtures.Workload.{
  test_nginx, test_nginx_svc, deploy_test_workload,
}

-- What the library says of its polling
pub record IsPolling {World : Type 0} (api : KubeApi World) : Type 0 where
  -- It succeeds when the condition held, and right then.
  pub ends :
      (interval timeout : ℕ) (condition : World → Result ApiError Bool × World) (w : World)
      → (api.poll_until_context_timeout interval timeout true condition w).0 ≡ ok tt
      → (v : World) × ((condition v).0 ≡ ok true)
        × ((api.poll_until_context_timeout interval timeout true condition w).1 ≡ (condition v).1)
  -- An immediate first round with an error is the last round.
  pub stops :
      (interval timeout : ℕ) (condition : World → Result ApiError Bool × World) (w : World)
      (e : ApiError)
      → (condition w).0 ≡ err e
      → api.poll_until_context_timeout interval timeout true condition w ≡ (err e, (condition w).1)

module _ {World : Type 0} (api : KubeApi World) (polling : IsPolling api) where
  -- Created, or there already
  abbrev pub IsThere : Result ApiError (Unit {0}) → Type 0
  IsThere (ok tt) = Unit
  IsThere (err e) = api.is_already_exists e ≡ true

  judge_creation-IsThere :
      (answer : Result ApiError (Unit {0}) × World)
      → (judge_creation api answer).0 ≡ ok true
      → IsThere answer.0
  judge_creation-IsThere (ok tt, w) h = tt
  judge_creation-IsThere (err e, w) h = elim (Bool-cases (api.is_already_exists e)) [
    | inl there ↦ there
    | inr absent ↦ elim (Bool-cases (is_non_transient_error api e)) [
      | inl stays ↦ cc (rw (absent, stays) at h)
      | inr passes ↦ cc (rw (absent, passes) at h)
    ]
  ]

  judge_creation-state :
      (answer : Result ApiError (Unit {0}) × World) → (judge_creation api answer).1 ≡ answer.1
  judge_creation-state (ok tt, w) = refl
  judge_creation-state (err e, w) =
      ground
        (arith, Bool-cases (api.is_already_exists e), Bool-cases (is_non_transient_error api e))

  -- When CreateTestNamespace succeeds, its last call created the namespace, with the two labels, or was
  -- told that it exists already, and the cleanup that it returns deletes that namespace.
  pub create_test_namespace-IsThere :
      (name : String) (cleanup : Io FixtureError World (Unit {0})) (w : World)
      → (create_test_namespace api name w).0 ≡ ok cleanup
      → (v : World) × IsThere (api.create_namespace (labelled name) v).0
        × ((create_test_namespace api name w).1 ≡ (api.create_namespace (labelled name) v).1)
        × (cleanup ≡ delete_test_namespace api name)
  unfolding create_test_namespace try_create
  create_test_namespace-IsThere name cleanup w h =
      let (_, polled, same) =
        within-bind-ok (creating_namespace name) (poll_creation api name)
          (λ _. pure (delete_test_namespace api name)) w h in
      let (v, created, last) = polling.ends 10 120 (try_create api name) w polled in
      (
        v,
        judge_creation-IsThere (api.create_namespace (labelled name) v) created,
        ap (λ p. p.1) same ∙ last ∙ judge_creation-state (api.create_namespace (labelled name) v),
        sym (ok-injective (delete_test_namespace api name) cleanup (sym (ap (λ p. p.0) same) ∙ h)),
      )

  -- A first creation that fails with an error that will not pass, and is not that the namespace exists,
  -- is the only one: CreateTestNamespace returns its error right away.
  pub create_test_namespace-stops :
      (name : String) (w : World) (e : ApiError)
      → (api.create_namespace (labelled name) w).0 ≡ err e
      → api.is_already_exists e ≡ false
      → is_non_transient_error api e ≡ true
      → create_test_namespace api name w
        ≡ (err (creating_namespace name e), (api.create_namespace (labelled name) w).1)
  unfolding create_test_namespace try_create
  create_test_namespace-stops name w e failed absent stays =
      let given_up = judged (api.create_namespace (labelled name) w) failed in
      let stopped = polling.stops 10 120 (try_create api name) w e (ap (λ p. p.0) given_up) in
      rw (stopped, given_up) refl
    where
      judged :
          (p : Result ApiError (Unit {0}) × World)
          → p.0 ≡ err e
          → judge_creation api p ≡ (err e, p.1)
      judged (ok tt, v) h = cc
      judged (err f, v) h =
          subst (λ g. judge_creation api (g, v) ≡ (err e, v)) (sym h) (rw (absent, stays) refl)

  -- What has been done when a workload is deployed
  pub record Deployed (namespace : String) (w : World) : Type 0 where
    pub namespace_there :
        IsThere (api.create_namespace (record { name = namespace; labels = [] }) w).0
    pub with_namespace : World
    pub same_world :
        with_namespace ≡ (api.create_namespace (record { name = namespace; labels = [] }) w).1
    pub deployment_created : (api.create_deployment (test_nginx namespace) with_namespace).0 ≡ ok tt
    pub service_created :
        (api.create_service
          (test_nginx_svc namespace)
          (api.create_deployment (test_nginx namespace) with_namespace).1).0
        ≡ ok tt
    pub at_the_end : World
    pub available :
        OkAnd
          (Any (IsCondition "Available" "True"))
          (api.get_deployment namespace "test-nginx" at_the_end).0
    pub ended :
        (deploy_test_workload api namespace w).1
        ≡ (api.get_deployment namespace "test-nginx" at_the_end).1
