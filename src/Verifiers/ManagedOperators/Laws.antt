-- ===== src/Verifiers/ManagedOperators/Laws.antt =====
-- When the check of the VPC endpoints passes.
use openshift_online_rosa_e.Base.{
  String, ◌≡◌, refl, ap, ◌≢◌, ◌↔◌, Bool, true, false, List, [], ◌∷◌, All, select, head?,
  false-ne-true, Result, ok, err, Option, none, some, Bool-cases, Option-cases, inl, inr, collect,
  put, report-gather_results_iff, OkAnd,
}
use openshift_online_rosa_e.Unstructured.{Value, as_map, Fields}
use openshift_online_rosa_e.Verifiers.Conditions.{ApiError}
use openshift_online_rosa_e.Verifiers.ClusterOperators.{Item}
use openshift_online_rosa_e.Verifiers.HostedCluster.Laws.{maps}
use openshift_online_rosa_e.Verifiers.ManagedOperators.{
  ManagedError, EndpointIssue, is_readiness, is_true, scan_endpoint, add_missing, judge_endpoint,
  unavailable_endpoints, verify_avo_vpc_endpoints,
}

-- The first condition that speaks of readiness, if there is one, says that it is true.
abbrev pub SaysTrue : Option Fields → Type 0
SaysTrue none = ⊥
SaysTrue (some m) = is_true m ≡ true

abbrev pub FirstIsTrue : List Value → Type 0
FirstIsTrue conditions = SaysTrue (head? (select is_readiness (maps conditions)))

add_missing-eq-nil :
    (name : String) (scan : Bool × List EndpointIssue)
    → (add_missing name scan ≡ []) ↔ ((scan.0 ≡ true) × (scan.1 ≡ []))
add_missing-eq-nil name (true, issues) = (λ h. (refl, h), λ h. h.1)
add_missing-eq-nil name (false, []) = (λ h. cc, λ h. cc)
add_missing-eq-nil name (false, i ∷ issues) = (λ h. cc, λ h. cc)

scan_endpoint_iff :
    (name : String) (conditions : List Value)
    → ((scan_endpoint name conditions).0 ≡ true) × ((scan_endpoint name conditions).1 ≡ [])
      ↔ FirstIsTrue conditions
unfolding scan_endpoint collect
scan_endpoint_iff name [] = (λ h. false-ne-true h.0, λ h. absurd h)
scan_endpoint_iff name (cond ∷ conditions) = elim (Option-cases (as_map cond)) [
  | inl e ↦ rw (e, collect, put, scan_endpoint) (scan_endpoint_iff name conditions)
  | inr (m, e) ↦ elim (Bool-cases (is_readiness m)) [
    | inr other ↦
        rw (e, other, collect, put, select, scan_endpoint) (scan_endpoint_iff name conditions)
    | inl speaks ↦ elim (Bool-cases (is_true m)) [
      | inl up ↦
          rw (e, speaks, up, collect, put, select, scan_endpoint) ((λ _. refl, λ _. (refl, refl)))
      | inr down ↦
          rw (e, speaks, down, collect, put, select, scan_endpoint)
            ((λ h. cc, λ h. false-ne-true h))
    ]
  ]
]

-- The answer of `NestedSlice` holds conditions, and the first that speaks of readiness is true.
abbrev pub FoundReady : Option (List Value) → Type 0
FoundReady none = ⊥
FoundReady (some conditions) = FirstIsTrue conditions

judge_endpoint_iff :
    (name : String) (answer : Result String (Option (List Value)))
    → (judge_endpoint name answer ≡ ok []) ↔ OkAnd FoundReady answer
judge_endpoint_iff name (err e) = (λ h. cc, λ h. absurd h)
judge_endpoint_iff name (ok none) = (λ h. cc, λ h. absurd h)
judge_endpoint_iff name (ok (some conditions)) = (
  λ h.
      (scan_endpoint_iff name conditions).0
        ((add_missing-eq-nil name (scan_endpoint name conditions)).0 (inner h)),
  λ h. ap ok (
      (add_missing-eq-nil name (scan_endpoint name conditions)).1
        ((scan_endpoint_iff name conditions).1 h)),
)
  where
    inner :
        {issues : List EndpointIssue}
        → Path (Result ManagedError (List EndpointIssue)) (ok issues) (ok [])
        → issues ≡ []
    inner h = cc

-- The check of the VPC endpoints passes exactly when the listing succeeded, there is an endpoint, and
-- for each one the status has conditions, and the first of those that are maps of the type
-- AWSVpcEndpointReady, or available in any case, has the status true, in any case.
pub verify_avo_vpc_endpoints_iff :
    (nested_slice : Fields → List String → Result String (Option (List Value)))
    (answer : Result ApiError (List Item))
    → (verify_avo_vpc_endpoints nested_slice answer ≡ ok tt)
      ↔ OkAnd
          (λ endpoints.
            (endpoints ≢ [])
            × All
                (λ vpe. OkAnd FoundReady (nested_slice vpe.content ("status" ∷ "conditions" ∷ [])))
                endpoints)
          answer
unfolding verify_avo_vpc_endpoints
verify_avo_vpc_endpoints_iff nested_slice (err e) = (λ h. cc, λ h. absurd h)
verify_avo_vpc_endpoints_iff nested_slice (ok []) = (λ h. cc, λ h. absurd (h.0 refl))
verify_avo_vpc_endpoints_iff nested_slice (ok (vpe ∷ endpoints)) =
    let passes =
      report-gather_results_iff (λ vpe. judge_endpoint_iff vpe.name _) unavailable_endpoints
        (vpe ∷ endpoints) in
    (λ h. (λ k. cc, passes.0 h), λ h. passes.1 h.1)
