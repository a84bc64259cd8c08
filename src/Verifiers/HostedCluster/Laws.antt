-- ===== src/Verifiers/HostedCluster/Laws.antt =====
-- When the checks of pkg/verifiers/hostedcluster.go pass.
use openshift_online_rosa_e.Base.{
  String, ◌≡◌, refl, sym, ap, ◌∙◌, ◌≢◌, ◌↔◌, Bool, true, false, not, ◌||◌, List, [], ◌∷◌, Any, any,
  All, Result, ok, err, Option, none, some, if◌then◌else◌, false-ne-true, append-eq-nil_iff,
  ||-false, ||_assoc, report_iff, collect, put, report-collect_iff, OkAnd, eq_iff, ◌==◌, any_iff,
}
use openshift_online_rosa_e.Unstructured.{Value, as_map, Fields, ShapeError, get_conditions}
use openshift_online_rosa_e.Verifiers.Conditions.{
  ApiError, map_type, map_status, is_map_condition, is_map_condition_iff, IsMapCondition,
}
use openshift_online_rosa_e.Verifiers.ClusterOperators.{Item}
use openshift_online_rosa_e.Verifiers.HostedCluster.{
  Scan, HealthIssue, describe, mismatch, note_map, note_condition, note_conditions, missing,
  conclude, new_scan, verify_conditions, not_healthy, available_not_found, degraded_not_found,
  some_true, unhealthy_pool, judge_pool, PoolIssue, unhealthy_node_pools,
  verify_hosted_cluster_healthy, verify_node_pool_healthy,
}

-- The maps among the values of a list
abbrev pub maps : List Value → List Fields
maps values = collect as_map values

-- A condition does not contradict: when it is of the type, its status is the wanted one.
abbrev pub Agrees : String → String → Fields → Type 0
Agrees type wanted m = map_type m ≡ type → map_status m ≡ wanted

-- Every Available condition is True and every Degraded one False, and there is one of each.
abbrev pub AllAgree : List Fields → Type 0
AllAgree conditions =
    Any (λ m. map_type m ≡ "Available") conditions
    × Any (λ m. map_type m ≡ "Degraded") conditions
    × All (λ m. Agrees "Available" "True" m × Agrees "Degraded" "False" m) conditions

mismatch-eq-nil :
    (type wanted : String) (m : Fields) → (mismatch type wanted m ≡ []) ↔ Agrees type wanted m
mismatch-eq-nil type wanted m =
    decide (describe m) (map_type m == type) (map_status m == wanted) (eq_iff _ _) (eq_iff _ _)
  where
    decide :
        {P Q : Type 0} (issue : HealthIssue) (b c : Bool)
        → (b ≡ true) ↔ P
        → (c ≡ true) ↔ Q
        → ((if b then (if not c then issue ∷ [] else []) else []) ≡ []) ↔ (P → Q)
    decide issue true true p q = (λ _ _. q.0 refl, λ _. refl)
    decide issue true false p q = (λ h. cc, λ h. (false-ne-true (q.1 (h (p.0 refl)))))
    decide issue false c p q = (λ _ h. (false-ne-true (p.1 h)), λ _. refl)

-- What the loop has found after some conditions
record Found (scan : Scan) (conditions : List Fields) (end : Scan) : Type 0 where
  issues_iff : (end.issues ≡ []) ↔ (
      (scan.issues ≡ [])
      × All (λ m. Agrees "Available" "True" m × Agrees "Degraded" "False" m) conditions)
  available_eq :
      end.available_found
      ≡ (scan.available_found || any (λ m. map_type m == "Available") conditions)
  degraded_eq :
      end.degraded_found ≡ (scan.degraded_found || any (λ m. map_type m == "Degraded") conditions)

note_conditions-Found :
    (conditions : List Value) (scan : Scan)
    → Found scan (maps conditions) (note_conditions scan conditions)
unfolding note_conditions collect
note_conditions-Found [] scan = record {
  issues_iff = (λ h. (h, tt), λ h. h.0);
  available_eq = sym (||-false scan.available_found);
  degraded_eq = sym (||-false scan.degraded_found);
}
note_conditions-Found (cond ∷ conditions) scan =
    step (as_map cond) (note_conditions-Found conditions (note_condition scan (as_map cond)))
  where
    add_map :
        {rest : List Fields} {end : Scan} (m : Fields)
        → Found (note_map scan m) rest end
        → Found scan (m ∷ rest) end
    add_map m found = record {
      issues_iff = (
        λ h.
            let k = found.issues_iff.0 h in
            let outer = (append-eq-nil_iff _ (mismatch "Degraded" "False" m)).0 k.0 in
            let inner = (append-eq-nil_iff scan.issues (mismatch "Available" "True" m)).0 outer.0 in
            (
              inner.0,
              (((mismatch-eq-nil _ _ m).0 inner.1, (mismatch-eq-nil _ _ m).0 outer.1), k.1),
            ),
        λ h.
            let available = (mismatch-eq-nil "Available" "True" m).1 h.1.0.0 in
            let degraded = (mismatch-eq-nil "Degraded" "False" m).1 h.1.0.1 in
            let inner =
              (append-eq-nil_iff scan.issues (mismatch "Available" "True" m)).1 (h.0, available) in
            found.issues_iff.1
              ((append-eq-nil_iff _ (mismatch "Degraded" "False" m)).1 (inner, degraded), h.1.1),
      );
      available_eq = found.available_eq ∙ sym (||_assoc scan.available_found _ _);
      degraded_eq = found.degraded_eq ∙ sym (||_assoc scan.degraded_found _ _);
    }

    step :
        {rest : List Fields} {end : Scan} (o : Option Fields)
        → Found (note_condition scan o) rest end
        → Found scan (put o rest) end
    step none found = found
    step (some m) found = add_map m found

missing-eq-nil : (found : Bool) (issue : HealthIssue) → (missing found issue ≡ []) ↔ (found ≡ true)
missing-eq-nil true issue = (λ _. refl, λ _. refl)
missing-eq-nil false issue = (λ h. cc, λ h. cc)

conclude_iff :
    (scan : Scan)
    → (conclude scan ≡ ok tt)
      ↔ ((scan.issues ≡ []) × (scan.available_found ≡ true) × (scan.degraded_found ≡ true))
conclude_iff scan = (
  λ h.
      let outer =
        (append-eq-nil_iff _ (missing scan.degraded_found degraded_not_found)).0
          ((report_iff not_healthy _).0 h) in
      let inner =
        (append-eq-nil_iff scan.issues (missing scan.available_found available_not_found)).0
          outer.0 in
      (inner.0, (missing-eq-nil _ _).0 inner.1, (missing-eq-nil _ _).0 outer.1),
  λ h.
      let inner =
        (append-eq-nil_iff scan.issues _).1
          (h.0, (missing-eq-nil scan.available_found available_not_found).1 h.1) in
      (report_iff not_healthy _).1 (
        (append-eq-nil_iff _ _).1
          (inner, (missing-eq-nil scan.degraded_found degraded_not_found).1 h.2)),
)

type_iff :
    (type : String) (conditions : List Fields)
    → (any (λ m. map_type m == type) conditions ≡ true) ↔ Any (λ m. map_type m ≡ type) conditions
type_iff type = any_iff (λ m. eq_iff (map_type m) type)

-- The answer of `NestedSlice` holds conditions, and all agree.
abbrev pub FoundHealthy : Option (List Value) → Type 0
FoundHealthy none = ⊥
FoundHealthy (some conditions) = AllAgree (maps conditions)

verify_conditions_iff :
    (answer : Result String (Option (List Value)))
    → (verify_conditions answer ≡ ok tt) ↔ OkAnd FoundHealthy answer
unfolding verify_conditions
verify_conditions_iff (err e) = (λ h. cc, λ h. absurd h)
verify_conditions_iff (ok none) = (λ h. cc, λ h. absurd h)
verify_conditions_iff (ok (some conditions)) =
    let found = note_conditions-Found conditions new_scan in
    let end = conclude_iff (note_conditions new_scan conditions) in
    (
      λ h.
          let k = end.0 h in
          (
            (type_iff "Available" (maps conditions)).0 (sym found.available_eq ∙ k.1),
            (type_iff "Degraded" (maps conditions)).0 (sym found.degraded_eq ∙ k.2),
            (found.issues_iff.0 k.0).1,
          ),
      λ h. end.1 (
        found.issues_iff.1 (refl, h.2),
        found.available_eq ∙ (type_iff "Available" (maps conditions)).1 h.0,
        found.degraded_eq ∙ (type_iff "Degraded" (maps conditions)).1 h.1,
      ),
    )

-- The check of a hosted cluster passes exactly when the object was read, its status has conditions,
-- and among those that are maps there is an Available and a Degraded one, each Available one is True
-- and each Degraded one is False.
pub verify_hosted_cluster_healthy_iff :
    (nested_slice : Fields → List String → Result String (Option (List Value)))
    (answer : Result ApiError Item)
    → (verify_hosted_cluster_healthy nested_slice answer ≡ ok tt)
      ↔ OkAnd
          (λ hc. OkAnd FoundHealthy (nested_slice hc.content ("status" ∷ "conditions" ∷ [])))
          answer
unfolding verify_hosted_cluster_healthy
verify_hosted_cluster_healthy_iff nested_slice (err e) = (λ h. cc, λ h. absurd h)
verify_hosted_cluster_healthy_iff nested_slice (ok hc) =
    verify_conditions_iff (nested_slice hc.content _)

-- The conditions of a node pool that the check is content with
abbrev pub IsReadyPool : Option (List Fields) → Type 0
IsReadyPool none = ⊥
IsReadyPool (some conditions) =
    Any (IsMapCondition "Ready" "True") conditions
    × Any (IsMapCondition "AllNodesHealthy" "True") conditions

some_true_iff :
    (type : String) (conditions : List Fields)
    → (some_true type conditions ≡ true) ↔ Any (IsMapCondition type "True") conditions
unfolding some_true
some_true_iff type conditions = (
  λ h. (any_iff (is_map_condition_iff type "True") conditions).0 (sym (same conditions) ∙ h),
  λ h. same conditions ∙ (any_iff (is_map_condition_iff type "True") conditions).1 h,
)
  where
    same :
        (conditions : List Fields)
        → some_true type conditions ≡ any (is_map_condition type "True") conditions
    same [] = refl
    same (m ∷ rest) = ap (λ b. is_map_condition type "True" m || b) (same rest)

judge_pool-eq-none :
    (name : String) (found : Result ShapeError (Option (List Fields)))
    → (judge_pool name found ≡ none) ↔ OkAnd IsReadyPool found
judge_pool-eq-none name (err e) = (λ h. cc, λ h. absurd h)
judge_pool-eq-none name (ok none) = (λ h. cc, λ h. absurd h)
judge_pool-eq-none name (ok (some conditions)) =
    decide (unhealthy_pool name _) (some_true "Ready" conditions)
      (some_true "AllNodesHealthy" conditions) (some_true_iff "Ready" conditions)
      (some_true_iff "AllNodesHealthy" conditions)
  where
    decide :
        {P Q : Type 0} (issue : PoolIssue) (a d : Bool)
        → (a ≡ true) ↔ P
        → (d ≡ true) ↔ Q
        → ((if not a || not d then some issue else none) ≡ none) ↔ (P × Q)
    decide issue true true p q = (λ _. (p.0 refl, q.0 refl), λ _. refl)
    decide issue true false p q = (λ h. cc, λ h. false-ne-true (q.1 h.1))
    decide issue false d p q = (λ h. cc, λ h. false-ne-true (p.1 h.0))

-- The check of the node pools passes exactly when the listing succeeded, there is a pool, and each one
-- has conditions that are all maps, among them Ready=True and AllNodesHealthy=True.
pub verify_node_pool_healthy_iff :
    (answer : Result ApiError (List Item))
    → (verify_node_pool_healthy answer ≡ ok tt)
      ↔ OkAnd
          (λ pools. (pools ≢ []) × All (λ np. OkAnd IsReadyPool (get_conditions np.content)) pools)
          answer
unfolding verify_node_pool_healthy
verify_node_pool_healthy_iff (err e) = (λ h. cc, λ h. absurd h)
verify_node_pool_healthy_iff (ok []) = (λ h. cc, λ h. absurd (h.0 refl))
verify_node_pool_healthy_iff (ok (np ∷ pools)) =
    let passes =
      report-collect_iff (λ np. judge_pool-eq-none np.name _) unhealthy_node_pools (np ∷ pools) in
    (λ h. (λ k. cc, passes.0 h), λ h. passes.1 h.1)
