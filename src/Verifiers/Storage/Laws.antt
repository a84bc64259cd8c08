-- ===== src/Verifiers/Storage/Laws.antt =====
-- When the checks of pkg/verifiers/storage.go, cluster.go and classic.go pass.
use openshift_online_rosa_e.Base.{
  String, ◌≡◌, ◌≢◌, refl, ap, ◌∙◌, ◌↔◌, [], ◌∷◌, true, false, eq_iff, Result, ok, err, Option, none,
  some, require_iff, OkAnd,
}
use openshift_online_rosa_e.Unstructured.{
  Value, null, number, text, array, as_bool, as_map, and_then, boolean, object, Fields, lookup,
  get_map?, get_bool?,
}
use openshift_online_rosa_e.Unstructured.Laws.{At}
use openshift_online_rosa_e.Verifiers.Conditions.{ApiError}
use openshift_online_rosa_e.Verifiers.ClusterOperators.{Item}
use openshift_online_rosa_e.Verifiers.Storage.{
  judge_ready, judge_status, verify_volume_snapshot_ready, verify_cluster_ready,
  verify_cluster_deleting, verify_cluster_state,
}

-- A ready cluster is not a deleting one: at most one of the two checks of the state passes.
pub verify_cluster_ready-deleting :
    (cluster_id : String) (answer : Result ApiError String)
    → verify_cluster_ready cluster_id answer ≡ ok tt
    → verify_cluster_deleting cluster_id answer ≢ ok tt
unfolding verify_cluster_state
verify_cluster_ready-deleting cluster_id (err e) h = λ k. cc
verify_cluster_ready-deleting cluster_id (ok state) h = λ k.
    apart ((eq_iff state "ready").0 ((require_iff _ _).0 h))
      ((eq_iff state "uninstalling").0 ((require_iff _ _).0 k))
  where
    apart : {s : String} → s ≡ "ready" → s ≡ "uninstalling" → ⊥
    apart h k = cc

judge_ready_iff :
    (o : Option Value) → (judge_ready (and_then o as_bool) ≡ ok tt) ↔ (o ≡ some (boolean true))
judge_ready_iff none = (λ h. cc, λ h. cc)
judge_ready_iff (some (boolean true)) = (λ _. refl, λ _. refl)
judge_ready_iff (some (boolean false)) = (λ h. cc, λ h. cc)
judge_ready_iff (some _) = (λ h. cc, λ h. cc)

judge_status_iff :
    (o : Option Value)
    → (judge_status (and_then o as_map) ≡ ok tt) ↔ (
        (fields : Fields) × (o ≡ some (object fields))
        × (lookup "readyToUse" fields ≡ some (boolean true)))
unfolding get_bool?
judge_status_iff none = (λ h. cc, λ h. nothing h.1)
  where
    nothing : {C : Type 0} {v : Value} → Path (Option Value) none (some v) → C
    nothing h = cc
judge_status_iff (some (object fields)) = (
  λ h. (fields, refl, (judge_ready_iff (lookup "readyToUse" fields)).0 h),
  λ h. (judge_ready_iff (lookup "readyToUse" fields)).1 (ap (lookup "readyToUse") (same h.1) ∙ h.2),
)
  where
    same : {m n : Fields} → Path (Option Value) (some (object m)) (some (object n)) → m ≡ n
    same h = cc
judge_status_iff (some null) = (λ h. cc, λ h. other h.1)
  where
    other : {C : Type 0} {m : Fields} → Path (Option Value) (some null) (some (object m)) → C
    other h = cc
judge_status_iff (some (boolean b)) = (λ h. cc, λ h. other h.1)
  where
    other : {C : Type 0} {m : Fields} → Path (Option Value) (some (boolean b)) (some (object m)) → C
    other h = cc
judge_status_iff (some (number n)) = (λ h. cc, λ h. other h.1)
  where
    other : {C : Type 0} {m : Fields} → Path (Option Value) (some (number n)) (some (object m)) → C
    other h = cc
judge_status_iff (some (text s)) = (λ h. cc, λ h. other h.1)
  where
    other : {C : Type 0} {m : Fields} → Path (Option Value) (some (text s)) (some (object m)) → C
    other h = cc
judge_status_iff (some (array items)) = (λ h. cc, λ h. other h.1)
  where
    other :
        {C : Type 0} {m : Fields} → Path (Option Value) (some (array items)) (some (object m)) → C
    other h = cc

-- The check of a volume snapshot passes exactly when the object was read and holds the Boolean true at
-- status.readyToUse.
pub verify_volume_snapshot_ready_iff :
    (answer : Result ApiError Item)
    → (verify_volume_snapshot_ready answer ≡ ok tt)
      ↔ OkAnd (λ snapshot. At snapshot.content ("status" ∷ "readyToUse" ∷ []) (boolean true)) answer
unfolding verify_volume_snapshot_ready get_map?
verify_volume_snapshot_ready_iff (err e) = (λ h. cc, λ h. absurd h)
verify_volume_snapshot_ready_iff (ok snapshot) = judge_status_iff (lookup "status" snapshot.content)
