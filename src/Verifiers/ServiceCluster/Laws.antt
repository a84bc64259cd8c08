-- ===== src/Verifiers/ServiceCluster/Laws.antt =====
-- When the checks of the hubs and engines pass.
use openshift_online_rosa_e.Base.{
  String, ◌≡◌, ap, ◌↔◌, true, List, [], ◌∷◌, eq_iff, Any, any, any_iff, Result, ok, err, Option,
  none, some, require_iff, OkAnd, false-ne-true,
}
use openshift_online_rosa_e.Unstructured.{text, ShapeError, get_nested_field}
use openshift_online_rosa_e.Unstructured.Laws.{At, get_nested_field-At}
use openshift_online_rosa_e.Verifiers.Conditions.{ApiError}
use openshift_online_rosa_e.Verifiers.ClusterOperators.{Item}
use openshift_online_rosa_e.Verifiers.ServiceCluster.{
  has_phase, is_in_phase, verify_resource_in_phase, no_resource_in_phase, verify_acm_hub,
  verify_mce,
}

has_phase_iff :
    (phase : String) (found : Result ShapeError (Option String))
    → (has_phase phase found ≡ true) ↔ (found ≡ ok (some phase))
has_phase_iff phase (err e) = (λ h. false-ne-true h, λ h. cc)
has_phase_iff phase (ok none) = (λ h. false-ne-true h, λ h. cc)
has_phase_iff phase (ok (some status)) =
    (λ h. ap (λ s. ok (some s)) ((eq_iff status phase).0 h), λ h. (eq_iff status phase).1 (same h))
  where
    same :
        {s : String}
        → Path (Result ShapeError (Option String)) (ok (some s)) (ok (some phase))
        → s ≡ phase
    same h = cc

-- The object holds the phase as a text at status.phase.
abbrev pub IsInPhase : String → Item → Type 0
IsInPhase phase item = At item.content ("status" ∷ "phase" ∷ []) (text phase)

is_in_phase_iff :
    (phase : String) (item : Item) → (is_in_phase phase item ≡ true) ↔ IsInPhase phase item
is_in_phase_iff phase item =
    let field = get_nested_field-At item.content ("status" ∷ "phase" ∷ []) phase in
    let found = has_phase_iff phase (get_nested_field item.content ("status" ∷ "phase" ∷ [])) in
    (λ h. field.0 (found.0 h), λ h. found.1 (field.1 h))

verify_resource_in_phase_iff :
    (resource phase : String) (answer : Result ApiError (List Item))
    → (verify_resource_in_phase resource phase answer ≡ ok tt)
      ↔ OkAnd (Any (IsInPhase phase)) answer
unfolding verify_resource_in_phase
verify_resource_in_phase_iff resource phase (err e) = (λ h. cc, λ h. absurd h)
verify_resource_in_phase_iff resource phase (ok []) = (λ h. cc, λ h. absurd h)
verify_resource_in_phase_iff resource phase (ok (item ∷ items)) =
    let passes =
      require_iff (any (is_in_phase phase) (item ∷ items)) (no_resource_in_phase resource) in
    let found = any_iff (is_in_phase_iff phase) (item ∷ items) in
    (λ h. found.0 (passes.0 h), λ h. passes.1 (found.1 h))

-- The checks of the hubs and of the engines pass exactly when the listing succeeded and some object of
-- it holds, at status.phase, the text Running, respectively Available.
pub verify_acm_hub_iff_verify_mce_iff :
    (answer : Result ApiError (List Item))
    → ((verify_acm_hub answer ≡ ok tt) ↔ OkAnd (Any (IsInPhase "Running")) answer)
      × ((verify_mce answer ≡ ok tt) ↔ OkAnd (Any (IsInPhase "Available")) answer)
verify_acm_hub_iff_verify_mce_iff answer = (
  verify_resource_in_phase_iff "multiclusterhubs" "Running" answer,
  verify_resource_in_phase_iff "multiclusterengines" "Available" answer,
)
