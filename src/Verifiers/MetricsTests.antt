-- ===== src/Verifiers/MetricsTests.antt =====
-- Runs of the checks on metrics of pkg/verifiers/rhobs.go, and the theorems at their data.
use mathlib.Core.List.{Permᴰ}
use mathlib.Core.List.Permᴰ
use Prim.Native.Nat.{◌/◌}
use openshift_online_rosa_e.Base.{
  ℕ, ◌-◌, ◌*◌, String, ◌≡◌, refl, ◌↔◌, true, false, List, [], ◌∷◌, All, leb, ltb, ok, err, none,
  some, ◌==◌, if◌then◌else◌, Dict, insert,
}
use openshift_online_rosa_e.Unstructured.{lookup, get_string?, get_string, get_map?, get_slice?}
use openshift_online_rosa_e.Verifiers.Rhobs.Token.{attempt, token_loop, get_oidc_access_token}
use openshift_online_rosa_e.Verifiers.Rhobs.Metrics.{
  answer_of, query_rhobs_metrics, probe_active, probe_success_data_exists, verify_recording_rules,
  not_yet_available,
}
use openshift_online_rosa_e.Verifiers.Rhobs.Metrics.Rules.{
  ProbeIsEmpty, verify_recording_rules-not_yet_available,
}
use openshift_online_rosa_e.Verifiers.Rhobs.Cardinality.{
  Floats, CardinalityResult, extract_scalar_value, store_counts, extract_vector_values, measure,
  per_metric, delta_result, count_result, verify_cardinality_threshold,
}
use openshift_online_rosa_e.Verifiers.Rhobs.Cardinality.Passed.{
  Read, Passed, ChangeAtMost, CountAtMost, verify_cardinality_threshold-Passed,
}
use openshift_online_rosa_e.Verifiers.RhobsTests.{cfg, outside}

nothing_yet :
    (verify_recording_rules (outside false) cfg "abc" (0, 0)).0
    ≡ err (not_yet_available probe_active)
unfolding verify_recording_rules probe_success_data_exists query_rhobs_metrics get_oidc_access_token
    token_loop attempt answer_of get_string? get_map? get_slice? lookup
nothing_yet = refl

verify_recording_rules-not_yet_available_example : ProbeIsEmpty (outside false) cfg "abc" (0, 0)
verify_recording_rules-not_yet_available_example =
    verify_recording_rules-not_yet_available (outside false) cfg "abc" probe_active (0, 0)
      nothing_yet

-- Numbers in place of floating-point numbers

abbrev floats : Floats ℕ
floats = record {
  zero = 0;
  hundred = 100;
  minus = λ a b. a - b;
  times = λ a b. a * b;
  divided = λ a b. a / b;
  greater = λ a b. ltb b a;
  at_most = leb;
  scan = λ s. if s == "7" then some 7 else none;
}

abbrev measured : List (CardinalityResult ℕ)
measured =
    delta_result floats "prometheus_tsdb_head_series" 10 (7, 7)
    ∷ delta_result floats "prometheus_remote_storage_samples_total (rate)" 10 (7, 7)
    ∷ count_result floats 5 ("up", 7)
    ∷ []

measures :
    (verify_cardinality_threshold floats (outside true) cfg (λ counts. counts) 10 5 (0, 0)).0
    ≡ ok measured
unfolding verify_cardinality_threshold measure per_metric query_rhobs_metrics get_oidc_access_token
    token_loop attempt extract_scalar_value extract_vector_values store_counts get_string
    get_string? get_map? get_slice? lookup insert
measures = refl

as_it_is : (counts : Dict String ℕ) → Permᴰ counts counts
as_it_is counts = Permᴰ.refl counts

verify_cardinality_threshold-Passed_example :
    (read : Read floats (outside true) cfg (0, 0)) × (All (Passed floats) measured ↔ (
      ChangeAtMost floats 10 read.series
      × ChangeAtMost floats 10 read.rate
      × All (CountAtMost floats 5) read.counts))
verify_cardinality_threshold-Passed_example =
    verify_cardinality_threshold-Passed floats (outside true) cfg (λ counts. counts) as_it_is 10 5
      measured (0, 0) measures
