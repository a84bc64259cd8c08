-- ===== src/Verifiers/Rhobs/Cardinality/Measured.antt =====
-- pkg/verifiers/rhobs.go: the two queries of a measured metric of the cardinality check.
use openshift_online_rosa_e.Base.{String, ◌≡◌, refl, ap, Result, ok, err, ok-injective}
use openshift_online_rosa_e.Base.Io.{Io, proceed, pure, rewrap, within, ◌>>=◌}
use openshift_online_rosa_e.Unstructured.{Fields}
use openshift_online_rosa_e.Verifiers.Rhobs.{RhobsConfig, RhobsError, RhobsWorld}
use openshift_online_rosa_e.Verifiers.Rhobs.Metrics.{query_rhobs_metrics}
use openshift_online_rosa_e.Verifiers.Rhobs.Cardinality.{
  Floats, ExtractError, CardinalityError, extract_scalar_value, extracted, measure,
  querying_current, querying_baseline, extracting_current, extracting_baseline,
}
use openshift_online_rosa_e.Verifiers.Rhobs.Cardinality.Scalars.{
  HoldsScalar, extract_scalar_value-HoldsScalar,
}

module _ {F : Type 0} (floats : Floats F) {World : Type 0} (outside : RhobsWorld World)
    (cfg : RhobsConfig) where
  -- The answers to the two queries, one after the other, hold these numbers.
  pub record Measured (current_query baseline_query : String) (w : World) (current baseline : F)
      (after : World) : Type 0 where
    pub current_result : Fields
    pub current_answered : (query_rhobs_metrics outside cfg current_query w).0 ≡ ok current_result
    pub baseline_result : Fields
    pub baseline_answered :
        (query_rhobs_metrics outside cfg baseline_query
          (query_rhobs_metrics outside cfg current_query w).1).0
        ≡ ok baseline_result
    pub holds_current : HoldsScalar floats current_result current
    pub holds_baseline : HoldsScalar floats baseline_result baseline
    pub left :
        after
        ≡ (query_rhobs_metrics outside cfg baseline_query
            (query_rhobs_metrics outside cfg current_query w).1).1

  -- Both extractions, then the pair
  abbrev extracted_pair :
      String → Result ExtractError F → Result ExtractError F → Io CardinalityError World (F × F)
  extracted_pair name current_number baseline_number =
      extracted floats outside cfg (extracting_current name) current_number >>= λ current.
      extracted floats outside cfg (extracting_baseline name) baseline_number >>= λ baseline.
      pure (current, baseline)

  extracted_pair-ok :
      (name : String) (current_number baseline_number : Result ExtractError F) (w : World)
      (pair : F × F)
      → (extracted_pair name current_number baseline_number w).0 ≡ ok pair
      → (current_number ≡ ok pair.0)
        × (baseline_number ≡ ok pair.1)
        × ((extracted_pair name current_number baseline_number w).1 ≡ w)
  extracted_pair-ok name (err e) baseline_number w pair h = cc
  extracted_pair-ok name (ok current) (err e) w pair h = cc
  extracted_pair-ok name (ok current) (ok baseline) w pair h =
      let same = ok-injective (current, baseline) pair h in
      (ap (λ p. ok p.0) same, ap (λ p. ok p.1) same, refl)

  abbrev of_baseline : String → Fields → Fields → Io CardinalityError World (F × F)
  of_baseline name current_result baseline_result =
      extracted_pair name (extract_scalar_value floats current_result)
        (extract_scalar_value floats baseline_result)

  of_baseline-ok :
      (name : String) (current_result : Fields) (answer : Result RhobsError Fields × World)
      (pair : F × F)
      → (proceed (of_baseline name current_result) (rewrap (querying_baseline name) answer)).0
        ≡ ok pair
      → (baseline_result : Fields) × (answer.0 ≡ ok baseline_result)
        × HoldsScalar floats current_result pair.0
        × HoldsScalar floats baseline_result pair.1
        × ((proceed (of_baseline name current_result) (rewrap (querying_baseline name) answer)).1
            ≡ answer.1)
  of_baseline-ok name current_result (err e, w) pair h = cc
  of_baseline-ok name current_result (ok baseline_result, w) pair h =
      let (current, baseline, left) =
        extracted_pair-ok name (extract_scalar_value floats current_result)
          (extract_scalar_value floats baseline_result) w pair h in
      (
        baseline_result,
        refl,
        extract_scalar_value-HoldsScalar floats current_result pair.0 current,
        extract_scalar_value-HoldsScalar floats baseline_result pair.1 baseline,
        left,
      )

  abbrev of_current : String → String → Fields → Io CardinalityError World (F × F)
  of_current name baseline_query current_result =
      within (querying_baseline name) (query_rhobs_metrics outside cfg baseline_query)
      >>= of_baseline name current_result

  of_current-ok :
      (name baseline_query : String) (answer : Result RhobsError Fields × World) (pair : F × F)
      → (proceed (of_current name baseline_query) (rewrap (querying_current name) answer)).0
        ≡ ok pair
      → (current_result : Fields) × (answer.0 ≡ ok current_result)
        × (baseline_result : Fields) × ((query_rhobs_metrics outside cfg baseline_query answer.1).0
            ≡ ok baseline_result)
        × HoldsScalar floats current_result pair.0
        × HoldsScalar floats baseline_result pair.1
        × ((proceed (of_current name baseline_query) (rewrap (querying_current name) answer)).1
            ≡ (query_rhobs_metrics outside cfg baseline_query answer.1).1)
  of_current-ok name baseline_query (err e, w) pair h = cc
  of_current-ok name baseline_query (ok current_result, w) pair h =
      let (baseline_result, answered, current, baseline, left) =
        of_baseline-ok name current_result (query_rhobs_metrics outside cfg baseline_query w) pair
          h in
      (current_result, refl, baseline_result, answered, current, baseline, left)

  pub measure-Measured :
      (name current_query baseline_query : String) (w : World) (pair : F × F)
      → (measure floats outside cfg name current_query baseline_query w).0 ≡ ok pair
      → Measured current_query baseline_query w pair.0 pair.1
          (measure floats outside cfg name current_query baseline_query w).1
  unfolding measure
  measure-Measured name current_query baseline_query w pair h =
      let (
        current_result, current_answered, baseline_result, baseline_answered, current, baseline,
        left,
      ) =
        of_current-ok name baseline_query (query_rhobs_metrics outside cfg current_query w) pair
          h in
      record {
        current_result = current_result;
        current_answered = current_answered;
        baseline_result = baseline_result;
        baseline_answered = baseline_answered;
        holds_current = current;
        holds_baseline = baseline;
        left = left;
      }
