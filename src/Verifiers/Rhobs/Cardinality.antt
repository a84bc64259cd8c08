-- ===== src/Verifiers/Rhobs/Cardinality.antt =====
-- pkg/verifiers/rhobs.go: the cardinality check. The floating-point numbers, with their reading from
-- texts, and the order in which the range visits the counts are parameters.
pub mod Counts
pub mod Measured
pub mod Passed
pub mod Scalars
use openshift_online_rosa_e.Base.{
  String, Bool, List, [], ◌∷◌, map, if◌then◌else◌, Result, ok, err, Option, none, some, wrap, Dict,
  insert, string_key,
}
use openshift_online_rosa_e.Base.Io.{Io, pure, within, ◌>>=◌}
use openshift_online_rosa_e.Unstructured.{
  Value, Fields, as_string, as_map, get_string, get_map?, get_slice?, string_or_empty,
}
use openshift_online_rosa_e.Verifiers.Rhobs.{RhobsConfig, RhobsError, RhobsWorld}
use openshift_online_rosa_e.Verifiers.Rhobs.Metrics.{query_rhobs_metrics}

pub record Floats (F : Type 0) : Type 0 where
  pub zero : F
  pub hundred : F
  pub minus : F → F → F
  pub times : F → F → F
  pub divided : F → F → F
  pub greater : F → F → Bool
  pub at_most : F → F → Bool
  -- `fmt.Sscanf(s, "%f", &f)`
  pub scan : String → Option F

pub data ExtractError : Type 0 where
  no_data_field empty_result_set unexpected_format no_value no_result_array : ExtractError
  value_is_not_a_string : Value → ExtractError
  not_parsed : String → ExtractError

pub data CardinalityError : Type 0 where
  querying_current querying_baseline querying_per_metric : String → RhobsError → CardinalityError
  extracting_current extracting_baseline extracting_per_metric :
      String → ExtractError → CardinalityError

-- `CardinalityResult`
pub record CardinalityResult (F : Type 0) : Type 0 where
  pub metric_name : String
  pub current : F
  pub baseline : F
  pub delta_pct : F
  pub threshold : F
  pub passed : Bool

-- The two values of `value, ok := m["value"].([]interface{})` that has two: the second counts.
abbrev pub second_of : Option (List Value) → Option Value
second_of none = none
second_of (some []) = none
second_of (some (v ∷ [])) = none
second_of (some (v ∷ (second ∷ rest))) = some second

module _ {F : Type 0} (floats : Floats F) where
  abbrev pub scanned : String → Option F → Result ExtractError F
  scanned s none = err (not_parsed s)
  scanned s (some f) = ok f

  abbrev pub scan_text : Value → Option String → Result ExtractError F
  scan_text v none = err (value_is_not_a_string v)
  scan_text v (some s) = scanned s (floats.scan s)

  abbrev pub scan_value : Option Value → Result ExtractError F
  scan_value none = err no_value
  scan_value (some v) = scan_text v (as_string v)

  abbrev pub scalar_of_map : Option Fields → Result ExtractError F
  scalar_of_map none = err unexpected_format
  scalar_of_map (some first) = scan_value (second_of (get_slice? "value" first))

  abbrev pub scalar_of_slice : Option (List Value) → Result ExtractError F
  scalar_of_slice none = err empty_result_set
  scalar_of_slice (some []) = err empty_result_set
  scalar_of_slice (some (first ∷ rest)) = scalar_of_map (as_map first)

  abbrev pub scalar_of_data : Option Fields → Result ExtractError F
  scalar_of_data none = err no_data_field
  scalar_of_data (some fields) = scalar_of_slice (get_slice? "result" fields)

  -- `extractScalarValue`
  unfoldable pub extract_scalar_value : Fields → Result ExtractError F
  unfolding get_map? get_slice?
  extract_scalar_value result = scalar_of_data (get_map? "data" result)

  abbrev pub count_of_text : String → Option F → Option (String × F)
  count_of_text label none = none
  count_of_text label (some f) = some (label, f)

  abbrev pub count_of_value : String → Option Value → Option (String × F)
  count_of_value label none = none
  count_of_value label (some v) = count_of_text label (floats.scan (string_or_empty (as_string v)))

  abbrev pub count_of_metric : String → Fields → Option Fields → Option (String × F)
  count_of_metric label_key entry none = none
  count_of_metric label_key entry (some metric) =
      count_of_value (get_string label_key metric) (second_of (get_slice? "value" entry))

  -- What the loop reads of an item: `none` where it continues with the next one
  abbrev pub count_of : String → Option Fields → Option (String × F)
  count_of label_key none = none
  count_of label_key (some entry) = count_of_metric label_key entry (get_map? "metric" entry)

  abbrev pub store : Option (String × F) → Dict String F → Dict String F
  store none values = values
  store (some (label, f)) values = insert label f values

  unfoldable pub store_counts : String → List Value → Dict String F → Dict String F
  unfolding get_map? get_slice? get_string insert
  store_counts label_key [] values = values
  store_counts label_key (item ∷ items) values =
      store_counts label_key items (store (count_of label_key (as_map item)) values)

  abbrev pub counts_of_slice : String → Option (List Value) → Result ExtractError (Dict String F)
  counts_of_slice label_key none = err no_result_array
  counts_of_slice label_key (some items) = ok (store_counts label_key items [])

  abbrev pub counts_of_data : String → Option Fields → Result ExtractError (Dict String F)
  counts_of_data label_key none = err no_data_field
  counts_of_data label_key (some fields) = counts_of_slice label_key (get_slice? "result" fields)

  -- `extractVectorValues`
  unfoldable pub extract_vector_values : Fields → String → Result ExtractError (Dict String F)
  unfolding get_map? get_slice? store_counts
  extract_vector_values result label_key = counts_of_data label_key (get_map? "data" result)

  -- The change in percent, 0 without a baseline
  abbrev pub delta : F → F → F
  delta current baseline =
      if floats.greater baseline floats.zero
      then floats.times (floats.divided (floats.minus current baseline) baseline) floats.hundred
      else floats.zero

  abbrev pub delta_result : String → F → F × F → CardinalityResult F
  delta_result name max_delta_pct (current, baseline) = record {
    metric_name = name;
    current = current;
    baseline = baseline;
    delta_pct = delta current baseline;
    threshold = max_delta_pct;
    passed = floats.at_most (delta current baseline) max_delta_pct;
  }

  abbrev pub count_result : F → String × F → CardinalityResult F
  count_result max_series (name, count) = record {
    metric_name = name;
    current = count;
    baseline = floats.zero;
    delta_pct = floats.zero;
    threshold = max_series;
    passed = floats.at_most count max_series;
  }

  abbrev pub results_of : F → F → F × F → F × F → Dict String F → List (CardinalityResult F)
  results_of max_delta_pct max_series series rate visited =
      delta_result "prometheus_tsdb_head_series" max_delta_pct series
      ∷ delta_result "prometheus_remote_storage_samples_total (rate)" max_delta_pct rate
      ∷ map (count_result max_series) visited

  module _ {World : Type 0} (outside : RhobsWorld World) (cfg : RhobsConfig) where
    abbrev pub extracted :
        {A : Type 0}
        → (ExtractError → CardinalityError)
        → Result ExtractError A
        → Io CardinalityError World A
    extracted f r w = (wrap f r, w)

    -- Both queries of a metric, and then both extractions
    unfoldable pub measure : String → String → String → Io CardinalityError World (F × F)
    unfolding extract_scalar_value
    measure name current_query baseline_query =
        within (querying_current name) (query_rhobs_metrics outside cfg current_query)
        >>= λ current_result.
            within (querying_baseline name) (query_rhobs_metrics outside cfg baseline_query)
            >>= λ baseline_result.
                extracted (extracting_current name) (extract_scalar_value current_result)
                >>= λ current.
                    extracted (extracting_baseline name) (extract_scalar_value baseline_result)
                    >>= λ baseline. pure (current, baseline)

    abbrev pub measure_series : Io CardinalityError World (F × F)
    measure_series =
        measure "TSDB head series" "sum(prometheus_tsdb_head_series{container=\"prometheus\"})"
          "sum(prometheus_tsdb_head_series{container=\"prometheus\"} offset 2h)"

    abbrev pub measure_rate : Io CardinalityError World (F × F)
    measure_rate =
        measure "remote-write rate" "sum(rate(prometheus_remote_storage_samples_total[5m]))"
          "sum(rate(prometheus_remote_storage_samples_total[5m] offset 2h))"

    unfoldable pub per_metric : Io CardinalityError World (Dict String F)
    unfolding extract_vector_values
    per_metric =
        within (querying_per_metric "per-metric cardinality")
          (query_rhobs_metrics outside cfg "topk(10, count by (__name__) ({source=\"MC\"}))")
        >>= λ result.
            extracted (extracting_per_metric "per-metric cardinality")
              (extract_vector_values result "__name__")

    -- `VerifyCardinalityThreshold`
    unfoldable pub verify_cardinality_threshold :
        (Dict String F → Dict String F)
        → F
        → F
        → Io CardinalityError World (List (CardinalityResult F))
    unfolding measure per_metric
    verify_cardinality_threshold visit max_delta_pct max_series = measure_series >>= λ series.
        measure_rate >>= λ rate. per_metric >>= λ counts.
        pure (results_of max_delta_pct max_series series rate (visit counts))
