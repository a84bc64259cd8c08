-- ===== src/Verifiers/Rhobs/Cardinality/Passed.antt =====
-- What the results of the cardinality check of pkg/verifiers/rhobs.go say.
use mathlib.Core.List.{Permᴰ}
use openshift_online_rosa_e.Base.{
  String, ◌≡◌, refl, ap, subst, ◌↔◌, ◌⊎◌, inl, inr, true, false, List, [], ◌∷◌, map, All,
  All-Permᴰ_iff, Result, ok, err, Dict, Bool-cases, ok-injective, arith,
}
use openshift_online_rosa_e.Base.Io.{proceed, pure, rewrap, ◌>>=◌}
use openshift_online_rosa_e.Unstructured.{Fields}
use openshift_online_rosa_e.Verifiers.Rhobs.{RhobsConfig, RhobsError, RhobsWorld}
use openshift_online_rosa_e.Verifiers.Rhobs.Metrics.{query_rhobs_metrics}
use openshift_online_rosa_e.Verifiers.Rhobs.Cardinality.{
  Floats, ExtractError, CardinalityError, CardinalityResult, extract_vector_values, delta,
  count_result, results_of, extracted, measure_series, measure_rate, per_metric,
  querying_per_metric, extracting_per_metric, verify_cardinality_threshold,
}
use openshift_online_rosa_e.Verifiers.Rhobs.Cardinality.Counts.{
  HoldsCounts, extract_vector_values-HoldsCounts,
}
use openshift_online_rosa_e.Verifiers.Rhobs.Cardinality.Measured.{Measured, measure-Measured}

module _ {F : Type 0} (floats : Floats F) where
  -- The test passed.
  abbrev pub Passed : CardinalityResult F → Type 0
  Passed result = result.passed ≡ true

  -- The change from the baseline to the current value, in percent of the baseline where that is more than
  -- zero and zero else, is at most this one.
  abbrev pub ChangeAtMost : F → F × F → Type 0
  ChangeAtMost most (current, baseline) =
      ((floats.greater baseline floats.zero ≡ true)
        × (floats.at_most
              (floats.times (floats.divided (floats.minus current baseline) baseline)
                floats.hundred)
              most
            ≡ true))
      ⊎ ((floats.greater baseline floats.zero ≡ false) × (floats.at_most floats.zero most ≡ true))

  change_iff :
      (most : F) (pair : F × F)
      → (floats.at_most (delta floats pair.0 pair.1) most ≡ true) ↔ ChangeAtMost most pair
  change_iff most (current, baseline) = elim (Bool-cases (floats.greater baseline floats.zero)) [
    | inl positive ↦ rw positive (λ h. inl (refl, h), elim [ inl k ↦ k.1 | inr k ↦ cc (k.0) ])
    | inr other ↦ rw other (λ h. inr (refl, h), elim [ inl k ↦ cc (k.0) | inr k ↦ k.1 ])
  ]

  abbrev pub CountAtMost : F → String × F → Type 0
  CountAtMost most (name, count) = floats.at_most count most ≡ true

  counts_iff :
      (max_series : F) (counts : Dict String F)
      → All Passed (map (count_result floats max_series) counts)
        ↔ All (CountAtMost max_series) counts
  counts_iff max_series [] = (λ _. tt, λ _. tt)
  counts_iff max_series (entry ∷ counts) =
      let rest = counts_iff max_series counts in (λ h. (h.0, rest.0 h.1), λ h. (h.0, rest.1 h.1))

  module _ {World : Type 0} (outside : RhobsWorld World) (cfg : RhobsConfig) where
    -- What a run has read, in this order: the two values of each of the two metrics, the current one and
    -- the one of two hours ago, and the counts of the ten largest metrics
    pub record Read (w : World) : Type 0 where
      pub series : F × F
      pub after_series : World
      pub series_measured :
          Measured floats outside cfg "sum(prometheus_tsdb_head_series{container=\"prometheus\"})"
            "sum(prometheus_tsdb_head_series{container=\"prometheus\"} offset 2h)" w series.0
            series.1 after_series
      pub rate : F × F
      pub after_rate : World
      pub rate_measured :
          Measured floats outside cfg "sum(rate(prometheus_remote_storage_samples_total[5m]))"
            "sum(rate(prometheus_remote_storage_samples_total[5m] offset 2h))" after_series rate.0
            rate.1 after_rate
      pub counts_result : Fields
      pub counts_answered :
          (query_rhobs_metrics outside cfg "topk(10, count by (__name__) ({source=\"MC\"}))"
            after_rate).0
          ≡ ok counts_result
      pub counts : Dict String F
      pub holds_counts : HoldsCounts floats "__name__" counts_result counts

    extracted_counts :
        (r : Result ExtractError (Dict String F)) (w : World) (counts : Dict String F)
        → (extracted floats outside cfg (extracting_per_metric "per-metric cardinality") r w).0
          ≡ ok counts
        → r ≡ ok counts
    extracted_counts (ok found) w counts h = ap ok (ok-injective found counts h)
    extracted_counts (err e) w counts h = cc

    answered_counts :
        (answer : Result RhobsError Fields × World) (counts : Dict String F)
        → (proceed
            (λ result.
              extracted floats outside cfg
                (extracting_per_metric "per-metric cardinality")
                (extract_vector_values floats result "__name__"))
            (rewrap (querying_per_metric "per-metric cardinality") answer)).0
          ≡ ok counts
        → (result : Fields) × (answer.0 ≡ ok result) × HoldsCounts floats "__name__" result counts
    answered_counts (err e, w) counts h = cc
    answered_counts (ok result, w) counts h =
        let found = extracted_counts (extract_vector_values floats result "__name__") w counts h in
        (result, refl, extract_vector_values-HoldsCounts floats "__name__" result counts found)

    per_metric-HoldsCounts :
        (w : World) (counts : Dict String F)
        → (per_metric floats outside cfg w).0 ≡ ok counts
        → (result : Fields) × ((query_rhobs_metrics outside cfg
              "topk(10, count by (__name__) ({source=\"MC\"}))" w).0
            ≡ ok result)
          × HoldsCounts floats "__name__" result counts
    unfolding per_metric
    per_metric-HoldsCounts w counts h =
        answered_counts
          (query_rhobs_metrics outside cfg "topk(10, count by (__name__) ({source=\"MC\"}))" w)
          counts h

    results_of_iff :
        (visit : Dict String F → Dict String F)
        → ((counts : Dict String F) → Permᴰ (visit counts) counts)
        → (max_delta_pct max_series : F) (series rate : F × F) (counts : Dict String F)
        → All Passed (results_of floats max_delta_pct max_series series rate (visit counts)) ↔ (
            ChangeAtMost max_delta_pct series
            × ChangeAtMost max_delta_pct rate
            × All (CountAtMost max_series) counts)
    results_of_iff visit order max_delta_pct max_series series rate counts =
        let counted = counts_iff max_series (visit counts) in
        let ordered = All-Permᴰ_iff (CountAtMost max_series) (order counts) in
        let of_series = change_iff max_delta_pct series in
        let of_rate = change_iff max_delta_pct rate in
        (
          λ h. (of_series.0 h.0, of_rate.0 h.1.0, ordered.0 (counted.0 h.1.1)),
          λ h. (of_series.1 h.0, (of_rate.1 h.1, counted.1 (ordered.1 h.2))),
        )

    module _ (make : F × F → F × F → Dict String F → List (CardinalityResult F))
        (results : List (CardinalityResult F)) where
      of_counts :
          (series rate : F × F) (p : Result CardinalityError (Dict String F) × World)
          → (proceed (λ counts. pure (make series rate counts)) p).0 ≡ ok results
          → (counts : Dict String F) × (p.0 ≡ ok counts) × (make series rate counts ≡ results)
      of_counts series rate (ok counts, v) h = (counts, refl, ground arith)
      of_counts series rate (err e, v) h = cc

      of_rate :
          (series : F × F) (p : Result CardinalityError (F × F) × World)
          → (proceed
              (λ rate. per_metric floats outside cfg >>= λ counts. pure (make series rate counts))
              p).0
            ≡ ok results
          → (rate : F × F) × (p.0 ≡ ok rate)
            × (counts : Dict String F) × ((per_metric floats outside cfg p.1).0 ≡ ok counts)
            × (make series rate counts ≡ results)
      of_rate series (ok rate, v) h =
          let (counts, counted, made) = of_counts series rate (per_metric floats outside cfg v) h in
          (rate, refl, counts, counted, made)
      of_rate series (err e, v) h = cc

      of_series :
          (p : Result CardinalityError (F × F) × World)
          → (proceed
              (λ series. measure_rate floats outside cfg >>= λ rate.
                per_metric floats outside cfg >>= λ counts. pure (make series rate counts))
              p).0
            ≡ ok results
          → (series : F × F) × (p.0 ≡ ok series)
            × (rate : F × F) × ((measure_rate floats outside cfg p.1).0 ≡ ok rate)
            × (counts : Dict String F) × ((per_metric floats outside cfg
                  (measure_rate floats outside cfg p.1).1).0
                ≡ ok counts)
            × (make series rate counts ≡ results)
      of_series (ok series, v) h =
          let (rate, measured, counts, counted, made) =
            of_rate series (measure_rate floats outside cfg v) h in
          (series, refl, rate, measured, counts, counted, made)
      of_series (err e, v) h = cc

    -- Where VerifyCardinalityThreshold returns results, its five queries, for the current and the earlier
    -- value of the two metrics and for the counts, were answered one after the other, the four values were
    -- scanned from the second part of the value of the first item of each result, and the counts from the
    -- items that have one; and all results passed exactly when the change of both metrics, in percent of
    -- the earlier value where that is more than zero and zero else, is at most the threshold, and every
    -- count is at most the limit, whatever order the range over the counts takes.
    pub verify_cardinality_threshold-Passed :
        (visit : Dict String F → Dict String F)
        → ((counts : Dict String F) → Permᴰ (visit counts) counts)
        → (max_delta_pct max_series : F) (results : List (CardinalityResult F)) (w : World)
        → (verify_cardinality_threshold floats outside cfg visit max_delta_pct max_series w).0
          ≡ ok results
        → (read : Read w) × (All Passed results ↔ (
            ChangeAtMost max_delta_pct read.series
            × ChangeAtMost max_delta_pct read.rate
            × All (CountAtMost max_series) read.counts))
    unfolding verify_cardinality_threshold
    verify_cardinality_threshold-Passed visit order max_delta_pct max_series results w h =
        let (series, series_read, rate, rate_read, counts, counts_read, made) =
          of_series
            (λ series rate counts.
              results_of floats max_delta_pct max_series series rate (visit counts))
            results (measure_series floats outside cfg w) h in
        let (result, answered, holds) =
          per_metric-HoldsCounts
            (measure_rate floats outside cfg (measure_series floats outside cfg w).1).1 counts
            counts_read in
        (
          record {
            series = series;
            after_series = (measure_series floats outside cfg w).1;
            series_measured =
                measure-Measured floats outside cfg "TSDB head series" _ _ w series series_read;
            rate = rate;
            after_rate =
                (measure_rate floats outside cfg (measure_series floats outside cfg w).1).1;
            rate_measured =
                measure-Measured floats outside cfg "remote-write rate" _ _
                  (measure_series floats outside cfg w).1 rate rate_read;
            counts_result = result;
            counts_answered = answered;
            counts = counts;
            holds_counts = holds;
          },
          subst
              (λ r. All Passed r ↔ (
                ChangeAtMost max_delta_pct series
                × ChangeAtMost max_delta_pct rate
                × All (CountAtMost max_series) counts))
              made (results_of_iff visit order max_delta_pct max_series series rate counts),
        )
