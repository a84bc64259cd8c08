-- ===== src/Verifiers/Rhobs/Metrics/Rules.antt =====
-- When the checks on metrics and recording rules of pkg/verifiers/rhobs.go pass, and what a failure says.
use openshift_online_rosa_e.Base.{
  String, ◌<>◌, ◌≡◌, refl, ◌⊎◌, ◌↔◌, Bool, true, false, Result, ok, err, inl, inr, OkAnd,
}
use openshift_online_rosa_e.Base.Io.{Io, proceed, rewrap}
use openshift_online_rosa_e.Unstructured.{Fields}
use openshift_online_rosa_e.Verifiers.Rhobs.{RhobsConfig, RhobsError, RhobsWorld}
use openshift_online_rosa_e.Verifiers.Rhobs.Metrics.{
  MetricsError, querying_metrics, no_samples, not_yet_available, Answer, unsuccessful, without_data,
  without_samples, with_samples, answer_of, for_cluster, probe_success, probe_active,
  blackbox_probe_active, query_rhobs_metrics, judge, judge_result, judge_data, has_data,
  verify_probe_success_metrics, probe_success_data_exists, empty_rule, check_rule,
  verify_recording_rules,
}
use openshift_online_rosa_e.Verifiers.Rhobs.Metrics.Samples.{
  HasSamples, answer_of_iff, NoSamples, answer_of-NoSamples,
}

module _ {World : Type 0} (outside : RhobsWorld World) (cfg : RhobsConfig) where
  judge_iff :
      (name : String) (empty : MetricsError) (result : Fields) (answer : Answer)
      → (judge outside cfg name empty result answer ≡ ok tt) ↔ (answer ≡ with_samples)
  judge_iff name empty result unsuccessful = (λ h. cc, λ h. cc)
  judge_iff name empty result without_data = (λ h. cc, λ h. cc)
  judge_iff name empty result without_samples = (λ h. cc, λ h. cc)
  judge_iff name empty result with_samples = (λ h. refl, λ h. refl)

  -- An answer of the metrics API that has samples, and what follows
  abbrev pub Sampled : (World → Type 0) → Result RhobsError Fields × World → Type 0
  Sampled Next (err e, w) = ⊥
  Sampled Next (ok result, w) = HasSamples result × Next w

  -- A last check, with nothing behind it
  last_iff :
      (name : String) (empty : MetricsError) (answer : Result RhobsError Fields × World)
      → ((proceed (judge_result outside cfg name empty) (rewrap (querying_metrics name) answer)).0
          ≡ ok tt)
        ↔ OkAnd HasSamples answer.0
  last_iff name empty (err e, w) = (λ h. cc, λ h. absurd h)
  last_iff name empty (ok result, w) =
      let verdict = judge_iff name empty result (answer_of result) in
      let sampled = answer_of_iff result in
      (λ h. sampled.0 (verdict.0 h), λ h. verdict.1 (sampled.1 h))

  -- VerifyProbeSuccessMetrics passes exactly when the query for the cluster's probe_success succeeded, its
  -- status is success, and its data has a sample.
  pub verify_probe_success_metrics_iff :
      (cluster_id : String) (w : World)
      → ((verify_probe_success_metrics outside cfg cluster_id w).0 ≡ ok tt)
        ↔ OkAnd HasSamples
            (query_rhobs_metrics outside cfg (for_cluster probe_success cluster_id) w).0
  unfolding verify_probe_success_metrics
  verify_probe_success_metrics_iff cluster_id w =
      last_iff probe_success (no_samples probe_success)
        (query_rhobs_metrics outside cfg (for_cluster probe_success cluster_id) w)

  -- The last rule has samples.
  abbrev pub BlackboxSampled : String → World → Type 0
  BlackboxSampled cluster_id v =
      OkAnd HasSamples
        (query_rhobs_metrics outside cfg (for_cluster blackbox_probe_active cluster_id) v).0

  judge-not_yet :
      (name hint : String) (probe : Result MetricsError Bool) (result : Fields) (answer : Answer)
      → judge outside cfg name (empty_rule outside cfg name probe) result answer
        ≡ err (not_yet_available hint)
      → probe ≡ ok false
  judge-not_yet name hint probe result unsuccessful h = cc
  judge-not_yet name hint probe result without_data h = cc
  judge-not_yet name hint (ok false) result without_samples h = refl
  judge-not_yet name hint (ok true) result without_samples h = cc
  judge-not_yet name hint (err e) result without_samples h = cc
  judge-not_yet name hint probe result with_samples h = cc

  answer-not_yet :
      (name hint : String) (probe : Result MetricsError Bool)
      (answer : Result RhobsError Fields × World)
      → (proceed
          (judge_result outside cfg name (empty_rule outside cfg name probe))
          (rewrap (querying_metrics name) answer)).0
        ≡ err (not_yet_available hint)
      → probe ≡ ok false
  answer-not_yet name hint probe (err e, w) h = cc
  answer-not_yet name hint probe (ok result, w) h =
      judge-not_yet name hint probe result (answer_of result) h

  rules-not_yet :
      (hint : String) (probe : Result MetricsError Bool)
      (first : Result MetricsError (Unit {0}) × World) (rest : Io MetricsError World (Unit {0}))
      → (first.0 ≡ err (not_yet_available hint) → probe ≡ ok false)
      → ((v : World) → (rest v).0 ≡ err (not_yet_available hint) → probe ≡ ok false)
      → (proceed (λ _. rest) first).0 ≡ err (not_yet_available hint)
      → probe ≡ ok false
  rules-not_yet hint probe (ok tt, v) rest here later h = later v h
  rules-not_yet hint probe (err e, v) rest here later h = here h

  -- The query for the cluster's probe_success was answered without samples.
  abbrev pub ProbeIsEmpty : String → World → Type 0
  ProbeIsEmpty cluster_id w =
      OkAnd NoSamples
        (query_rhobs_metrics outside cfg ("probe_success" <> "{_id=\"" <> cluster_id <> "\"}") w).0

  judge_data-false :
      (result : Fields) (answer : Answer)
      → judge_data outside cfg result answer ≡ ok false
      → (answer ≡ without_data) ⊎ (answer ≡ without_samples)
  judge_data-false result unsuccessful h = cc
  judge_data-false result without_data h = inl refl
  judge_data-false result without_samples h = inr refl
  judge_data-false result with_samples h = cc

  has_data-false :
      (answer : Result RhobsError Fields × World)
      → (proceed (has_data outside cfg) (rewrap (querying_metrics probe_success) answer)).0
        ≡ ok false
      → OkAnd NoSamples answer.0
  has_data-false (err e, w) h = cc
  has_data-false (ok result, w) h =
      answer_of-NoSamples result (judge_data-false result (answer_of result) h)

  probe_success_data_exists-false :
      (cluster_id : String) (w : World)
      → (probe_success_data_exists outside cfg cluster_id w).0 ≡ ok false
      → ProbeIsEmpty cluster_id w
  unfolding probe_success_data_exists
  probe_success_data_exists-false cluster_id w h =
      has_data-false (query_rhobs_metrics outside cfg (for_cluster probe_success cluster_id) w) h

  -- VerifyRecordingRules says that the probe's metrics are not yet available only when its first query,
  -- for the cluster's probe_success, was answered with the status success and without samples: never when
  -- samples exist, nor when that query failed.
  pub verify_recording_rules-not_yet_available :
      (cluster_id hint : String) (w : World)
      → (verify_recording_rules outside cfg cluster_id w).0 ≡ err (not_yet_available hint)
      → ProbeIsEmpty cluster_id w
  unfolding verify_recording_rules
  verify_recording_rules-not_yet_available cluster_id hint w h =
      let (probe, v) = probe_success_data_exists outside cfg cluster_id w in
      probe_success_data_exists-false cluster_id w (
        rules-not_yet hint probe (check_rule outside cfg cluster_id probe probe_active v)
          (check_rule outside cfg cluster_id probe blackbox_probe_active)
          (answer-not_yet probe_active hint probe
            (query_rhobs_metrics outside cfg (for_cluster probe_active cluster_id) v))
          (λ u.
            answer-not_yet blackbox_probe_active hint probe
              (query_rhobs_metrics outside cfg (for_cluster blackbox_probe_active cluster_id) u))
          h)
