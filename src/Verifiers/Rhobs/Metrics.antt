-- ===== src/Verifiers/Rhobs/Metrics.antt =====
-- pkg/verifiers/rhobs.go: the query for metrics, and the checks on its answers.
pub mod Rules
pub mod Samples
use openshift_online_rosa_e.Base.{
  String, ◌<>◌, Bool, true, false, not, ◌&&◌, ◌==◌, eqb, List, [], ◌∷◌, if◌then◌else◌, Result, ok,
  err, Option, none, some, wrap,
}
use openshift_online_rosa_e.Base.Io.{Io, pure, raise, within, ◌>>=◌, ◌>>◌}
use openshift_online_rosa_e.Base.Query.{query_escape}
use openshift_online_rosa_e.Unstructured.{Value, Fields, get_string?, get_map?, get_slice?}
use openshift_online_rosa_e.Verifiers.Conditions.{ApiError}
use openshift_online_rosa_e.Verifiers.Http.{Response}
use openshift_online_rosa_e.Verifiers.Rhobs.{
  RhobsConfig, RhobsError, RhobsWorld, bad_status, decoding, creating_request, requesting,
  getting_token,
}
use openshift_online_rosa_e.Verifiers.Rhobs.Token.{get_oidc_access_token}

pub data MetricsError : Type 0 where
  querying_metrics : String → RhobsError → MetricsError
  query_failed : String → Fields → MetricsError
  no_data no_samples : String → MetricsError
  -- The recording rule has no samples, and neither has the probe.
  not_yet_available : String → MetricsError

-- What the checks tell apart in an answer
pub data Answer : Type 0 where
  unsuccessful without_data without_samples with_samples : Answer

abbrev samples_answer : Option (List Value) → Answer
samples_answer none = without_samples
samples_answer (some []) = without_samples
samples_answer (some (sample ∷ samples)) = with_samples

abbrev data_answer : Option Fields → Answer
data_answer none = without_data
data_answer (some fields) = samples_answer (get_slice? "result" fields)

abbrev status_answer : Option String → Answer → Answer
status_answer none rest = unsuccessful
status_answer (some status) rest = if not (status == "success") then unsuccessful else rest

-- The assertions on `result["status"]`, `result["data"]` and `data["result"]`, in their order
unfoldable pub answer_of : Fields → Answer
unfolding get_string? get_map? get_slice?
answer_of result =
    status_answer (get_string? "status" result) (data_answer (get_map? "data" result))

abbrev pub metrics_url : RhobsConfig → String → String
metrics_url cfg query = cfg.metrics_api_url <> "/api/v1/query?query=" <> query_escape query

-- A query with the cluster's ID: `fmt.Sprintf("name{_id=\"%s\"}", clusterID)`
abbrev pub for_cluster : String → String → String
for_cluster name cluster_id = name <> "{_id=\"" <> cluster_id <> "\"}"

abbrev pub probe_success : String
probe_success = "probe_success"

abbrev pub probe_active : String
probe_active = "sre:hcp:probe_active"

abbrev pub blackbox_probe_active : String
blackbox_probe_active = "sre:hcp:blackbox_probe_active"

module _ {World : Type 0} (outside : RhobsWorld World) (cfg : RhobsConfig) where
  abbrev pub has_credentials : Bool
  has_credentials = not (cfg.oidc_client_id == "") && not (cfg.oidc_client_secret == "")

  abbrev pub read_metrics : Result ApiError Response × World → Result RhobsError Fields × World
  read_metrics (err e, w) = (err (requesting e), w)
  read_metrics (ok response, w) =
      if not (eqb response.status 200)
      then (err (bad_status response), w)
      else (wrap decoding (outside.decode_metrics response), w)

  abbrev pub get_metrics : String → Option String → Io RhobsError World Fields
  get_metrics url token w = read_metrics (outside.get token url w)

  abbrev pub authenticate : Bool → Io RhobsError World (Option String)
  authenticate true =
      within getting_token (get_oidc_access_token outside cfg) >>= λ token. pure (some token)
  authenticate false = pure none

  abbrev pub allowed : String → Option ApiError → Io RhobsError World Fields
  allowed url (some e) = raise (creating_request e)
  allowed url none = authenticate has_credentials >>= get_metrics url

  -- `queryRHOBSMetrics`
  unfoldable pub query_rhobs_metrics : String → Io RhobsError World Fields
  unfolding get_oidc_access_token query_escape
  query_rhobs_metrics query =
      allowed (metrics_url cfg query) (outside.new_request (metrics_url cfg query))

  -- The query of a cluster's metric
  abbrev pub query_for : String → String → Io MetricsError World Fields
  query_for name cluster_id =
      within (querying_metrics name) (query_rhobs_metrics (for_cluster name cluster_id))

  -- The checks on an answer, with the error for one without samples
  abbrev pub judge : String → MetricsError → Fields → Answer → Result MetricsError (Unit {0})
  judge name empty result unsuccessful = err (query_failed name result)
  judge name empty result without_data = err (no_data name)
  judge name empty result without_samples = err empty
  judge name empty result with_samples = ok tt

  abbrev pub judge_result : String → MetricsError → Fields → Io MetricsError World (Unit {0})
  judge_result name empty result w = (judge name empty result (answer_of result), w)

  -- `VerifyProbeSuccessMetrics`
  unfoldable pub verify_probe_success_metrics : String → Io MetricsError World (Unit {0})
  unfolding query_rhobs_metrics answer_of
  verify_probe_success_metrics cluster_id =
      query_for probe_success cluster_id >>= judge_result probe_success (no_samples probe_success)

  abbrev pub judge_data : Fields → Answer → Result MetricsError Bool
  judge_data result unsuccessful = err (query_failed probe_success result)
  judge_data result without_data = ok false
  judge_data result without_samples = ok false
  judge_data result with_samples = ok true

  abbrev pub has_data : Fields → Io MetricsError World Bool
  has_data result w = (judge_data result (answer_of result), w)

  -- `probeSuccessDataExists`
  unfoldable pub probe_success_data_exists : String → Io MetricsError World Bool
  unfolding query_rhobs_metrics answer_of
  probe_success_data_exists cluster_id = query_for probe_success cluster_id >>= has_data

  -- The error for a rule without samples: `probeErr == nil && !hasProbeData`
  abbrev pub empty_rule : String → Result MetricsError Bool → MetricsError
  empty_rule name (ok false) = not_yet_available name
  empty_rule name (ok true) = no_samples name
  empty_rule name (err e) = no_samples name

  abbrev pub check_rule :
      String → Result MetricsError Bool → String → Io MetricsError World (Unit {0})
  check_rule cluster_id probe name =
      query_for name cluster_id >>= judge_result name (empty_rule name probe)

  -- The two rules, after the query for the probe's data, whose failure stops nothing
  abbrev pub check_rules :
      String → Result MetricsError Bool × World → Result MetricsError (Unit {0}) × World
  check_rules cluster_id (probe, w) =
      (check_rule cluster_id probe probe_active
          >> check_rule cluster_id probe blackbox_probe_active)
        w

  -- `VerifyRecordingRules`
  unfoldable pub verify_recording_rules : String → Io MetricsError World (Unit {0})
  unfolding query_rhobs_metrics answer_of probe_success_data_exists
  verify_recording_rules cluster_id w =
      check_rules cluster_id (probe_success_data_exists cluster_id w)
