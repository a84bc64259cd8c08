-- ===== src/Verifiers/Rhobs/Probes.antt =====
-- pkg/verifiers/rhobs.go: the query for probes, and the checks on the probe of a cluster.
pub mod Queried
pub mod Labels
use openshift_online_rosa_e.Base.{
  ℕ, String, ◌<>◌, Bool, not, ◌==◌, eqb, List, [], ◌∷◌, if◌then◌else◌, Result, ok, err, Option,
  none, some, length, Dict,
}
use openshift_online_rosa_e.Base.Io.{Io, within, ◌>>=◌}
use openshift_online_rosa_e.Base.Query.{query_escape}
use openshift_online_rosa_e.Unstructured.{Fields, get_string?}
use openshift_online_rosa_e.Verifiers.Conditions.{ApiError}
use openshift_online_rosa_e.Verifiers.Http.{Response}
use openshift_online_rosa_e.Verifiers.Rhobs.{
  RhobsProbe, RhobsConfig, RhobsError, RhobsWorld, bad_status, decoding, creating_request,
  requesting, reading_body, getting_token,
}
use openshift_online_rosa_e.Verifiers.Rhobs.Token.{get_oidc_access_token}

pub data ProbeError : Type 0 where
  querying_probes : RhobsError → ProbeError
  no_probe : String → ProbeError
  several_probes : String → ℕ → ProbeError
  incorrect_cluster_id : Option String → String → ProbeError
  missing_private : ProbeError
  incorrect_private : String → String → ProbeError
  missing_label : String → ProbeError
  wrong_label : String → String → String → ProbeError

-- The address of the query: a selector that is empty is left out.
unfoldable pub probes_url : RhobsConfig → String → String
unfolding query_escape
probes_url cfg label_selector =
    if not (label_selector == "")
    then cfg.probe_api_url <> "?label_selector=" <> query_escape label_selector
    else cfg.probe_api_url

module _ {World : Type 0} (outside : RhobsWorld World) (cfg : RhobsConfig) where
  -- The second decoding, after the first has failed with an error
  abbrev pub or_wrapped :
      ApiError → Result ApiError (List RhobsProbe) → Result RhobsError (List RhobsProbe)
  or_wrapped first (ok probes) = ok probes
  or_wrapped first (err _) = err (decoding first)

  abbrev pub or_decode_wrapped :
      String → Result ApiError (List RhobsProbe) → Result RhobsError (List RhobsProbe)
  or_decode_wrapped body (ok probes) = ok probes
  or_decode_wrapped body (err e) = or_wrapped e (outside.unmarshal_wrapper body)

  abbrev pub decode_probes : String → Option ApiError → Result RhobsError (List RhobsProbe)
  decode_probes body (some e) = err (reading_body e)
  decode_probes body none = or_decode_wrapped body (outside.unmarshal_probes body)

  abbrev pub read_probes :
      Result ApiError Response × World → Result RhobsError (List RhobsProbe) × World
  read_probes (err e, w) = (err (requesting e), w)
  read_probes (ok response, w) =
      if not (eqb response.status 200)
      then (err (bad_status response), w)
      else (decode_probes response.body response.read_error, w)

  abbrev pub send : String → String → Option ApiError → Io RhobsError World (List RhobsProbe)
  send url token (some e) w = (err (creating_request e), w)
  send url token none w = read_probes (outside.get (some token) url w)

  abbrev pub get_probes : String → String → Io RhobsError World (List RhobsProbe)
  get_probes url token = send url token (outside.new_request url)

  -- `queryRHOBSProbes`
  unfoldable pub query_rhobs_probes : String → Io RhobsError World (List RhobsProbe)
  unfolding get_oidc_access_token probes_url
  query_rhobs_probes label_selector =
      within getting_token (get_oidc_access_token outside cfg)
      >>= get_probes (probes_url cfg label_selector)

  abbrev pub expected_text : Bool → String
  expected_text expected_private = if expected_private then "true" else "false"

  abbrev pub judge_private : String → Option String → Result ProbeError (Unit {0})
  judge_private expected none = err missing_private
  judge_private expected (some private_label) =
      if not (private_label == expected)
      then err (incorrect_private private_label expected)
      else ok tt

  abbrev pub judge_cluster_id :
      String → Option String → Result ProbeError (Unit {0}) → Result ProbeError (Unit {0})
  judge_cluster_id cluster_id none rest = err (incorrect_cluster_id none cluster_id)
  judge_cluster_id cluster_id (some label) rest =
      if not (label == cluster_id) then err (incorrect_cluster_id (some label) cluster_id) else rest

  unfoldable pub judge_probe : String → Bool → RhobsProbe → Result ProbeError (Unit {0})
  unfolding get_string?
  judge_probe cluster_id expected_private probe =
      judge_cluster_id cluster_id (get_string? "cluster-id" probe.labels)
        (judge_private (expected_text expected_private) (get_string? "private" probe.labels))

  abbrev pub judge_probes : String → Bool → List RhobsProbe → Io ProbeError World (Unit {0})
  judge_probes cluster_id expected_private [] w = (err (no_probe cluster_id), w)
  judge_probes cluster_id expected_private (probe ∷ []) w =
      (judge_probe cluster_id expected_private probe, w)
  judge_probes cluster_id expected_private (probe ∷ (other ∷ probes)) w =
      (err (several_probes cluster_id (length (probe ∷ (other ∷ probes)))), w)

  -- `VerifyRHOBSProbeExists`
  unfoldable pub verify_rhobs_probe_exists : String → Bool → Io ProbeError World (Unit {0})
  unfolding query_rhobs_probes judge_probe
  verify_rhobs_probe_exists cluster_id expected_private =
      within querying_probes (query_rhobs_probes ("cluster-id=" <> cluster_id))
      >>= judge_probes cluster_id expected_private

  abbrev pub judge_label :
      String × String → Option String → Result ProbeError (Unit {0}) → Result ProbeError (Unit {0})
  judge_label (key, expected) none rest = err (missing_label key)
  judge_label (key, expected) (some actual) rest =
      if not (actual == expected) then err (wrong_label key actual expected) else rest

  -- The loop over the expected labels, in the order in which the range visits them
  unfoldable pub judge_labels : Fields → Dict String String → Result ProbeError (Unit {0})
  unfolding get_string?
  judge_labels labels [] = ok tt
  judge_labels labels (entry ∷ entries) =
      let rest = judge_labels labels entries in
      judge_label entry (get_string? (entry.0) labels) rest

  abbrev pub judge_first :
      String → Dict String String → List RhobsProbe → Io ProbeError World (Unit {0})
  judge_first cluster_id visited [] w = (err (no_probe cluster_id), w)
  judge_first cluster_id visited (probe ∷ probes) w = (judge_labels probe.labels visited, w)

  -- `VerifyProbeLabels`
  unfoldable pub verify_probe_labels : String → Dict String String → Io ProbeError World (Unit {0})
  unfolding query_rhobs_probes judge_labels
  verify_probe_labels cluster_id visited =
      within querying_probes (query_rhobs_probes ("cluster-id=" <> cluster_id))
      >>= judge_first cluster_id visited
