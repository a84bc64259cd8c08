-- ===== src/Verifiers/Rhobs/Probes/Labels.antt =====
-- When the checks on a probe of pkg/verifiers/rhobs.go pass.
use mathlib.Core.List.{Permᴰ}
use openshift_online_rosa_e.Base.{
  String, ◌<>◌, ◌≡◌, refl, sym, ap, ◌∙◌, ◌↔◌, Bool, true, false, List, [], ◌∷◌, All, All-Permᴰ_iff,
  Dict, Result, ok, err, Option, none, some, OkAnd,
}
use openshift_online_rosa_e.Base.Text.Equality.{unless_equal_iff}
use openshift_online_rosa_e.Base.Io.{proceed, rewrap}
use openshift_online_rosa_e.Unstructured.{Fields, get_string?}
use openshift_online_rosa_e.Verifiers.Rhobs.{RhobsProbe, RhobsConfig, RhobsError, RhobsWorld}
use openshift_online_rosa_e.Verifiers.Rhobs.Probes.{
  ProbeError, incorrect_private, incorrect_cluster_id, wrong_label, querying_probes,
  query_rhobs_probes, expected_text, judge_private, judge_cluster_id, judge_probe, judge_probes,
  judge_label, judge_labels, judge_first, verify_rhobs_probe_exists, verify_probe_labels,
}

-- The probe has this label, as a text.
abbrev pub HasLabel : Fields → String × String → Type 0
HasLabel labels (key, value) = get_string? key labels ≡ some value

abbrev pub privacy : Bool → String
privacy true = "true"
privacy false = "false"

-- The list is of one probe, with the two labels.
abbrev pub IsOneProbe : String → Bool → List RhobsProbe → Type 0
IsOneProbe cluster_id private [] = ⊥
IsOneProbe cluster_id private (probe ∷ []) =
    HasLabel probe.labels ("cluster-id", cluster_id)
    × HasLabel probe.labels ("private", privacy private)
IsOneProbe cluster_id private (probe ∷ (other ∷ probes)) = ⊥

-- The first probe of the list has all the labels.
abbrev pub FirstHas : Dict String String → List RhobsProbe → Type 0
FirstHas expected [] = ⊥
FirstHas expected (probe ∷ probes) = All (HasLabel probe.labels) expected

module _ {World : Type 0} (outside : RhobsWorld World) (cfg : RhobsConfig) where
  judge_private_iff :
      (expected : String) (found : Option String)
      → (judge_private outside cfg expected found ≡ ok tt) ↔ (found ≡ some expected)
  judge_private_iff expected none = (λ h. cc, λ h. cc)
  judge_private_iff expected (some label) =
      let guarded = unless_equal_iff label expected (incorrect_private label expected) (ok tt) in
      (λ h. (guarded.0 h).0, λ h. guarded.1 (h, refl))

  judge_cluster_id_iff :
      (cluster_id : String) (found : Option String) (rest : Result ProbeError (Unit {0}))
      → (judge_cluster_id outside cfg cluster_id found rest ≡ ok tt)
        ↔ ((found ≡ some cluster_id) × (rest ≡ ok tt))
  judge_cluster_id_iff cluster_id none rest = (λ h. cc, λ h. cc (h.0))
  judge_cluster_id_iff cluster_id (some label) rest =
      unless_equal_iff label cluster_id (incorrect_cluster_id (some label) cluster_id) rest

  judge_label_iff :
      (entry : String × String) (found : Option String) (rest : Result ProbeError (Unit {0}))
      → (judge_label outside cfg entry found rest ≡ ok tt)
        ↔ ((found ≡ some (entry.1)) × (rest ≡ ok tt))
  judge_label_iff (key, expected) none rest = (λ h. cc, λ h. cc (h.0))
  judge_label_iff (key, expected) (some actual) rest =
      unless_equal_iff actual expected (wrong_label key actual expected) rest

  judge_labels_iff :
      (labels : Fields) (visited : Dict String String)
      → (judge_labels outside cfg labels visited ≡ ok tt) ↔ All (HasLabel labels) visited
  unfolding judge_labels
  judge_labels_iff labels [] = (λ _. tt, λ _. refl)
  judge_labels_iff labels (entry ∷ entries) =
      let here =
        judge_label_iff entry (get_string? (entry.0) labels)
          (judge_labels outside cfg labels entries) in
      let later = judge_labels_iff labels entries in
      (λ h. ((here.0 h).0, later.0 (here.0 h).1), λ h. here.1 (h.0, later.1 h.1))

  expected_text-privacy : (private : Bool) → expected_text outside cfg private ≡ privacy private
  expected_text-privacy true = refl
  expected_text-privacy false = refl

  judge_probes_iff :
      (cluster_id : String) (private : Bool) (probes : List RhobsProbe) (w : World)
      → ((judge_probes outside cfg cluster_id private probes w).0 ≡ ok tt)
        ↔ IsOneProbe cluster_id private probes
  unfolding judge_probe
  judge_probes_iff cluster_id private [] w = (λ h. cc, λ h. absurd h)
  judge_probes_iff cluster_id private (probe ∷ []) w =
      let first = judge_cluster_id_iff cluster_id (get_string? "cluster-id" probe.labels) (
        judge_private outside cfg (expected_text outside cfg private)
          (get_string? "private" probe.labels)) in
      let second =
        judge_private_iff (expected_text outside cfg private)
          (get_string? "private" probe.labels) in
      let same = expected_text-privacy private in
      (
        λ h. ((first.0 h).0, second.0 (first.0 h).1 ∙ ap some same),
        λ h. first.1 (h.0, second.1 (h.1 ∙ ap some (sym same))),
      )
  judge_probes_iff cluster_id private (probe ∷ (other ∷ probes)) w = (λ h. cc, λ h. absurd h)

  exists_iff :
      (cluster_id : String) (private : Bool) (answer : Result RhobsError (List RhobsProbe) × World)
      → ((proceed (judge_probes outside cfg cluster_id private) (rewrap querying_probes answer)).0
          ≡ ok tt)
        ↔ OkAnd (IsOneProbe cluster_id private) answer.0
  exists_iff cluster_id private (ok probes, w) = judge_probes_iff cluster_id private probes w
  exists_iff cluster_id private (err e, w) = (λ h. cc, λ h. absurd h)

  -- VerifyRHOBSProbeExists passes exactly when the query for the cluster's label succeeded with one probe,
  -- whose labels have the cluster's ID, and true or false for whether it is to be private, as texts.
  pub verify_rhobs_probe_exists_iff :
      (cluster_id : String) (private : Bool) (w : World)
      → ((verify_rhobs_probe_exists outside cfg cluster_id private w).0 ≡ ok tt)
        ↔ OkAnd
            (IsOneProbe cluster_id private)
            (query_rhobs_probes outside cfg ("cluster-id=" <> cluster_id) w).0
  unfolding verify_rhobs_probe_exists
  verify_rhobs_probe_exists_iff cluster_id private w =
      exists_iff cluster_id private (query_rhobs_probes outside cfg ("cluster-id=" <> cluster_id) w)

  first_iff :
      (cluster_id : String) (visited expected : Dict String String)
      → Permᴰ visited expected
      → (answer : Result RhobsError (List RhobsProbe) × World)
      → ((proceed (judge_first outside cfg cluster_id visited) (rewrap querying_probes answer)).0
          ≡ ok tt)
        ↔ OkAnd (FirstHas expected) answer.0
  first_iff cluster_id visited expected order (ok [], w) = (λ h. cc, λ h. absurd h)
  first_iff cluster_id visited expected order (ok (probe ∷ probes), w) =
      let judged = judge_labels_iff probe.labels visited in
      let ordered = All-Permᴰ_iff (HasLabel probe.labels) order in
      (λ h. ordered.0 (judged.0 h), λ h. judged.1 (ordered.1 h))
  first_iff cluster_id visited expected order (err e, w) = (λ h. cc, λ h. absurd h)

  -- Whatever order the range over the expected labels takes, VerifyProbeLabels passes exactly when the
  -- query for the cluster's label succeeded with a probe, the first of which has all the expected labels.
  pub verify_probe_labels_iff :
      (cluster_id : String) (visited expected : Dict String String)
      → Permᴰ visited expected
      → (w : World)
      → ((verify_probe_labels outside cfg cluster_id visited w).0 ≡ ok tt)
        ↔ OkAnd
            (FirstHas expected)
            (query_rhobs_probes outside cfg ("cluster-id=" <> cluster_id) w).0
  unfolding verify_probe_labels
  verify_probe_labels_iff cluster_id visited expected order w =
      first_iff cluster_id visited expected order
        (query_rhobs_probes outside cfg ("cluster-id=" <> cluster_id) w)
