-- ===== src/Reporting/Signals.antt =====
-- test/e2e/sippy_signals.go: the signals of a suite's report.
pub mod Verdict
pub mod Messages
use openshift_online_rosa_e.Base.{
  String, ◌<>◌, Bool, true, false, not, ◌&&◌, ◌||◌, List, [], ◌∷◌, any, ◌==◌, if◌then◌else◌,
}
use openshift_online_rosa_e.Reporting.Sippy.{SignalResult}

-- The kinds of node and the states of a spec that the code tells apart.
pub data NodeType : Type 0 where
  before_suite it other_node : NodeType

pub data SpecState : Type 0 where
  skipped pending other_state : SpecState

-- A spec of Ginkgo's report, with the answers of its methods: `failed` is `spec.Failed()`.
pub record SpecReport : Type 0 where
  pub leaf_node_type : NodeType
  pub state : SpecState
  pub failed : Bool
  pub labels : List String
  pub full_text : String
  pub failure_message : String

-- The variables of `analyzeSuiteReport`
pub record Analysis : Type 0 where
  pub result : SignalResult
  pub infra_specs_ran : Bool
  pub upgrade_any_failed : Bool

-- `slices.Contains(labels, label)`
abbrev pub has_label : String → SpecReport → Bool
has_label label spec = any (λ l. l == label) spec.labels

abbrev pub is_before_suite : NodeType → Bool
is_before_suite before_suite = true
is_before_suite it = false
is_before_suite other_node = false

abbrev pub is_it : NodeType → Bool
is_it it = true
is_it before_suite = false
is_it other_node = false

abbrev pub is_not_run : SpecState → Bool
is_not_run skipped = true
is_not_run pending = true
is_not_run other_state = false

abbrev pub spec_message : SpecReport → String
spec_message spec = spec.full_text <> (": " <> spec.failure_message)

-- `if msg == "" { msg = ... }`
abbrev pub first_message : String → String → String
first_message old new = if old == "" then new else old

abbrev upgrade_failure : SpecReport → SignalResult → SignalResult
upgrade_failure spec r = record r {
  upgrade_failure_msg = first_message r.upgrade_failure_msg (spec_message spec);
}

unfoldable pub note_upgrade : SpecReport → Analysis → Analysis
note_upgrade spec a =
    let ran = record a.result { upgrade_ran = true } in
    if has_label "Area:Upgrade" spec
    then (if spec.failed
        then record a { result = upgrade_failure spec ran; upgrade_any_failed = true }
        else record a { result = ran })
    else a

abbrev infra_failure : SpecReport → SignalResult → SignalResult
infra_failure spec r = record r {
  infrastructure_passed = false;
  infra_failure_msg = first_message r.infra_failure_msg (spec_message spec);
}

unfoldable pub note_infrastructure : SpecReport → Analysis → Analysis
note_infrastructure spec a =
    if has_label "Area:ManagedService" spec || has_label "Area:ClusterLifecycle" spec
    then (if spec.failed
        then record a { result = infra_failure spec a.result; infra_specs_ran = true }
        else record a { infra_specs_ran = true })
    else a

-- One round of the loop, where it does not return
unfoldable pub note_spec : SpecReport → Analysis → Analysis
unfolding note_upgrade note_infrastructure
note_spec spec a =
    if not (is_it spec.leaf_node_type) || is_not_run spec.state
    then a
    else note_infrastructure spec (note_upgrade spec a)

-- The early return: the cluster was unreachable.
abbrev pub unreachable : SpecReport → SignalResult → SignalResult
unreachable spec r = record r {
  install_passed = false;
  infrastructure_passed = false;
  install_failure_msg = "BeforeSuite failed: " <> spec.failure_message;
  infra_failure_msg = "cluster unreachable (BeforeSuite failed)";
}

-- What stands behind the loop
unfoldable pub finish : Analysis → SignalResult
finish a =
    let upgraded =
      if a.result.upgrade_ran
      then record a.result { upgrade_passed = not a.upgrade_any_failed }
      else a.result in
    if not a.infra_specs_ran then record upgraded { infrastructure_passed = true } else upgraded

abbrev pub failed_before_suite : SpecReport → Bool
failed_before_suite spec = is_before_suite spec.leaf_node_type && spec.failed

unfoldable pub analyze_specs : Analysis → List SpecReport → SignalResult
unfolding finish
analyze_specs a [] = finish a
analyze_specs a (spec ∷ specs) =
    let rest = analyze_specs (note_spec spec a) specs in
    if failed_before_suite spec then unreachable spec a.result else rest

abbrev pub initial : Analysis
initial = record {
  result = record {
    install_passed = true;
    infrastructure_passed = true;
    upgrade_ran = false;
    upgrade_passed = false;
    install_failure_msg = "";
    infra_failure_msg = "";
    upgrade_failure_msg = "";
  };
  infra_specs_ran = false;
  upgrade_any_failed = false;
}

unfoldable pub analyze_suite_report : List SpecReport → SignalResult
unfolding analyze_specs
analyze_suite_report specs = analyze_specs initial specs
