-- ===== src/Reporting/Tests.antt =====
-- Runs of pkg/reporting/sippy.go and test/e2e/sippy_signals.go, and the theorems at their data.
use openshift_online_rosa_e.Base.{
  ok, ◌<>◌, String, ◌≡◌, refl, Bool, true, false, List, [], ◌∷◌, All,
}
use openshift_online_rosa_e.Reporting.Sippy.{
  SignalResult, JunitTestSuite, JunitTestSuites, junit_suites,
}
use openshift_online_rosa_e.Reporting.Hook.{generate_sippy_signals}
use openshift_online_rosa_e.Reporting.Hook.Written.{IsFailed, generate_sippy_signals-IsFailed}
use openshift_online_rosa_e.Reporting.Sippy.Counts.{all_verdicts, Counted, junit_suites-Counted}
use openshift_online_rosa_e.Reporting.Signals.{
  NodeType, before_suite, it, SpecState, skipped, other_state, SpecReport, note_spec,
  analyze_suite_report,
}
use openshift_online_rosa_e.Reporting.Signals.Verdict.{Signals, analyze_suite_report-Signals}

abbrev spec : NodeType → SpecState → Bool → List String → String → SpecReport
spec node state failed labels text = record {
  leaf_node_type = node;
  state = state;
  failed = failed;
  labels = labels;
  full_text = text;
  failure_message = "boom";
}

abbrev specs : List SpecReport
specs =
    spec before_suite other_state false [] "setup"
    ∷ spec it other_state false ("Area:Upgrade" ∷ []) "upgrades"
    ∷ spec it other_state true ("Platform:HCP" ∷ "Area:ManagedService" ∷ []) "operators"
    ∷ spec it skipped false ("Area:ClusterLifecycle" ∷ []) "creates"
    ∷ []

abbrev down : List SpecReport
down = spec before_suite other_state true [] "setup" ∷ specs

result : SignalResult
unfolding analyze_suite_report note_spec
result = analyze_suite_report specs

result_is : result ≡ record {
  install_passed = true;
  infrastructure_passed = false;
  upgrade_ran = true;
  upgrade_passed = true;
  install_failure_msg = "";
  infra_failure_msg = "operators: boom";
  upgrade_failure_msg = "";
}
unfolding result
result_is = refl

analyze_suite_report-Signals_example : Signals (analyze_suite_report specs) true false true
analyze_suite_report-Signals_example = analyze_suite_report-Signals specs refl

generate_sippy_signals-IsFailed_example :
    ((generate_sippy_signals ◌<>◌
        (λ suites. ok "<testsuites/>")
        (λ path text w. (ok tt, path))
        ""
        down
        "").1
      ≡ "/tmpjunit-rosa-e2e-sippy.xml")
    × All IsFailed (all_verdicts (junit_suites (analyze_suite_report down)).suites)
generate_sippy_signals-IsFailed_example =
    generate_sippy_signals-IsFailed ◌<>◌ (λ suites. ok "<testsuites/>")
      (λ path text w. (ok tt, path)) "" down "<testsuites/>" "" refl refl

junit_suites-Counted_example :
    let suites : JunitTestSuites = junit_suites result in
    All
      (λ (suite : JunitTestSuite).
        Counted suite × (suite.tests ≡ suites.tests) × (suite.failures ≡ suites.failures))
      suites.suites
junit_suites-Counted_example = junit_suites-Counted result
