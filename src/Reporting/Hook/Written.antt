-- ===== src/Reporting/Hook/Written.antt =====
-- What the hook of test/e2e/sippy_signals.go writes where the cluster was unreachable.
use openshift_online_rosa_e.Base.{
  String, ◌<>◌, ◌≡◌, refl, ap, ◌∙◌, Bool, true, false, any, List, [], ◌∷◌, All, Result, ok, err,
  if◌then◌else◌,
}
use openshift_online_rosa_e.Reporting.Sippy.{
  SignalResult, JunitTestSuites, junit_suites, write_sippy_junit, write_marshalled, xml_header,
  upgrade_test_name,
}
use openshift_online_rosa_e.Reporting.Sippy.Counts.{all_verdicts, junit_suites_verdicts}
use openshift_online_rosa_e.Reporting.Signals.{
  SpecReport, failed_before_suite, analyze_suite_report,
}
use openshift_online_rosa_e.Reporting.Signals.Verdict.{analyze_suite_report_unreachable}
use openshift_online_rosa_e.Reporting.Hook.{output_dir, note_of, generate_sippy_signals}

-- The test with this name and verdict has failed.
abbrev pub IsFailed : String × Bool → Type 0
IsFailed (name, passed) = passed ≡ false

all_verdicts-IsFailed :
    (result : SignalResult)
    → result.install_passed ≡ false
    → result.infrastructure_passed ≡ false
    → result.upgrade_passed ≡ false
    → All IsFailed (all_verdicts (junit_suites result).suites)
all_verdicts-IsFailed result install infrastructure upgrade =
    rw (junit_suites_verdicts result) ((install, (infrastructure, last result.upgrade_ran)))
  where
    last :
        (ran : Bool)
        → All IsFailed (if ran then (upgrade_test_name, result.upgrade_passed) ∷ [] else [])
    last true = (upgrade, tt)
    last false = tt

module _ {World : Type 0} (join_path : String → String → String)
    (marshal_indent : JunitTestSuites → Result String String)
    (write_file : String → String → World → Result String (Unit {0}) × World) where
  note_of-state :
      (path : String) (answer : Result String (Unit {0}) × World)
      → (note_of path answer).1 ≡ answer.1
  note_of-state path (ok tt, w) = refl
  note_of-state path (err e, w) = refl

  -- Where a BeforeSuite failed and the document is marshalled, the hook writes it, behind the XML header,
  -- to the file in ARTIFACT_DIR, or in /tmp where that is empty, and every test of the document has failed.
  pub generate_sippy_signals-IsFailed :
      (artifact_dir : String) (report : List SpecReport) (xml : String) (w : World)
      → any failed_before_suite report ≡ true
      → marshal_indent (junit_suites (analyze_suite_report report)) ≡ ok xml
      → ((generate_sippy_signals join_path marshal_indent write_file artifact_dir report w).1
          ≡ (write_file
              (join_path (output_dir artifact_dir) "junit-rosa-e2e-sippy.xml")
              (xml_header <> xml)
              w).1)
        × All IsFailed (all_verdicts (junit_suites (analyze_suite_report report)).suites)
  unfolding generate_sippy_signals write_sippy_junit
  generate_sippy_signals-IsFailed artifact_dir report xml w down marshalled =
      let path = join_path (output_dir artifact_dir) "junit-rosa-e2e-sippy.xml" in
      let failed = analyze_suite_report_unreachable report down in
      (
        ap (λ r. (note_of path (write_marshalled marshal_indent write_file path r w)).1) marshalled
            ∙ note_of-state path (write_file path (xml_header <> xml) w),
        all_verdicts-IsFailed (analyze_suite_report report) failed.0 failed.1 failed.2,
      )
