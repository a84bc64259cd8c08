-- ===== src/Reporting/Hook.antt =====
-- test/e2e/sippy_signals.go: the hook that writes the signals after the suite. The joining of paths, the
-- marshaller and the file system are parameters.
pub mod Written
use openshift_online_rosa_e.Base.{String, ◌==◌, List, if◌then◌else◌, Result, ok, err}
use openshift_online_rosa_e.Reporting.Sippy.{JunitTestSuites, write_sippy_junit}
use openshift_online_rosa_e.Reporting.Signals.{SpecReport, analyze_suite_report}

-- What the hook prints
pub data Note : Type 0 where
  signals_written : String → Note
  writing_failed : String → Note

abbrev pub output_dir : String → String
output_dir artifact_dir = if artifact_dir == "" then "/tmp" else artifact_dir

abbrev pub note_of : {World : Type 0} → String → Result String (Unit {0}) × World → Note × World
note_of path (ok tt, w) = (signals_written path, w)
note_of path (err e, w) = (writing_failed e, w)

module _ {World : Type 0} (join_path : String → String → String)
    (marshal_indent : JunitTestSuites → Result String String)
    (write_file : String → String → World → Result String (Unit {0}) × World) where
  -- The function of `ReportAfterSuite`, over the value of ARTIFACT_DIR: a failure is only printed.
  unfoldable pub generate_sippy_signals : String → List SpecReport → World → Note × World
  unfolding analyze_suite_report
  generate_sippy_signals artifact_dir report w =
      let output_path = join_path (output_dir artifact_dir) "junit-rosa-e2e-sippy.xml" in
      note_of output_path
        (write_sippy_junit marshal_indent write_file (analyze_suite_report report) output_path w)
