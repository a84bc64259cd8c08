-- ===== src/Reporting/Sippy.antt =====
-- pkg/reporting/sippy.go: the JUnit suites of a result, and the file that holds them.
pub mod Counts
use openshift_online_rosa_e.Base.{
  ℕ, ◌+◌, String, ◌<>◌, Bool, not, Option, none, some, List, [], ◌∷◌, ◌++◌, length, if◌then◌else◌,
  Result, ok, err,
}

abbrev pub install_test_name : String
install_test_name = "install should succeed: overall"

abbrev pub infrastructure_test_name : String
infrastructure_test_name = "install should succeed: infrastructure"

abbrev pub upgrade_test_name : String
upgrade_test_name = "[sig-sippy] upgrade should work"

abbrev pub suite_name : String
suite_name = "rosa-e2e-sippy-signals"

pub record SignalResult : Type 0 where
  pub install_passed : Bool
  pub infrastructure_passed : Bool
  pub upgrade_ran : Bool
  pub upgrade_passed : Bool
  pub install_failure_msg : String
  pub infra_failure_msg : String
  pub upgrade_failure_msg : String

pub record JunitFailure : Type 0 where
  pub message : String
  pub text : String

pub record JunitTestCase : Type 0 where
  pub name : String
  pub class_name : String
  pub status : String
  pub time : String
  pub failure : Option JunitFailure

pub record JunitTestSuite : Type 0 where
  pub name : String
  pub tests : ℕ
  pub failures : ℕ
  pub cases : List JunitTestCase

pub record JunitTestSuites : Type 0 where
  pub tests : ℕ
  pub failures : ℕ
  pub suites : List JunitTestSuite

unfoldable pub make_test_case : String → Bool → String → JunitTestCase
make_test_case name passed failure_msg =
    let tc : JunitTestCase = record {
      name = name;
      class_name = suite_name;
      status = "passed";
      time = "0";
      failure = none;
    } in
    if not passed
    then record tc {
      status = "failed";
      failure = some (record { message = failure_msg; text = failure_msg });
    }
    else tc

-- `if !passed { failures++ }`
abbrev pub count_failure : Bool → ℕ → ℕ
count_failure passed failures = if not passed then failures + 1 else failures

-- `cases` and `failures` after the two tests that always are there, and the one on the upgrade.
unfoldable pub test_cases : SignalResult → List JunitTestCase × ℕ
unfolding make_test_case
test_cases result =
    let install =
      make_test_case install_test_name result.install_passed result.install_failure_msg in
    let infrastructure =
      make_test_case infrastructure_test_name result.infrastructure_passed
        result.infra_failure_msg in
    let upgrade =
      make_test_case upgrade_test_name result.upgrade_passed result.upgrade_failure_msg in
    let failures =
      count_failure result.infrastructure_passed (count_failure result.install_passed 0) in
    let cases = (install ∷ []) ++ (infrastructure ∷ []) in
    if result.upgrade_ran
    then (cases ++ (upgrade ∷ []), count_failure result.upgrade_passed failures)
    else (cases, failures)

-- The value that is marshalled
unfoldable pub junit_suites : SignalResult → JunitTestSuites
unfolding test_cases
junit_suites result =
    let (cases, failures) = test_cases result in
    record {
      tests = length cases;
      failures = failures;
      suites =
          record { name = suite_name; tests = length cases; failures = failures; cases = cases }
          ∷ [];
    }

-- `xml.Header`
abbrev pub xml_header : String
xml_header = "<?xml version=\"1.0\" encoding=\"UTF-8\"?>\n"

-- The marshaller and the file system are parameters. An error is the one of the call that failed.
module _ {Error World : Type 0} (marshal_indent : JunitTestSuites → Result Error String)
    (write_file : String → String → World → Result Error (Unit {0}) × World) where
  abbrev pub write_marshalled :
      String → Result Error String → World → Result Error (Unit {0}) × World
  write_marshalled output_path (err e) w = (err e, w)
  write_marshalled output_path (ok xml) w = write_file output_path (xml_header <> xml) w

  -- `WriteSippyJUnit`
  unfoldable pub write_sippy_junit : SignalResult → String → World → Result Error (Unit {0}) × World
  unfolding junit_suites
  write_sippy_junit result output_path =
      write_marshalled output_path (marshal_indent (junit_suites result))
