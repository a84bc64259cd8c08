-- ===== src/Reporting/Sippy/Counts.antt =====
-- The counts that the JUnit suites state.
use openshift_online_rosa_e.Base.{
  String, ◌≡◌, Bool, true, false, not, none, some, List, [], ◌∷◌, ◌++◌, length, select, arith,
  if◌then◌else◌, All,
}
use openshift_online_rosa_e.Reporting.Sippy.{
  SignalResult, JunitTestCase, JunitTestSuite, JunitTestSuites, junit_suites, install_test_name,
  infrastructure_test_name, upgrade_test_name,
}

-- A case that counts as failed: it has a failure, and its status says so.
abbrev pub has_failure : JunitTestCase → Bool
has_failure tc = elim tc.failure [ none ↦ false | some _ ↦ true ]

abbrev pub IsConsistent : JunitTestCase → Type 0
IsConsistent tc = tc.status ≡ (if has_failure tc then "failed" else "passed")

-- What a suite states of itself is what its cases show.
pub record Counted (suite : JunitTestSuite) : Type 0 where
  pub tests_counted : suite.tests ≡ length suite.cases
  pub failures_counted : suite.failures ≡ length (select has_failure suite.cases)
  pub statuses : All IsConsistent suite.cases

-- The totals are those of the suite, and the suite's are those of its cases.
pub junit_suites-Counted :
    (result : SignalResult)
    → let suites : JunitTestSuites = junit_suites result in
      All
        (λ (suite : JunitTestSuite).
          Counted suite × (suite.tests ≡ suites.tests) × (suite.failures ≡ suites.failures))
        suites.suites
unfolding junit_suites
junit_suites-Counted result = ground arith

-- The names of the tests in a result, in their order, and which of them have a failure.
abbrev pub Verdicts : Type 0
Verdicts = List (String × Bool)

abbrev pub verdicts : List JunitTestCase → Verdicts
verdicts [] = []
verdicts (tc ∷ cases) = (tc.name, not (has_failure tc)) ∷ verdicts cases

abbrev pub all_verdicts : List JunitTestSuite → Verdicts
all_verdicts [] = []
all_verdicts (suite ∷ suites) = verdicts suite.cases ++ all_verdicts suites

-- The file has the install and infrastructure tests with the result's verdicts, and the upgrade test
-- exactly when an upgrade ran.
pub junit_suites_verdicts :
    (result : SignalResult)
    → all_verdicts (junit_suites result).suites
      ≡ (install_test_name, result.install_passed)
        ∷ (infrastructure_test_name, result.infrastructure_passed)
        ∷ (if result.upgrade_ran then (upgrade_test_name, result.upgrade_passed) ∷ [] else [])
unfolding junit_suites
junit_suites_verdicts result = ground arith
