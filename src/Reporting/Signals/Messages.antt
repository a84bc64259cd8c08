-- ===== src/Reporting/Signals/Messages.antt =====
-- Which failure a signal's message tells.
use text.Mathlib.TextLemmas.{append-eq-nil_iff}
use openshift_online_rosa_e.Base.{
  String, ◌≡◌, Bool, false, List, [], ◌∷◌, any, arith, ◌==◌, if◌then◌else◌, Bool-cases, inl, inr,
  eq_iff, ||-eq-false,
}
use openshift_online_rosa_e.Reporting.Signals.{
  SpecReport, Analysis, note_spec, analyze_specs, initial, analyze_suite_report,
  failed_before_suite, spec_message, first_message,
}
use openshift_online_rosa_e.Reporting.Signals.Verdict.{upgrade_failed, infra_failed}

-- The message of the first spec that passes a test, and no text if there is none.
pub first_of : (SpecReport → Bool) → List SpecReport → String
first_of p [] = ""
first_of p (spec ∷ specs) = if p spec then spec_message spec else first_of p specs

spec_message_ne : (spec : SpecReport) → (spec_message spec == "") ≡ false
spec_message_ne spec = elim (Bool-cases (spec_message spec == "")) [
  | inr differs ↦ differs
  | inl same ↦
      let colon = (append-eq-nil_iff.0 ((eq_iff (spec_message spec) "").0 same)).1 in
      cc ((eq_iff ": " "").1 (append-eq-nil_iff.0 colon).0)
]

note_spec_infra :
    (spec : SpecReport) (a : Analysis)
    → (note_spec spec a).result.infra_failure_msg ≡ (
        if infra_failed spec
        then first_message a.result.infra_failure_msg (spec_message spec)
        else a.result.infra_failure_msg)
unfolding note_spec
note_spec_infra spec a = ground arith

note_spec_upgrade :
    (spec : SpecReport) (a : Analysis)
    → (note_spec spec a).result.upgrade_failure_msg ≡ (
        if upgrade_failed spec
        then first_message a.result.upgrade_failure_msg (spec_message spec)
        else a.result.upgrade_failure_msg)
unfolding note_spec
note_spec_upgrade spec a = ground arith

-- A message that is not empty stays, whatever comes behind it.
first_message_again :
    (old new rest : String) (p : Bool)
    → (new == "") ≡ false
    → first_message (if p then first_message old new else old) rest
      ≡ first_message old (if p then new else rest)
first_message_again old new rest p h = ground arith

analyze_specs_messages :
    (specs : List SpecReport) (a : Analysis)
    → any failed_before_suite specs ≡ false
    → ((analyze_specs a specs).infra_failure_msg
        ≡ first_message a.result.infra_failure_msg (first_of infra_failed specs))
      × ((analyze_specs a specs).upgrade_failure_msg
          ≡ first_message a.result.upgrade_failure_msg (first_of upgrade_failed specs))
unfolding analyze_specs first_of
analyze_specs_messages [] a h =
    ground (arith, eq_iff a.result.infra_failure_msg "", eq_iff a.result.upgrade_failure_msg "")
analyze_specs_messages (spec ∷ specs) a h =
    let (goes_on, rest) = ||-eq-false (failed_before_suite spec) _ h in
    let (infra, upgrade) = analyze_specs_messages specs (note_spec spec a) rest in
    let fresh = spec_message_ne spec in
    rw goes_on (
      rw (infra, note_spec_infra spec a)
          (first_message_again a.result.infra_failure_msg (spec_message spec) _ (infra_failed spec)
            fresh),
      rw (upgrade, note_spec_upgrade spec a)
          (first_message_again a.result.upgrade_failure_msg (spec_message spec) _
            (upgrade_failed spec) fresh),
    )

-- Where no BeforeSuite failed, the two messages are those of the first failures of their kind.
pub analyze_suite_report_messages :
    (specs : List SpecReport)
    → any failed_before_suite specs ≡ false
    → ((analyze_suite_report specs).infra_failure_msg ≡ first_of infra_failed specs)
      × ((analyze_suite_report specs).upgrade_failure_msg ≡ first_of upgrade_failed specs)
unfolding analyze_suite_report
analyze_suite_report_messages specs = analyze_specs_messages specs initial
