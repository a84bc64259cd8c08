-- ===== src/Reporting/Signals/Verdict.antt =====
-- What the signals say of the specs of a report.
use openshift_online_rosa_e.Base.{
  ◌≡◌, refl, Bool, true, false, not, ◌&&◌, ◌||◌, List, [], ◌∷◌, any, arith, ||-false, ||_assoc,
  ||-eq-false,
}
use openshift_online_rosa_e.Reporting.Sippy.{SignalResult}
use openshift_online_rosa_e.Reporting.Signals.{
  SpecReport, Analysis, has_label, is_it, is_not_run, note_spec, finish, analyze_specs, initial,
  analyze_suite_report, failed_before_suite,
}

abbrev pub ran : SpecReport → Bool
ran spec = is_it spec.leaf_node_type && not (is_not_run spec.state)

abbrev pub is_upgrade : SpecReport → Bool
is_upgrade spec = ran spec && has_label "Area:Upgrade" spec

abbrev pub is_infrastructure : SpecReport → Bool
is_infrastructure spec =
    ran spec && (has_label "Area:ManagedService" spec || has_label "Area:ClusterLifecycle" spec)

-- The loop's variables agree with what has been seen of the specs.
pub record Sees (a : Analysis) (upgrade_seen upgrade_failed infra_seen infra_failed : Bool)
    : Type 0 where
  pub installed : a.result.install_passed ≡ true
  pub infra : a.result.infrastructure_passed ≡ not infra_failed
  pub infra_ran : a.infra_specs_ran ≡ infra_seen
  pub infra_order : (infra_failed && not infra_seen) ≡ false
  pub upgrade : a.result.upgrade_ran ≡ upgrade_seen
  pub upgrade_bad : a.upgrade_any_failed ≡ upgrade_failed
  pub unpassed : a.result.upgrade_passed ≡ false

note_spec-Sees :
    (spec : SpecReport) (a : Analysis) (u f i g : Bool)
    → Sees a u f i g
    → Sees
        (note_spec spec a)
        (u || is_upgrade spec)
        (f || (is_upgrade spec && spec.failed))
        (i || is_infrastructure spec)
        (g || (is_infrastructure spec && spec.failed))
unfolding note_spec
note_spec-Sees spec a u f i g h = ground arith

abbrev pub upgrade_failed : SpecReport → Bool
upgrade_failed spec = is_upgrade spec && spec.failed

abbrev pub infra_failed : SpecReport → Bool
infra_failed spec = is_infrastructure spec && spec.failed

-- The signals of a report whose BeforeSuite did not fail
abbrev pub Signals : SignalResult → Bool → Bool → Bool → Type 0
Signals r u f g =
    (r.install_passed ≡ true)
    × (r.infrastructure_passed ≡ not g)
    × (r.upgrade_ran ≡ u)
    × (r.upgrade_passed ≡ (u && not f))

finish-Signals : (a : Analysis) (u f i g : Bool) → Sees a u f i g → Signals (finish a) u f g
unfolding finish
finish-Signals a u f i g h = ground arith

analyze_specs-Signals :
    (specs : List SpecReport) (a : Analysis) (u f i g : Bool)
    → Sees a u f i g
    → any failed_before_suite specs ≡ false
    → Signals
        (analyze_specs a specs)
        (u || any is_upgrade specs)
        (f || any upgrade_failed specs)
        (g || any infra_failed specs)
unfolding analyze_specs
analyze_specs-Signals [] a u f i g h none_failed = simp ||-false (finish-Signals a u f i g h)
analyze_specs-Signals (spec ∷ specs) a u f i g h none_failed =
    let (goes_on, rest) = ||-eq-false (failed_before_suite spec) _ none_failed in
    rw goes_on (
      simp ||_assoc (
        analyze_specs-Signals specs (note_spec spec a) _ _ _ _ (note_spec-Sees spec a u f i g h)
          rest))

-- Where no BeforeSuite failed: the installation passed, the infrastructure passed unless a spec on it
-- failed, an upgrade ran if a spec on it was run, and it passed if none of those failed.
pub analyze_suite_report-Signals :
    (specs : List SpecReport)
    → any failed_before_suite specs ≡ false
    → Signals
        (analyze_suite_report specs)
        (any is_upgrade specs)
        (any upgrade_failed specs)
        (any infra_failed specs)
unfolding analyze_suite_report
analyze_suite_report-Signals specs =
    analyze_specs-Signals specs initial false false false false start
  where
    start : Sees initial false false false false
    start = ground arith

note_spec_unpassed :
    (spec : SpecReport) (a : Analysis)
    → a.result.upgrade_passed ≡ false
    → (note_spec spec a).result.upgrade_passed ≡ false
unfolding note_spec
note_spec_unpassed spec a h = ground arith

analyze_specs_unreachable :
    (specs : List SpecReport) (a : Analysis)
    → a.result.upgrade_passed ≡ false
    → any failed_before_suite specs ≡ true
    → ((analyze_specs a specs).install_passed ≡ false)
      × ((analyze_specs a specs).infrastructure_passed ≡ false)
      × ((analyze_specs a specs).upgrade_passed ≡ false)
unfolding analyze_specs
analyze_specs_unreachable [] a h some_failed = cc
analyze_specs_unreachable (spec ∷ specs) a h some_failed =
    ground (arith, analyze_specs_unreachable specs (note_spec spec a) (note_spec_unpassed spec a h))

-- A failed BeforeSuite, wherever it stands among the specs, fails all three signals.
pub analyze_suite_report_unreachable :
    (specs : List SpecReport)
    → any failed_before_suite specs ≡ true
    → ((analyze_suite_report specs).install_passed ≡ false)
      × ((analyze_suite_report specs).infrastructure_passed ≡ false)
      × ((analyze_suite_report specs).upgrade_passed ≡ false)
unfolding analyze_suite_report
analyze_suite_report_unreachable specs = analyze_specs_unreachable specs initial refl
