-- ===== src/Verifiers/MapTests.antt =====
-- Runs of pkg/verifiers/tags.go and revision.go, and the theorems at their data.
use mathlib.Core.List.{Permᴰ}
use mathlib.Core.List.Permᴰ
use openshift_online_rosa_e.Base.{
  ℕ, ◌+◌, String, ◌≡◌, ◌≢◌, refl, ◌↔◌, List, [], ◌∷◌, All, OkAnd, Result, ok, err, none, Dict,
  insert_all, insert, lookup, collect, eqb, if◌then◌else◌,
}
use openshift_online_rosa_e.Verifiers.Conditions.{ApiError}
use openshift_online_rosa_e.Verifiers.Tags.{
  Volume, verify_ebs_volumes_tags, volume_tags, missing_tags, tag_validation_failed, missing_tag,
  wrong_value,
}
use openshift_online_rosa_e.Verifiers.Tags.Laws.{IsTagged, verify_ebs_volumes_tags_iff}
use openshift_online_rosa_e.Verifiers.Revision.{
  Deployed, Revisions, Observed, revisions_of, changed, watch, verify_deployment_revisions_stable,
  unexpected_changes,
}
use openshift_online_rosa_e.Verifiers.Revision.Stable.{
  StaysAfter, verify_deployment_revisions_stable_iff,
}

-- Two expected tags, which the range over them visits in the other order

abbrev expected : Dict String String
expected = ("team", "rosa") ∷ ("env", "ci") ∷ []

abbrev visited : String → Dict String String
visited volume_id = ("env", "ci") ∷ ("team", "rosa") ∷ []

visited_order : (volume_id : String) → Permᴰ (visited volume_id) expected
visited_order volume_id = Permᴰ.swap refl refl

abbrev volume : Volume
volume = record {
  volume_id = "vol-1";
  tags = record { key = "env"; value = "dev" } ∷ record { key = "env"; value = "prod" } ∷ [];
}

issues_are_reported :
    verify_ebs_volumes_tags visited "id" (ok (volume ∷ []))
    ≡ err (
        tag_validation_failed
          (wrong_value "vol-1" "env" "prod" "ci" ∷ missing_tag "vol-1" "team" ∷ []))
unfolding verify_ebs_volumes_tags missing_tags volume_tags insert_all insert lookup collect
issues_are_reported = refl

abbrev tagged : Volume
tagged = record {
  volume_id = "vol-2";
  tags =
      record { key = "env"; value = "dev" }
      ∷ record { key = "team"; value = "rosa" }
      ∷ record { key = "env"; value = "ci" }
      ∷ [];
}

abbrev one_answer : Result ApiError (List Volume)
one_answer = ok (tagged ∷ [])

verify_ebs_volumes_tags_iff_example :
    (verify_ebs_volumes_tags visited "id" one_answer ≡ ok tt)
    ↔ OkAnd (λ volumes. (volumes ≢ []) × All (IsTagged expected) volumes) one_answer
verify_ebs_volumes_tags_iff_example =
    verify_ebs_volumes_tags_iff visited expected visited_order "id" one_answer

-- A deployment that is rolled out again while it is observed; the world is the time.

abbrev deployed : String → Deployed
deployed revision = record { namespace = "ocm"; name = "api"; revision = revision }

abbrev rolling : Observed ℕ
rolling = record {
  list_deployments = λ w. (ok (deployed (if eqb w 0 then "1" else "2") ∷ []), w);
  sleep = λ duration w. (none, w + duration);
}

as_it_is : (entries : Revisions) → Permᴰ entries entries
as_it_is entries = Permᴰ.refl entries

a_change_is_reported :
    (verify_deployment_revisions_stable rolling (λ entries. entries) 60 0).0
    ≡ err (unexpected_changes ((record { namespace = "ocm"; name = "api" }, ("1", "2")) ∷ []))
unfolding verify_deployment_revisions_stable watch revisions_of changed insert_all insert lookup
    collect
a_change_is_reported = refl

verify_deployment_revisions_stable_iff_example :
    ((verify_deployment_revisions_stable rolling (λ entries. entries) 0 0).0 ≡ ok tt)
    ↔ StaysAfter rolling (λ entries. entries) 0 (rolling.list_deployments 0)
verify_deployment_revisions_stable_iff_example =
    verify_deployment_revisions_stable_iff rolling (λ entries. entries) as_it_is 0 0
