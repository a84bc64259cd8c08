-- ===== src/Verifiers/Tags/Laws.antt =====
-- When the check of pkg/verifiers/tags.go passes, whatever order the ranges take.
use mathlib.Core.List.{Permᴰ}
use openshift_online_rosa_e.Base.{
  String, ◌≡◌, ◌≢◌, refl, sym, ◌↔◌, List, [], ◌∷◌, map, eq_iff, Result, ok, err, Option, none, some,
  All, All-Permᴰ_iff, OkAnd, report_iff, collect, collect-eq-nil, append-eq-nil_iff, Dict, lookup,
  lookup-insert_all, last_or, string_key, arith,
}
use openshift_online_rosa_e.Verifiers.Conditions.{ApiError}
use openshift_online_rosa_e.Verifiers.Tags.{
  Tag, Volume, tag_pair, volume_tags, judge_tag, tag_issue, missing_tags, verify_ebs_volumes_tags,
  tag_validation_failed,
}

-- The last of a volume's tags with a key, if there is one, has this value.
abbrev pub HasTag : List Tag → String × String → Type 0
HasTag tags (key, value) = last_or none key (map tag_pair tags) ≡ some value

-- A volume with all the expected tags
abbrev pub IsTagged : Dict String String → Volume → Type 0
IsTagged expected volume = All (HasTag volume.tags) expected

judge_tag-eq-none :
    (volume_id key expected : String) (found : Option String)
    → (judge_tag volume_id key expected found ≡ none) ↔ (found ≡ some expected)
judge_tag-eq-none volume_id key expected none = (λ h. cc, λ h. cc)
judge_tag-eq-none volume_id key expected (some actual) = ground (arith, eq_iff actual expected)

tag_issue-eq-none :
    (volume_id : String) (tags : List Tag) (pair : String × String)
    → (tag_issue volume_id (volume_tags tags) pair ≡ none) ↔ HasTag tags pair
unfolding volume_tags lookup
tag_issue-eq-none volume_id tags (key, value) =
    rw (sym (lookup-insert_all key (map tag_pair tags) []))
      (judge_tag-eq-none volume_id key value (lookup key (volume_tags tags)))

missing_tags-eq-nil :
    (visits : String → Dict String String) (expected : Dict String String)
    → ((volume_id : String) → Permᴰ (visits volume_id) expected)
    → (volumes : List Volume) → (missing_tags visits volumes ≡ []) ↔ All (IsTagged expected) volumes
unfolding missing_tags
missing_tags-eq-nil visits expected order [] = (λ _. tt, λ _. refl)
missing_tags-eq-nil visits expected order (volume ∷ volumes) =
    let apart =
      append-eq-nil_iff
        (collect (tag_issue volume.volume_id (volume_tags volume.tags)) (visits volume.volume_id))
        (missing_tags visits volumes) in
    let visited =
      collect-eq-nil (tag_issue-eq-none volume.volume_id volume.tags) (visits volume.volume_id) in
    let ordered = All-Permᴰ_iff (HasTag volume.tags) (order volume.volume_id) in
    let rest = missing_tags-eq-nil visits expected order volumes in
    (
      λ h. let k = apart.0 h in (ordered.0 (visited.0 k.0), rest.0 k.1),
      λ h. apart.1 (visited.1 (ordered.1 h.0), rest.1 h.1),
    )

-- Where each range over the expected tags visits every one of them once, in whatever order, the check
-- passes exactly when the volumes were described, there is one, and each has all the expected tags, the
-- last of its tags with a key counting.
pub verify_ebs_volumes_tags_iff :
    (visits : String → Dict String String) (expected : Dict String String)
    → ((volume_id : String) → Permᴰ (visits volume_id) expected)
    → (cluster_id : String) (answer : Result ApiError (List Volume))
    → (verify_ebs_volumes_tags visits cluster_id answer ≡ ok tt)
      ↔ OkAnd (λ volumes. (volumes ≢ []) × All (IsTagged expected) volumes) answer
unfolding verify_ebs_volumes_tags
verify_ebs_volumes_tags_iff visits expected order cluster_id (err e) = (λ h. cc, λ h. absurd h)
verify_ebs_volumes_tags_iff visits expected order cluster_id (ok []) =
    (λ h. cc, λ h. absurd (h.0 refl))
verify_ebs_volumes_tags_iff visits expected order cluster_id (ok (volume ∷ volumes)) =
    let none_missing = missing_tags-eq-nil visits expected order (volume ∷ volumes) in
    let reported = report_iff tag_validation_failed (missing_tags visits (volume ∷ volumes)) in
    (λ h. (λ k. cc, none_missing.0 (reported.0 h)), λ h. reported.1 (none_missing.1 h.1))
