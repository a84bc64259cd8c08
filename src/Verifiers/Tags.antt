-- ===== src/Verifiers/Tags.antt =====
-- pkg/verifiers/tags.go. The order in which a range visits a map is a parameter.
pub mod Laws
use openshift_online_rosa_e.Base.{
  String, ◌<>◌, List, [], ◌∷◌, ◌++◌, map, ◌==◌, not, Result, ok, err, Option, none, some,
  if◌then◌else◌, report, collect, Dict, lookup, insert_all, string_key,
}
use openshift_online_rosa_e.Verifiers.Conditions.{ApiError}

pub record Tag : Type 0 where
  pub key : String
  pub value : String

-- EC2 gives each volume its ID, and each tag its key and value.
pub record Volume : Type 0 where
  pub volume_id : String
  pub tags : List Tag

pub data TagIssue : Type 0 where
  missing_tag : String → String → TagIssue
  wrong_value : String → String → String → String → TagIssue

pub data TagsError : Type 0 where
  describing_volumes : ApiError → TagsError
  no_volumes : String → TagsError
  tag_validation_failed : List TagIssue → TagsError

abbrev pub tag_pair : Tag → String × String
tag_pair tag = (tag.key, tag.value)

-- `volumeTags`
unfoldable pub volume_tags : List Tag → Dict String String
unfolding insert_all
volume_tags tags = insert_all (map tag_pair tags) []

abbrev pub judge_tag : String → String → String → Option String → Option TagIssue
judge_tag volume_id key expected none = some (missing_tag volume_id key)
judge_tag volume_id key expected (some actual) =
    if not (actual == expected) then some (wrong_value volume_id key actual expected) else none

-- The body of the inner loop
abbrev pub tag_issue : String → Dict String String → String × String → Option TagIssue
tag_issue volume_id tags (key, expected) = judge_tag volume_id key expected (lookup key tags)

-- The loops, over the order in which each volume's range visits the expected tags
unfoldable pub missing_tags : (String → Dict String String) → List Volume → List TagIssue
unfolding volume_tags
missing_tags visits [] = []
missing_tags visits (volume ∷ volumes) =
    collect (tag_issue volume.volume_id (volume_tags volume.tags)) (visits volume.volume_id)
    ++ missing_tags visits volumes

-- `VerifyEBSVolumesTags`, from the answer to the description of the cluster's volumes
unfoldable pub verify_ebs_volumes_tags :
    (String → Dict String String)
    → String
    → Result ApiError (List Volume)
    → Result TagsError (Unit {0})
unfolding missing_tags
verify_ebs_volumes_tags visits cluster_id (err e) = err (describing_volumes e)
verify_ebs_volumes_tags visits cluster_id (ok []) = err (no_volumes cluster_id)
verify_ebs_volumes_tags visits cluster_id (ok (volume ∷ volumes)) =
    report tag_validation_failed (missing_tags visits (volume ∷ volumes))

-- The filter on the volumes that are asked for: its name, and its values
unfoldable pub volume_filter : String → String × List String
volume_filter cluster_id = ("tag:kubernetes.io/cluster/" <> cluster_id, "owned" ∷ [])
