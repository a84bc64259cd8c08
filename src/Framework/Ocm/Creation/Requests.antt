-- ===== src/Framework/Ocm/Creation/Requests.antt =====
-- pkg/framework/ocm.go: the version and the request of a cluster with hosted control planes, field by field.
use openshift_online_rosa_e.Base.{
  String, ◌<>◌, ◌≡◌, ◌≢◌, refl, sym, ◌⊎◌, inl, inr, true, false, List, [], ◌∷◌, ◌==◌, eq_iff,
  Result, ok, err, Option, none, some, Bool-cases, ok-injective,
}
use openshift_online_rosa_e.Base.Text.Equality.{==-eq-false_ne}
use openshift_online_rosa_e.Config.{Config}
use openshift_online_rosa_e.Framework.Ocm.{
  ApiError, first_version, resolve_version_for_topology, version_query, generate_cluster_name,
}
use openshift_online_rosa_e.Framework.Ocm.Creation.{
  ClusterRequest, Creating, Clusters, given, shard_property, hcp_request, new_name,
}

-- The version that is set, behind its prefix, or else the first one that is listed
abbrev pub ResolvedHcpVersion : (String → Result ApiError (List String)) → Config → String → Type 0
ResolvedHcpVersion list_versions cfg version_id =
    ((cfg.open_shift_version ≢ "") × (version_id ≡ "openshift-v" <> cfg.open_shift_version))
    ⊎ ((cfg.open_shift_version ≡ "")
        × (rest : List String) × (list_versions (
              (("channel_group = '" <> cfg.channel_group) <> "' AND enabled = 'true'")
              <> " AND rosa_enabled = 'true' AND hosted_control_plane_enabled = 'true'")
            ≡ ok (version_id ∷ rest)))

first_version-ok :
    (topology channel_group version_id : String) (answer : Result ApiError (List String))
    → first_version topology channel_group answer ≡ ok version_id
    → (rest : List String) × (answer ≡ ok (version_id ∷ rest))
first_version-ok topology channel_group version_id (err e) h = cc
first_version-ok topology channel_group version_id (ok []) h = cc
first_version-ok topology channel_group version_id (ok (v ∷ rest)) h =
    (rest, rw (ok-injective v version_id h) refl)

pub resolve_version_for_topology-ResolvedHcpVersion :
    (list_versions : String → Result ApiError (List String)) (cfg : Config) (version_id : String)
    → resolve_version_for_topology list_versions cfg "hcp" ≡ ok version_id
    → ResolvedHcpVersion list_versions cfg version_id
unfolding resolve_version_for_topology version_query
resolve_version_for_topology-ResolvedHcpVersion list_versions cfg version_id h =
    elim (Bool-cases (cfg.open_shift_version == "")) [
      | inr set ↦ inl (
        ==-eq-false_ne cfg.open_shift_version "" set,
        sym (ok-injective ("openshift-v" <> cfg.open_shift_version) version_id (rw set at h)),
      )
      | inl unset ↦
          let (rest, listed) =
            first_version-ok "hcp" cfg.channel_group version_id _ (rw unset at h) in
          inr ((eq_iff cfg.open_shift_version "").0 unset, rest, listed)
    ]

-- A text that is given, where there is one
abbrev pub IsGiven : String → Option String → Type 0
IsGiven s found = ((s ≢ "") × (found ≡ some s)) ⊎ ((s ≡ "") × (found ≡ none))

-- The creator, and the shard, where there is one
abbrev pub AreProperties : String → String → List (String × String) → Type 0
AreProperties creator shard properties =
    ((shard ≢ "")
      × (properties ≡ ("rosa_creator_arn", creator) ∷ ("provision_shard_id", shard) ∷ []))
    ⊎ ((shard ≡ "") × (properties ≡ ("rosa_creator_arn", creator) ∷ []))

given-IsGiven : (s : String) → IsGiven s (given s)
given-IsGiven s = elim (Bool-cases (s == "")) [
  | inl empty ↦ inr ((eq_iff s "").0 empty, rw empty refl)
  | inr named ↦ inl (==-eq-false_ne s "" named, rw named refl)
]

shard_property-AreProperties :
    (creator shard : String)
    → AreProperties creator shard (("rosa_creator_arn", creator) ∷ shard_property shard)
shard_property-AreProperties creator shard = elim (Bool-cases (shard == "")) [
  | inl empty ↦ inr ((eq_iff shard "").0 empty, rw empty refl)
  | inr named ↦ inl (==-eq-false_ne shard "" named, rw named refl)
]

-- What the builders are told for a cluster of this name and version, on this shard
pub record IsHcpRequest (cfg : Config) (name version_id shard : String) (request : ClusterRequest)
    : Type 0 where
  pub has_name : request.name ≡ name
  pub is_rosa : request.product ≡ "rosa"
  pub on_aws : request.cloud_provider ≡ "aws"
  pub has_region : request.region ≡ cfg.aws_region
  pub is_hosted : request.hypershift ≡ true
  pub in_one_zone : request.multi_az ≡ false
  pub is_customers : request.ccs ≡ true
  pub has_installer :
      request.role_arn
      ≡ "arn:aws:iam::" <> cfg.aws_account_id <> ":role/" <> cfg.account_role_prefix
        <> "-Installer-Role"
  pub has_support :
      request.support_role_arn
      ≡ "arn:aws:iam::" <> cfg.aws_account_id <> ":role/" <> cfg.account_role_prefix
        <> "-Support-Role"
  pub has_operators : request.operator_role_prefix ≡ cfg.operator_role_prefix
  pub has_oidc_config : request.oidc_config_id ≡ some cfg.oidc_config_id
  pub has_subnets : request.subnet_ids ≡ cfg.subnet_ids
  pub has_billing : IsGiven cfg.billing_account_id request.billing_account_id
  pub has_machine_type : request.compute_machine_type ≡ cfg.compute_machine_type
  pub has_nodes : request.compute ≡ cfg.compute_nodes
  pub has_version : request.version_id ≡ version_id
  pub has_channel_group : request.channel_group ≡ cfg.channel_group
  pub has_properties : AreProperties cfg.creator_arn shard request.properties

pub hcp_request-IsHcpRequest :
    (cfg : Config) (shard name version_id : String)
    → IsHcpRequest cfg name version_id shard
        (hcp_request (record cfg { provision_shard_id = shard }) name version_id)
unfolding hcp_request
hcp_request-IsHcpRequest cfg shard name version_id = record {
  has_name = refl;
  is_rosa = refl;
  on_aws = refl;
  has_region = refl;
  is_hosted = refl;
  in_one_zone = refl;
  is_customers = refl;
  has_installer = refl;
  has_support = refl;
  has_operators = refl;
  has_oidc_config = refl;
  has_subnets = refl;
  has_billing = given-IsGiven cfg.billing_account_id;
  has_machine_type = refl;
  has_nodes = refl;
  has_version = refl;
  has_channel_group = refl;
  has_properties = shard_property-AreProperties cfg.creator_arn shard;
}

module _ {World : Type 0} (clusters : Clusters World) where
  -- The prefix, the topology, the date and the random suffix, with dashes between them
  abbrev pub hcp_name : Creating World → String
  hcp_name s =
      ((((s.cfg.cluster_name_prefix <> "-") <> "hcp") <> "-") <> clusters.date s.world)
      <> ("-" <> clusters.suffix s.world)

  pub new_name-eq-hcp_name : (s : Creating World) → new_name clusters "hcp" s ≡ hcp_name s
  unfolding generate_cluster_name
  new_name-eq-hcp_name s = refl
