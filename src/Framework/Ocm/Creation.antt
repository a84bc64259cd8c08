-- ===== src/Framework/Ocm/Creation.antt =====
-- pkg/framework/ocm.go: the requests that create clusters, the deletion, the credentials and the state.
-- The OCM SDK is a parameter.
pub mod Requests
pub mod Sent
use openshift_online_rosa_e.Base.{
  String, ◌<>◌, Bool, true, false, not, ◌&&◌, ◌==◌, List, [], ◌∷◌, if◌then◌else◌, Result, ok, err,
  wrap, Option, none, some,
}
use openshift_online_rosa_e.Base.Io.{Io, raise, within, ◌>>◌}
use openshift_online_rosa_e.Config.{Config}
use openshift_online_rosa_e.Config.Numbers.{ℤ}
use openshift_online_rosa_e.Framework.Ocm.{
  ApiError, OcmError, Fleet, generate_cluster_name, resolve_version_for_topology,
  resolve_provision_shard,
}

-- What the builders of a cluster are told
pub record ClusterRequest : Type 0 where
  pub name : String
  pub product : String
  pub cloud_provider : String
  pub region : String
  -- Whether `Hypershift(...)` was called, with true
  pub hypershift : Bool
  pub multi_az : Bool
  pub ccs : Bool
  pub role_arn : String
  pub support_role_arn : String
  pub operator_role_prefix : String
  pub oidc_config_id : Option String
  pub subnet_ids : List String
  pub billing_account_id : Option String
  pub compute_machine_type : String
  pub compute : ℤ
  pub version_id : String
  pub channel_group : String
  pub properties : List (String × String)

pub data CreationError : Type 0 where
  resolving_version : OcmError → CreationError
  resolving_shard : String → OcmError → CreationError
  building_cluster creating_cluster : ApiError → CreationError
  deleting_cluster getting_credentials parsing_kubeconfig getting_state :
      String → ApiError → CreationError
  no_kubeconfig : String → CreationError

-- The configuration, which the creation completes, and the outside
pub record Creating (World : Type 0) : Type 0 where
  pub cfg : Config
  pub world : World

pub record Clusters (World : Type 0) : Type 0 where
  -- The date and the random suffix of the next name
  pub date : World → String
  pub suffix : World → String
  -- The versions for a query
  pub list_versions : World → String → Result ApiError (List String)
  pub fleet : World → Fleet
  -- `Build`, which may refuse a request
  pub build : ClusterRequest → Option ApiError
  -- The ID of the created cluster
  pub add : ClusterRequest → World → Result ApiError String × World
  pub delete : String → World → Result ApiError (Unit {0}) × World
  -- The kubeconfig of a cluster, and its state
  pub get_credentials : World → String → Result ApiError String
  pub get_state : World → String → Result ApiError String
  -- `clientcmd.RESTConfigFromKubeConfig`
  pub rest_config : String → Result ApiError String

abbrev pub role_arn : Config → String → String
role_arn cfg role =
    "arn:aws:iam::" <> cfg.aws_account_id <> ":role/" <> cfg.account_role_prefix <> role

abbrev pub given : String → Option String
given s = if not (s == "") then some s else none

abbrev pub shard_property : String → List (String × String)
shard_property shard = if not (shard == "") then ("provision_shard_id", shard) ∷ [] else []

-- The request for a cluster with hosted control planes
unfoldable pub hcp_request : Config → String → String → ClusterRequest
hcp_request cfg name version_id = record {
  name = name;
  product = "rosa";
  cloud_provider = "aws";
  region = cfg.aws_region;
  hypershift = true;
  multi_az = false;
  ccs = true;
  role_arn = role_arn cfg "-Installer-Role";
  support_role_arn = role_arn cfg "-Support-Role";
  operator_role_prefix = cfg.operator_role_prefix;
  oidc_config_id = some cfg.oidc_config_id;
  subnet_ids = cfg.subnet_ids;
  billing_account_id = given cfg.billing_account_id;
  compute_machine_type = cfg.compute_machine_type;
  compute = cfg.compute_nodes;
  version_id = version_id;
  channel_group = cfg.channel_group;
  properties = ("rosa_creator_arn", cfg.creator_arn) ∷ shard_property cfg.provision_shard_id;
}

-- The request for a classic cluster
unfoldable pub classic_request : Config → String → String → ClusterRequest
classic_request cfg name version_id = record {
  name = name;
  product = "rosa";
  cloud_provider = "aws";
  region = cfg.aws_region;
  hypershift = false;
  multi_az = false;
  ccs = true;
  role_arn = role_arn cfg "-Installer-Role";
  support_role_arn = role_arn cfg "-Support-Role";
  operator_role_prefix = cfg.operator_role_prefix;
  oidc_config_id = none;
  subnet_ids = cfg.subnet_ids;
  billing_account_id = given cfg.billing_account_id;
  compute_machine_type = cfg.compute_machine_type;
  compute = cfg.compute_nodes;
  version_id = version_id;
  channel_group = cfg.channel_group;
  properties = ("rosa_creator_arn", cfg.creator_arn) ∷ [];
}

module _ {World : Type 0} (clusters : Clusters World) where
  abbrev pub new_name : String → Creating World → String
  new_name topology s =
      generate_cluster_name (clusters.date s.world) (clusters.suffix s.world)
        s.cfg.cluster_name_prefix topology

  abbrev pub version : String → Creating World → Result CreationError String
  version topology s =
      wrap resolving_version
        (resolve_version_for_topology (clusters.list_versions s.world) s.cfg topology)

  abbrev pub keep_shard : Result OcmError String → Io CreationError (Creating World) (Unit {0})
  keep_shard (err e) s = (err (resolving_shard s.cfg.sector_name e), s)
  keep_shard (ok shard) s =
      (ok tt, record s { cfg = record (s.cfg) { provision_shard_id = shard } })

  -- The shard of the sector, where none is set: it is kept in the configuration.
  unfoldable pub complete_shard : Io CreationError (Creating World) (Unit {0})
  unfolding resolve_provision_shard
  complete_shard s =
      if (s.cfg.provision_shard_id == "") && not (s.cfg.sector_name == "")
      then keep_shard
          (resolve_provision_shard (clusters.fleet s.world) s.cfg.sector_name s.cfg.aws_region) s
      else (ok tt, s)

  abbrev pub created :
      Creating World → Result ApiError String × World → Result CreationError String × Creating World
  created s (ok id, w) = (ok id, record s { world = w })
  created s (err e, w) = (err (creating_cluster e), record s { world = w })

  abbrev pub send : ClusterRequest → Option ApiError → Io CreationError (Creating World) String
  send request (some e) s = (err (building_cluster e), s)
  send request none s = created s (clusters.add request s.world)

  -- `Build` and the request
  abbrev pub add_cluster : ClusterRequest → Io CreationError (Creating World) String
  add_cluster request = send request (clusters.build request)

  abbrev pub add_hcp : String → String → Io CreationError (Creating World) String
  add_hcp name version_id s = add_cluster (hcp_request s.cfg name version_id) s

  abbrev pub hcp_of_version :
      String → Result CreationError String → Io CreationError (Creating World) String
  hcp_of_version name (err e) = raise e
  hcp_of_version name (ok version_id) = complete_shard >> add_hcp name version_id

  -- `CreateRosaHCPCluster`
  unfoldable pub create_rosa_hcp_cluster : Io CreationError (Creating World) String
  unfolding complete_shard hcp_request resolve_version_for_topology generate_cluster_name
  create_rosa_hcp_cluster s = hcp_of_version (new_name "hcp" s) (version "hcp" s) s

  abbrev pub classic_of_version :
      String → Result CreationError String → Io CreationError (Creating World) String
  classic_of_version name (err e) s = (err e, s)
  classic_of_version name (ok version_id) s = add_cluster (classic_request s.cfg name version_id) s

  -- `CreateRosaClassicCluster`
  unfoldable pub create_rosa_classic_cluster : Io CreationError (Creating World) String
  unfolding classic_request resolve_version_for_topology generate_cluster_name
  create_rosa_classic_cluster s = classic_of_version (new_name "classic" s) (version "classic" s) s

  -- `DeleteCluster`
  unfoldable pub delete_cluster : String → Io CreationError World (Unit {0})
  delete_cluster cluster_id = within (deleting_cluster cluster_id) (clusters.delete cluster_id)

  abbrev pub parse_kubeconfig : String → Result ApiError String → Result CreationError String
  parse_kubeconfig cluster_id (err e) = err (getting_credentials cluster_id e)
  parse_kubeconfig cluster_id (ok kubeconfig) =
      if kubeconfig == ""
      then err (no_kubeconfig cluster_id)
      else wrap (parsing_kubeconfig cluster_id) (clusters.rest_config kubeconfig)

  -- `GetClusterCredentials`
  unfoldable pub get_cluster_credentials : World → String → Result CreationError String
  get_cluster_credentials w cluster_id =
      parse_kubeconfig cluster_id (clusters.get_credentials w cluster_id)

  -- `GetClusterState`
  unfoldable pub get_cluster_state : World → String → Result CreationError String
  get_cluster_state w cluster_id = wrap (getting_state cluster_id) (clusters.get_state w cluster_id)
