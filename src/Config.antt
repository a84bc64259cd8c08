-- ===== src/Config.antt =====
-- pkg/config/config.go. The environment, the reading of files and the YAML package are parameters.
pub mod Numbers
pub mod Settings
pub mod Precedence
pub mod Lists
mod Tests
use openshift_online_rosa_e.Base.{
  String, Bool, not, List, [], ◌&&◌, ◌||◌, ◌==◌, if◌then◌else◌, Result, ok, err, ◌>>=◌, Option,
  none, some,
}
use openshift_online_rosa_e.Base.Text.{to_lower, trim_space, trim_suffix, split_commas}
use openshift_online_rosa_e.Config.Numbers.{ℤ, pos, atoi}

pub record Config : Type 0 where
  pub ocm_env : String
  pub ocm_token : String
  pub ocm_client_id : String
  pub ocm_client_secret : String
  pub ocm_token_url : String
  pub cluster_topology : String
  pub cluster_id : String
  pub aws_region : String
  pub aws_account_id : String
  pub subnet_ids : List String
  pub oidc_config_id : String
  pub account_role_prefix : String
  pub operator_role_prefix : String
  pub billing_account_id : String
  pub creator_arn : String
  pub gcp_project_id : String
  pub gcp_region : String
  pub cluster_name_prefix : String
  pub compute_machine_type : String
  pub compute_nodes : ℤ
  pub channel_group : String
  pub open_shift_version : String
  pub management_cluster_id : String
  pub service_cluster_id : String
  pub sector_name : String
  pub provision_shard_id : String
  pub upgrade_target_version : String
  pub exclude_cluster_operators : List String
  pub rhobs_probe_api_url : String
  pub rhobs_metrics_api_url : String
  pub rhobs_oidc_client_id : String
  pub rhobs_oidc_client_secret : String
  pub rhobs_oidc_issuer_url : String

pub data LoadError : Type 0 where
  reading_config_file parsing_config_file : String → String → LoadError
  invalid_compute_nodes : String → LoadError
  credentials_required : LoadError

-- What `Load` reads: `os.Getenv`, which yields the empty text for a variable that is not set,
-- `os.ReadFile`, and `yaml.Unmarshal` over a configuration that is there already
pub record Sources : Type 0 where
  pub getenv : String → String
  pub read_file : String → Result String String
  pub unmarshal : String → Config → Result String Config

abbrev pub defaults : Config
defaults = record {
  ocm_env = "staging";
  ocm_token = "";
  ocm_client_id = "";
  ocm_client_secret = "";
  ocm_token_url =
      "https://sso.redhat.com/auth/realms/redhat-external/protocol/openid-connect/token";
  cluster_topology = "";
  cluster_id = "";
  aws_region = "us-east-2";
  aws_account_id = "";
  subnet_ids = [];
  oidc_config_id = "";
  account_role_prefix = "";
  operator_role_prefix = "";
  billing_account_id = "";
  creator_arn = "";
  gcp_project_id = "";
  gcp_region = "";
  cluster_name_prefix = "rosa-e2e";
  compute_machine_type = "m5.xlarge";
  compute_nodes = pos 2;
  channel_group = "stable";
  open_shift_version = "";
  management_cluster_id = "";
  service_cluster_id = "";
  sector_name = "";
  provision_shard_id = "";
  upgrade_target_version = "";
  exclude_cluster_operators = [];
  rhobs_probe_api_url = "";
  rhobs_metrics_api_url = "";
  rhobs_oidc_client_id = "";
  rhobs_oidc_client_secret = "";
  rhobs_oidc_issuer_url = "";
}

-- `if v := os.Getenv(...); v != "" { field = f(v) }`
abbrev pub override {ℓ} : {A : Type ℓ} → String → (String → A) → A → A
override v f field = if v == "" then field else f v

abbrev pub as_it_is : String → String
as_it_is v = v

-- `strings.ToLower(strings.TrimSpace(v))`
abbrev pub normalized : String → String
normalized v = to_lower (trim_space v)

-- The variables, over what the file and the defaults gave; the number of nodes is read before.
unfoldable pub overridden : (String → String) → ℤ → Config → Config
overridden getenv nodes c = record {
  ocm_env = override (getenv "OCM_ENV") as_it_is c.ocm_env;
  ocm_token = override (getenv "OCM_TOKEN") as_it_is c.ocm_token;
  ocm_client_id = override (getenv "OCM_CLIENT_ID") as_it_is c.ocm_client_id;
  ocm_client_secret = override (getenv "OCM_CLIENT_SECRET") as_it_is c.ocm_client_secret;
  ocm_token_url = override (getenv "OCM_TOKEN_URL") as_it_is c.ocm_token_url;
  cluster_topology = override (getenv "CLUSTER_TOPOLOGY") normalized c.cluster_topology;
  cluster_id = override (getenv "CLUSTER_ID") as_it_is c.cluster_id;
  aws_region = override (getenv "AWS_REGION") as_it_is c.aws_region;
  aws_account_id = override (getenv "AWS_ACCOUNT_ID") as_it_is c.aws_account_id;
  subnet_ids = override (getenv "SUBNET_IDS") split_commas c.subnet_ids;
  oidc_config_id = override (getenv "OIDC_CONFIG_ID") as_it_is c.oidc_config_id;
  account_role_prefix = override (getenv "ACCOUNT_ROLE_PREFIX") as_it_is c.account_role_prefix;
  operator_role_prefix = override (getenv "OPERATOR_ROLE_PREFIX") as_it_is c.operator_role_prefix;
  billing_account_id = override (getenv "BILLING_ACCOUNT_ID") as_it_is c.billing_account_id;
  creator_arn = override (getenv "CREATOR_ARN") as_it_is c.creator_arn;
  gcp_project_id = override (getenv "GCP_PROJECT_ID") as_it_is c.gcp_project_id;
  gcp_region = override (getenv "GCP_REGION") as_it_is c.gcp_region;
  cluster_name_prefix = override (getenv "CLUSTER_NAME_PREFIX") as_it_is c.cluster_name_prefix;
  compute_machine_type = override (getenv "COMPUTE_MACHINE_TYPE") as_it_is c.compute_machine_type;
  compute_nodes = nodes;
  channel_group = override (getenv "CHANNEL_GROUP") as_it_is c.channel_group;
  open_shift_version = override (getenv "OPENSHIFT_VERSION") as_it_is c.open_shift_version;
  management_cluster_id =
      override (getenv "MANAGEMENT_CLUSTER_ID") as_it_is c.management_cluster_id;
  service_cluster_id = override (getenv "SERVICE_CLUSTER_ID") as_it_is c.service_cluster_id;
  sector_name = override (getenv "SECTOR_NAME") as_it_is c.sector_name;
  provision_shard_id = override (getenv "PROVISION_SHARD_ID") as_it_is c.provision_shard_id;
  upgrade_target_version =
      override (getenv "UPGRADE_TARGET_VERSION") as_it_is c.upgrade_target_version;
  exclude_cluster_operators =
      override (getenv "EXCLUDE_CLUSTER_OPERATORS") split_commas c.exclude_cluster_operators;
  rhobs_probe_api_url = override (getenv "RHOBS_PROBE_API_URL") as_it_is c.rhobs_probe_api_url;
  rhobs_metrics_api_url =
      override (getenv "RHOBS_METRICS_API_URL") as_it_is c.rhobs_metrics_api_url;
  rhobs_oidc_client_id = override (getenv "RHOBS_OIDC_CLIENT_ID") as_it_is c.rhobs_oidc_client_id;
  rhobs_oidc_client_secret =
      override (getenv "RHOBS_OIDC_CLIENT_SECRET") as_it_is c.rhobs_oidc_client_secret;
  rhobs_oidc_issuer_url =
      override (getenv "RHOBS_OIDC_ISSUER_URL") as_it_is c.rhobs_oidc_issuer_url;
}

abbrev pub parsed_nodes : String → Option ℤ → Result LoadError ℤ
parsed_nodes v none = err (invalid_compute_nodes v)
parsed_nodes v (some n) = ok n

-- `COMPUTE_NODES`, which must be a number when it is set
unfoldable pub compute_nodes_of : String → ℤ → Result LoadError ℤ
compute_nodes_of v nodes = if v == "" then ok nodes else parsed_nodes v (atoi v)

-- `Auto-derive metrics API URL from probe API URL if not explicitly set`
abbrev pub derived_metrics : String → String → String
derived_metrics metrics probe =
    if (metrics == "") && not (probe == "") then trim_suffix probe "/probes" else metrics

abbrev pub with_metrics : Config → Config
with_metrics c = record c {
  rhobs_metrics_api_url = derived_metrics c.rhobs_metrics_api_url c.rhobs_probe_api_url;
}

abbrev pub parse_file : Sources → String → Result String String → Result LoadError Config
parse_file sources path (err e) = err (reading_config_file path e)
parse_file sources path (ok text) = elim (sources.unmarshal text defaults) [
  | err e ↦ err (parsing_config_file path e)
  | ok c ↦ ok c
]

-- The defaults, or the file that `CLUSTER_CONFIG` names over them
unfoldable pub base_config : Sources → Result LoadError Config
base_config sources =
    let path = sources.getenv "CLUSTER_CONFIG" in
    if path == "" then ok defaults else parse_file sources path (sources.read_file path)

abbrev pub lacks_credentials : Config → Bool
lacks_credentials c =
    (c.ocm_token == "") && ((c.ocm_client_id == "") || (c.ocm_client_secret == ""))

abbrev pub checked : Config → Result LoadError Config
checked c = if lacks_credentials c then err credentials_required else ok c

-- `Load`
unfoldable pub load : Sources → Result LoadError Config
unfolding base_config compute_nodes_of overridden
load sources = base_config sources >>= λ c.
    compute_nodes_of (sources.getenv "COMPUTE_NODES") c.compute_nodes >>= λ nodes.
    checked (with_metrics (overridden sources.getenv nodes c))

-- `OCMBaseURL`
unfoldable pub ocm_base_url : (String → String) → Config → String
ocm_base_url getenv c =
    if not (getenv "OCM_BASE_URL" == "")
    then getenv "OCM_BASE_URL"
    else if (c.ocm_env == "production") || (c.ocm_env == "prod")
    then "https://api.openshift.com"
    else if (c.ocm_env == "staging") || (c.ocm_env == "stage")
    then "https://api.stage.openshift.com"
    else "https://api.integration.openshift.com"
