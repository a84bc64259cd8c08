-- ===== src/Config/Settings.antt =====
-- The settings of pkg/config/config.go that are one text, with their variables and fields. The metrics
-- URL, which may be derived, is not among them.
use openshift_online_rosa_e.Base.{String}
use openshift_online_rosa_e.Config.{Config, normalized}

-- The settings that are one text, the derived one apart
pub data Setting : Type 0 where
  ocm_env : Setting
  ocm_token : Setting
  ocm_client_id : Setting
  ocm_client_secret : Setting
  ocm_token_url : Setting
  cluster_topology : Setting
  cluster_id : Setting
  aws_region : Setting
  aws_account_id : Setting
  oidc_config_id : Setting
  account_role_prefix : Setting
  operator_role_prefix : Setting
  billing_account_id : Setting
  creator_arn : Setting
  gcp_project_id : Setting
  gcp_region : Setting
  cluster_name_prefix : Setting
  compute_machine_type : Setting
  channel_group : Setting
  open_shift_version : Setting
  management_cluster_id : Setting
  service_cluster_id : Setting
  sector_name : Setting
  provision_shard_id : Setting
  upgrade_target_version : Setting
  rhobs_probe_api_url : Setting
  rhobs_oidc_client_id : Setting
  rhobs_oidc_client_secret : Setting
  rhobs_oidc_issuer_url : Setting

-- The variable of a setting
abbrev pub variable : Setting → String
variable ocm_env = "OCM_ENV"
variable ocm_token = "OCM_TOKEN"
variable ocm_client_id = "OCM_CLIENT_ID"
variable ocm_client_secret = "OCM_CLIENT_SECRET"
variable ocm_token_url = "OCM_TOKEN_URL"
variable cluster_topology = "CLUSTER_TOPOLOGY"
variable cluster_id = "CLUSTER_ID"
variable aws_region = "AWS_REGION"
variable aws_account_id = "AWS_ACCOUNT_ID"
variable oidc_config_id = "OIDC_CONFIG_ID"
variable account_role_prefix = "ACCOUNT_ROLE_PREFIX"
variable operator_role_prefix = "OPERATOR_ROLE_PREFIX"
variable billing_account_id = "BILLING_ACCOUNT_ID"
variable creator_arn = "CREATOR_ARN"
variable gcp_project_id = "GCP_PROJECT_ID"
variable gcp_region = "GCP_REGION"
variable cluster_name_prefix = "CLUSTER_NAME_PREFIX"
variable compute_machine_type = "COMPUTE_MACHINE_TYPE"
variable channel_group = "CHANNEL_GROUP"
variable open_shift_version = "OPENSHIFT_VERSION"
variable management_cluster_id = "MANAGEMENT_CLUSTER_ID"
variable service_cluster_id = "SERVICE_CLUSTER_ID"
variable sector_name = "SECTOR_NAME"
variable provision_shard_id = "PROVISION_SHARD_ID"
variable upgrade_target_version = "UPGRADE_TARGET_VERSION"
variable rhobs_probe_api_url = "RHOBS_PROBE_API_URL"
variable rhobs_oidc_client_id = "RHOBS_OIDC_CLIENT_ID"
variable rhobs_oidc_client_secret = "RHOBS_OIDC_CLIENT_SECRET"
variable rhobs_oidc_issuer_url = "RHOBS_OIDC_ISSUER_URL"

-- Its field
abbrev pub value : Setting → Config → String
value ocm_env c = c.ocm_env
value ocm_token c = c.ocm_token
value ocm_client_id c = c.ocm_client_id
value ocm_client_secret c = c.ocm_client_secret
value ocm_token_url c = c.ocm_token_url
value cluster_topology c = c.cluster_topology
value cluster_id c = c.cluster_id
value aws_region c = c.aws_region
value aws_account_id c = c.aws_account_id
value oidc_config_id c = c.oidc_config_id
value account_role_prefix c = c.account_role_prefix
value operator_role_prefix c = c.operator_role_prefix
value billing_account_id c = c.billing_account_id
value creator_arn c = c.creator_arn
value gcp_project_id c = c.gcp_project_id
value gcp_region c = c.gcp_region
value cluster_name_prefix c = c.cluster_name_prefix
value compute_machine_type c = c.compute_machine_type
value channel_group c = c.channel_group
value open_shift_version c = c.open_shift_version
value management_cluster_id c = c.management_cluster_id
value service_cluster_id c = c.service_cluster_id
value sector_name c = c.sector_name
value provision_shard_id c = c.provision_shard_id
value upgrade_target_version c = c.upgrade_target_version
value rhobs_probe_api_url c = c.rhobs_probe_api_url
value rhobs_oidc_client_id c = c.rhobs_oidc_client_id
value rhobs_oidc_client_secret c = c.rhobs_oidc_client_secret
value rhobs_oidc_issuer_url c = c.rhobs_oidc_issuer_url

-- How the text of the variable is read
abbrev pub reading : Setting → String → String
reading cluster_topology v = normalized v
reading _ v = v
