-- ===== src/Framework/Context.antt =====
-- pkg/framework/context.go. Environment, OCM and the constructors of clients are parameters; a client is
-- a text.
pub mod Caching
pub mod Clients
pub mod Aws
pub mod Cluster
use openshift_online_rosa_e.Base.{
  String, Bool, not, List, ◌&&◌, ◌||◌, ◌==◌, if◌then◌else◌, Result, ok, err, Option, none, some,
}
use openshift_online_rosa_e.Base.Io.{Io, pure, raise, modify, ◌>>=◌, ◌>>◌}
use openshift_online_rosa_e.Config.{Config, derived_metrics}
use openshift_online_rosa_e.Framework.Ocm.{OcmError}
use openshift_online_rosa_e.Framework.Hcp.{
  HcpNamespaces, HcpError, HostedCluster, resolve_hcp_namespaces,
}

abbrev pub Client : Type 0
Client = String

pub record TestContext : Type 0 where
  pub cfg : Config
  pub hc_rest_config : Option Client
  pub hc_kube_client : Option Client
  pub hc_dynamic_client : Option Client
  pub mc_rest_config : Option Client
  pub mc_kube_client : Option Client
  pub mc_dynamic_client : Option Client
  pub sc_rest_config : Option Client
  pub sc_kube_client : Option Client
  pub sc_dynamic_client : Option Client
  pub hcp_namespaces : Option HcpNamespaces
  -- Empty until it is known
  pub topology : String
  pub ec2_client : Option Client
  pub cloudtrail_client : Option Client

-- `NewTestContext`
abbrev pub new_test_context : Config → TestContext
new_test_context cfg = record {
  cfg = cfg;
  hc_rest_config = none;
  hc_kube_client = none;
  hc_dynamic_client = none;
  mc_rest_config = none;
  mc_kube_client = none;
  mc_dynamic_client = none;
  sc_rest_config = none;
  sc_kube_client = none;
  sc_dynamic_client = none;
  hcp_namespaces = none;
  topology = "";
  ec2_client = none;
  cloudtrail_client = none;
}

pub data ContextError : Type 0 where
  getting_credentials creating_kube_client creating_dynamic_client failed : String → ContextError
  resolving_management_cluster : OcmError → ContextError
  mc_not_initialized missing_rhobs_fields : ContextError
  getting_config_map : String → ContextError
  loading_aws_config no_valid_credentials getting_cluster : String → ContextError
  no_infra_id no_operator_role_prefix : String → ContextError

pub record Services : Type 0 where
  pub getenv : String → String
  pub detect_cluster_topology : String → Result OcmError String
  pub resolve_management_cluster_id : String → Result OcmError String
  -- `clientcmd.BuildConfigFromFlags` of a path
  pub load_kubeconfig : String → Result String Client
  pub get_cluster_credentials : String → Result String Client
  pub new_kube_client : Client → Result String Client
  pub new_dynamic_client : Client → Result String Client
  -- The cluster's name in OCM, empty where it cannot be read
  pub cluster_name : String → String
  pub list_hosted_clusters : Client → Result String (List HostedCluster)
  -- The data of the ConfigMap of the route monitor operator; a missing key reads as empty.
  pub config_map : Client → Result String (String → String)

abbrev pub remember : TestContext → Result OcmError String → String × TestContext
remember tc (err e) = ("", tc)
remember tc (ok topology) = (topology, record tc { topology = topology })

-- `Topology`, over `DetectClusterTopology`
unfoldable pub topology : (String → Result OcmError String) → TestContext → String × TestContext
topology detect tc =
    if not (tc.topology == "")
    then (tc.topology, tc)
    else if not (tc.cfg.cluster_topology == "")
    then (tc.cfg.cluster_topology, record tc { topology = tc.cfg.cluster_topology })
    else if not (tc.cfg.cluster_id == "")
    then remember tc (detect tc.cfg.cluster_id)
    else ("", tc)

-- `HasRHOBSAccess`
abbrev pub has_rhobs_access : Config → Bool
has_rhobs_access cfg =
    not (cfg.rhobs_probe_api_url == "")
    && (not (cfg.rhobs_oidc_client_id == "")
        && (not (cfg.rhobs_oidc_client_secret == "") && not (cfg.rhobs_oidc_issuer_url == "")))

-- `HasMCAccess` and `HasSCAccess`
abbrev pub has_mc_access : Services → TestContext → Bool
has_mc_access services tc =
    not (services.getenv "MC_KUBECONFIG" == "") || not (tc.cfg.management_cluster_id == "")

abbrev pub has_sc_access : TestContext → Bool
has_sc_access tc = not (tc.cfg.service_cluster_id == "")

abbrev pub call :
    {A : Type 0} → (String → ContextError) → Result String A → Io ContextError TestContext A
call f (ok a) tc = (ok a, tc)
call f (err e) tc = (err (f e), tc)

module _ (services : Services) where
  -- `resolveKubeconfig`
  unfoldable pub resolve_kubeconfig : String → String → Result String Client
  resolve_kubeconfig env_var cluster_id =
      if not (services.getenv env_var == "")
      then services.load_kubeconfig (services.getenv env_var)
      else services.get_cluster_credentials cluster_id

  -- The tail of the three functions: the clients for a configuration, each kept as soon as it is there
  abbrev pub store_clients :
      (Client → TestContext → TestContext)
      → (Client → TestContext → TestContext)
      → (Client → TestContext → TestContext)
      → Result String Client
      → Io ContextError TestContext Client
  store_clients set_rest set_kube set_dynamic resolved = do
    rest_cfg ← call getting_credentials resolved
    modify (set_rest rest_cfg)
    kube_client ← call creating_kube_client (services.new_kube_client rest_cfg)
    modify (set_kube kube_client)
    dyn_client ← call creating_dynamic_client (services.new_dynamic_client rest_cfg)
    modify (set_dynamic dyn_client)
    pure dyn_client

  -- `InitHCClients`
  unfoldable pub init_hc_clients : Io ContextError TestContext Client
  init_hc_clients tc =
      store_clients (λ c t. record t { hc_rest_config = some c })
        (λ c t. record t { hc_kube_client = some c })
        (λ c t. record t { hc_dynamic_client = some c })
        (resolve_kubeconfig "KUBECONFIG" tc.cfg.cluster_id) tc

  -- `InitSCClients`
  unfoldable pub init_sc_clients : Io ContextError TestContext Client
  init_sc_clients tc =
      store_clients (λ c t. record t { sc_rest_config = some c })
        (λ c t. record t { sc_kube_client = some c })
        (λ c t. record t { sc_dynamic_client = some c })
        (resolve_kubeconfig "SC_KUBECONFIG" tc.cfg.service_cluster_id) tc

  -- The ID for the credentials: the configured one, or the one that OCM knows, where neither it nor a
  -- kubeconfig is given and there is a cluster
  unfoldable pub management_cluster_id : TestContext → Result OcmError String
  management_cluster_id tc =
      if (tc.cfg.management_cluster_id == "")
        && ((services.getenv "MC_KUBECONFIG" == "") && not (tc.cfg.cluster_id == ""))
      then services.resolve_management_cluster_id tc.cfg.cluster_id
      else ok tc.cfg.management_cluster_id

  abbrev pub keep_namespaces : TestContext → Result HcpError HcpNamespaces → TestContext
  keep_namespaces tc (ok namespaces) = record tc { hcp_namespaces = some namespaces }
  keep_namespaces tc (err e) = tc

  -- The end of `InitMCClients`, where a failure is not an error
  abbrev pub resolve_namespaces_of : Client → String × TestContext → TestContext
  resolve_namespaces_of dyn_client (topology, tc) =
      if topology == "hcp"
      then keep_namespaces tc (
          resolve_hcp_namespaces (services.list_hosted_clusters dyn_client)
            (services.cluster_name tc.cfg.cluster_id) tc.cfg.cluster_id)
      else tc

  unfoldable pub resolve_namespaces : Client → TestContext → TestContext
  resolve_namespaces dyn_client tc =
      if tc.cfg.cluster_id == ""
      then tc
      else resolve_namespaces_of dyn_client (topology services.detect_cluster_topology tc)

  abbrev pub store_mc_clients : Result OcmError String → Io ContextError TestContext (Unit {0})
  store_mc_clients (err e) = raise (resolving_management_cluster e)
  store_mc_clients (ok mc_id) =
      store_clients (λ c t. record t { mc_rest_config = some c })
        (λ c t. record t { mc_kube_client = some c })
        (λ c t. record t { mc_dynamic_client = some c }) (resolve_kubeconfig "MC_KUBECONFIG" mc_id)
      >>= λ dyn_client. modify (resolve_namespaces dyn_client)

  -- `InitMCClients`
  unfoldable pub init_mc_clients : Io ContextError TestContext (Unit {0})
  init_mc_clients tc = store_mc_clients (management_cluster_id tc) tc

  -- The fields out of the ConfigMap, and the derived URL
  abbrev pub with_rhobs : (String → String) → Config → Config
  with_rhobs fields cfg = record cfg {
    rhobs_probe_api_url = fields "probe-api-url";
    rhobs_oidc_client_id = fields "oidc-client-id";
    rhobs_oidc_client_secret = fields "oidc-client-secret";
    rhobs_oidc_issuer_url = fields "oidc-issuer-url";
    rhobs_metrics_api_url = derived_metrics cfg.rhobs_metrics_api_url (fields "probe-api-url");
  }

  abbrev pub check_rhobs : Io ContextError TestContext (Unit {0})
  check_rhobs tc = if has_rhobs_access tc.cfg then (ok tt, tc) else (err missing_rhobs_fields, tc)

  abbrev pub store_rhobs : Result String (String → String) → Io ContextError TestContext (Unit {0})
  store_rhobs (err e) = raise (getting_config_map e)
  store_rhobs (ok fields) =
      modify (λ tc. record tc { cfg = with_rhobs fields tc.cfg }) >> check_rhobs

  abbrev pub load_from : Option Client → Io ContextError TestContext (Unit {0})
  load_from none = raise mc_not_initialized
  load_from (some mc_kube_client) = store_rhobs (services.config_map mc_kube_client)

  -- `LoadRHOBSCredentialsFromMC`
  unfoldable pub load_rhobs_credentials_from_mc : Io ContextError TestContext (Unit {0})
  load_rhobs_credentials_from_mc tc =
      if has_rhobs_access tc.cfg then (ok tt, tc) else load_from tc.mc_kube_client tc
