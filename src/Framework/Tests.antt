-- ===== src/Framework/Tests.antt =====
-- Runs of pkg/framework apart from the VPC cleanup, and the theorems at their data.
use openshift_online_rosa_e.Base.{
  String, ◌<>◌, ◌≡◌, refl, ◌≢◌, ◌↔◌, ◌⊎◌, true, List, [], ◌∷◌, ◌==◌, if◌then◌else◌, Result, ok, err,
  some,
}
use openshift_online_rosa_e.Base.Text.{byte_length, has_suffix, trim_suffix}
use openshift_online_rosa_e.Config.{
  Config, Sources, defaults, load, base_config, overridden, compute_nodes_of,
}
use openshift_online_rosa_e.Framework.Ocm.{
  Fleet, find_shard_for_sector, dedicated_shard, resolve_provision_shard, Event, timeout, tick,
  wait_for_cluster_ready,
}
use openshift_online_rosa_e.Framework.Ocm.Waiting.{ReadyFirst, wait_for_cluster_ready_iff}
use openshift_online_rosa_e.Framework.Hcp.{
  HcpNamespaces, HostedCluster, contains_id, resolve_hcp_namespaces, first_match,
}
use openshift_online_rosa_e.Framework.Hcp.Resolved.{
  EndsInId, contains_id_iff, FirstMatch, resolve_hcp_namespaces-FirstMatch,
}
use openshift_online_rosa_e.Verifiers.Rhobs.{new_rhobs_config, is_configured}
use openshift_online_rosa_e.Verifiers.Rhobs.Configured.{
  Loaded, load_rhobs_credentials_from_mc-is_configured,
}
use openshift_online_rosa_e.Framework.Context.{
  TestContext, new_test_context, Services, topology, load_rhobs_credentials_from_mc,
  init_mc_clients, management_cluster_id, resolve_kubeconfig,
}

-- A configuration with a token

abbrev sources : Sources
sources = record {
  getenv = λ name. if name == "OCM_TOKEN" then "token" else "";
  read_file = λ path. err "no file";
  unmarshal = λ text c. ok c;
}

abbrev with_token : Config
with_token = record defaults { ocm_token = "token" }

loads : load sources ≡ ok with_token
unfolding load base_config overridden compute_nodes_of
loads = refl

-- A cluster that becomes ready at the third tick

abbrev events : List Event
events = tick (ok "installing") ∷ tick (err "gateway") ∷ tick (ok "ready") ∷ timeout ∷ []

wait_for_cluster_ready_iff_example :
    (wait_for_cluster_ready events ≡ some (ok tt)) ↔ ReadyFirst events
wait_for_cluster_ready_iff_example = wait_for_cluster_ready_iff events

-- A fleet whose ready clusters have no shard

abbrev fleet : Fleet
fleet = record {
  search = λ query. ok (
      if query == "sector is 'main' and region is 'us-east-2' and status in ('ready')"
      then "ready"
      else "others");
  unmarshal = λ body. ok (if body == "ready" then "" ∷ [] else "shared" ∷ "own" ∷ []);
  topology_of = λ id. if id == "own" then ok "dedicated-v2" else ok "request-serving";
}

chosen : resolve_provision_shard fleet "main" "us-east-2" ≡ ok "own"
unfolding resolve_provision_shard find_shard_for_sector dedicated_shard
chosen = refl

-- Two hosted clusters

abbrev hosted : List HostedCluster
hosted =
    record { name = "other"; namespace = "ocm-staging-123456789a-other" }
    ∷ record { name = "mine"; namespace = "ocm-staging-123456789a" }
    ∷ []

contains_id_iff_example :
    (contains_id "ocm-staging-123456789a-other" "123456789a" ≡ true)
    ↔ EndsInId "ocm-staging-123456789a-other" "123456789a"
contains_id_iff_example = contains_id_iff "ocm-staging-123456789a-other" "123456789a"

abbrev mine : HcpNamespaces
mine = record {
  hc_namespace = "ocm-staging-123456789a";
  hcp_namespace = "ocm-staging-123456789a-mine";
  cluster_name = "mine";
}

resolves : resolve_hcp_namespaces (ok hosted) "" "123456789a" ≡ ok mine
unfolding resolve_hcp_namespaces first_match contains_id byte_length has_suffix
resolves = refl

resolve_hcp_namespaces-FirstMatch_example :
    (items : List HostedCluster) × (Path
      (Result String (List HostedCluster))
      (ok hosted)
      (ok items))
    × FirstMatch "" "123456789a" items mine
resolve_hcp_namespaces-FirstMatch_example =
    resolve_hcp_namespaces-FirstMatch (ok hosted) "" "123456789a" mine resolves

-- A context over services that answer

abbrev services : Services
services = record {
  getenv = λ name. "";
  detect_cluster_topology = λ id. ok "hcp";
  resolve_management_cluster_id = λ id. ok "mc";
  load_kubeconfig = λ path. err "no kubeconfig";
  get_cluster_credentials = λ id. ok id;
  new_kube_client = λ c. ok (c <> "-kube");
  new_dynamic_client = λ c. ok (c <> "-dynamic");
  cluster_name = λ id. "";
  list_hosted_clusters = λ client. ok hosted;
  config_map = λ client. ok (λ key. key);
}

abbrev context : TestContext
context = new_test_context (record defaults { cluster_id = "123456789a" })

detected : (topology services.detect_cluster_topology context).0 ≡ "hcp"
unfolding topology
detected = refl

known : (topology services.detect_cluster_topology context).0 ≢ ""
known h = cc (h, detected)

initialized : (init_mc_clients services context).0 ≡ ok tt
unfolding init_mc_clients management_cluster_id resolve_kubeconfig
initialized = refl

abbrev with_client : TestContext
with_client = record context { mc_kube_client = some "mc-kube" }

credentials_are_loaded : (load_rhobs_credentials_from_mc services with_client).0 ≡ ok tt
unfolding load_rhobs_credentials_from_mc trim_suffix
credentials_are_loaded = refl

load_rhobs_credentials_from_mc-is_configured_example :
    (is_configured (new_rhobs_config ((load_rhobs_credentials_from_mc services with_client).1.cfg))
      ≡ true)
    × (((load_rhobs_credentials_from_mc services with_client).1 ≡ with_client)
        ⊎ Loaded services with_client (load_rhobs_credentials_from_mc services with_client).1)
load_rhobs_credentials_from_mc-is_configured_example =
    load_rhobs_credentials_from_mc-is_configured services with_client credentials_are_loaded
