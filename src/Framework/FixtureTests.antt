-- ===== src/Framework/FixtureTests.antt =====
-- Runs of the fixtures, the upgrades, the creation of clusters and the setup, and the theorems at their data.
use openshift_online_rosa_e.Base.{
  ℕ, ◌+◌, String, ◌≡◌, refl, ◌↔◌, Bool, true, false, List, [], ◌∷◌, Result, ok, err, none, some,
  ◌==◌, if◌then◌else◌,
}
use openshift_online_rosa_e.Verifiers.Conditions.{ApiError}
use openshift_online_rosa_e.Config.{
  Sources, defaults, load, base_config, overridden, compute_nodes_of, ocm_base_url,
}
use openshift_online_rosa_e.Framework.Ocm.{
  Event, tick, timeout, Builder, new_ocm_connection, resolve_provision_shard, find_shard_for_sector,
  dedicated_shard, resolve_version_for_topology, version_query, generate_cluster_name,
}
use openshift_online_rosa_e.Framework.Ocm.Connection.{CanAuthenticate}
use openshift_online_rosa_e.Framework.Ocm.Creation.{
  Creating, Clusters, complete_shard, hcp_request, create_rosa_hcp_cluster,
}
use openshift_online_rosa_e.Framework.Ocm.Creation.Sent.{SentHcp, create_rosa_hcp_cluster-SentHcp}
use openshift_online_rosa_e.Framework.Upgrade.{wait_for_upgrade_complete, timed_out_waiting}
use openshift_online_rosa_e.Framework.Upgrade.Complete.{FirstIs, wait_for_upgrade_complete_iff}
use openshift_online_rosa_e.Framework.Suite.{Suite, before_suite, before_suite-CanAuthenticate}
use openshift_online_rosa_e.Framework.Fixtures.{KubeApi}

-- An upgrade that is seen at the third tick

abbrev events : List Event
events = tick (ok "4.18.1") ∷ tick (err "gateway") ∷ tick (ok "4.18.2") ∷ timeout ∷ []

wait_for_upgrade_complete_iff_example :
    ((wait_for_upgrade_complete "id" "4.18.2" events ≡ some (ok tt))
      ↔ FirstIs "4.18.2" (tick (ok "4.18.2")) events)
    × ((wait_for_upgrade_complete "id" "4.18.2" events ≡ some (err (timed_out_waiting "id")))
        ↔ FirstIs "4.18.2" timeout events)
wait_for_upgrade_complete_iff_example = wait_for_upgrade_complete_iff "id" "4.18.2" events

-- A server whose namespace exists and whose deployment is available; polling makes one round.

abbrev one_round : Result ApiError Bool × ℕ → Result ApiError (Unit {0}) × ℕ
one_round (ok true, w) = (ok tt, w)
one_round (ok false, w) = (err "timed out", w)
one_round (err e, w) = (err e, w)

abbrev server : KubeApi ℕ
server = record {
  create_namespace = λ namespace w. (err "exists", w + 1);
  delete_namespace = λ name w. (ok tt, w + 1);
  create_deployment = λ deployment w. (ok tt, w + 1);
  create_service = λ service w. (ok tt, w + 1);
  create_claim = λ claim w. (ok tt, w + 1);
  create_pod = λ pod w. (ok tt, w + 1);
  get_deployment = λ namespace name w.
      (ok (record { condition_type = "Available"; status = "True" } ∷ []), w + 1);
  is_already_exists = λ e. e == "exists";
  is_not_found = λ e. false;
  is_forbidden = λ e. false;
  is_invalid = λ e. false;
  is_method_not_supported = λ e. false;
  is_not_acceptable = λ e. false;
  is_resource_expired = λ e. false;
  is_unauthorized = λ e. false;
  poll_until_context_timeout = λ interval time immediate condition w. one_round (condition w);
}

-- A cluster in a sector whose shard has to be found; the world is the number of requests.

abbrev clusters : Clusters ℕ
clusters = record {
  date = λ w. "0102";
  suffix = λ w. "abcde";
  list_versions = λ w query. ok ("openshift-v4.18.2" ∷ []);
  fleet = λ w. record {
    search = λ query. ok "own";
    unmarshal = λ body. ok (body ∷ []);
    topology_of = λ id. ok "dedicated";
  };
  build = λ request. none;
  add = λ request w. (ok "id-1", w + 1);
  delete = λ id w. (ok tt, w + 1);
  get_credentials = λ w id. ok "kubeconfig";
  get_state = λ w id. ok "ready";
  rest_config = λ kubeconfig. ok kubeconfig;
}

abbrev start : Creating ℕ
start = record { cfg = record defaults { sector_name = "main" }; world = 0 }

creates : (create_rosa_hcp_cluster clusters start).0 ≡ ok "id-1"
unfolding create_rosa_hcp_cluster complete_shard hcp_request resolve_version_for_topology
    version_query generate_cluster_name resolve_provision_shard find_shard_for_sector
    dedicated_shard
creates = refl

create_rosa_hcp_cluster-SentHcp_example :
    SentHcp clusters start "id-1" (create_rosa_hcp_cluster clusters start).1
create_rosa_hcp_cluster-SentHcp_example =
    create_rosa_hcp_cluster-SentHcp clusters start "id-1" creates

-- A setup with a token

abbrev sources : Sources
sources = record {
  getenv = λ name. if name == "OCM_TOKEN" then "token" else "";
  read_file = λ path. err "no file";
  unmarshal = λ text c. ok c;
}

abbrev build : Builder → Result String String
build builder = ok builder.url

abbrev suite : Suite String
suite = record {
  cfg = record defaults { ocm_token = "token" };
  conn = "https://api.stage.openshift.com";
}

sets_up : before_suite build sources ≡ ok suite
unfolding before_suite load base_config overridden compute_nodes_of new_ocm_connection ocm_base_url
sets_up = refl

before_suite-CanAuthenticate_example :
    (load sources ≡ ok suite.cfg)
    × (build (new_ocm_connection sources.getenv suite.cfg) ≡ ok suite.conn)
    × CanAuthenticate (new_ocm_connection sources.getenv suite.cfg)
before_suite-CanAuthenticate_example = before_suite-CanAuthenticate build sources suite sets_up
