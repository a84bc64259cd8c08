-- ===== src/Framework/Ocm.antt =====
-- pkg/framework/ocm.go: the connection, what is read of clusters, versions and shards, and the wait for
-- a cluster. The OCM SDK is a parameter.
pub mod Shards
pub mod Waiting
pub mod Connection
pub mod Creation
pub mod Dedicated
use openshift_online_rosa_e.Base.{
  String, ◌<>◌, Bool, true, not, List, [], ◌∷◌, ◌&&◌, ◌||◌, ◌==◌, if◌then◌else◌, Result, ok, err,
  ◌>>=◌, wrap, Option, none, some,
}
use openshift_online_rosa_e.Config.{Config, ocm_base_url}

abbrev pub ApiError : Type 0
ApiError = String

-- What `sdk.NewConnectionBuilder()` is told
pub record Builder : Type 0 where
  pub url : String
  pub token_url : String
  pub client : String × String
  pub tokens : Option String

abbrev pub client_id : String
client_id = "cloud-services"

abbrev pub client_secret : String
client_secret = ""

-- The choice of the OAuth client
abbrev pub oauth_client : Config → String × String
oauth_client cfg =
    if not (cfg.ocm_client_id == "") && not (cfg.ocm_client_secret == "")
    then (cfg.ocm_client_id, cfg.ocm_client_secret)
    else if not (cfg.ocm_client_id == "")
    then (cfg.ocm_client_id, client_secret)
    else (client_id, client_secret)

-- `NewOCMConnection`, up to the building of the connection
unfoldable pub new_ocm_connection : (String → String) → Config → Builder
new_ocm_connection getenv cfg = record {
  url = ocm_base_url getenv cfg;
  token_url = cfg.ocm_token_url;
  client = oauth_client cfg;
  tokens = if not (cfg.ocm_token == "") then some cfg.ocm_token else none;
}

-- What a cluster's record says
pub record Cluster : Type 0 where
  pub cloud_provider : String
  pub hypershift_enabled : Bool
  pub state : String

pub data OcmError : Type 0 where
  getting_cluster : ApiError → OcmError
  getting_hypershift : ApiError → OcmError
  no_management_cluster : OcmError
  searching_cluster : String → ApiError → OcmError
  cluster_not_found : String → OcmError
  listing_versions : ApiError → OcmError
  no_versions : String → String → OcmError
  querying_service_clusters : ApiError → OcmError
  parsing_response : ApiError → OcmError
  no_provision_shard : String → String → OcmError
  timed_out entered_error_state is_uninstalling : OcmError

-- `DetectClusterTopology`, from the answer to the reading of the cluster
unfoldable pub detect_cluster_topology : Result ApiError Cluster → Result OcmError String
detect_cluster_topology (err e) = err (getting_cluster e)
detect_cluster_topology (ok cluster) = ok (
    if cluster.cloud_provider == "gcp"
    then "osd-gcp"
    else if cluster.hypershift_enabled
    then "hcp"
    else "classic")

-- The IDs of the clusters that a search finds, the first page of one
abbrev pub first_id : String → Result ApiError (List String) → Result OcmError String
first_id mc_name (err e) = err (searching_cluster mc_name e)
first_id mc_name (ok []) = err (cluster_not_found mc_name)
first_id mc_name (ok (id ∷ ids)) = ok id

abbrev pub search_for : (String → Result ApiError (List String)) → String → Result OcmError String
search_for search mc_name =
    if mc_name == ""
    then err no_management_cluster
    else first_id mc_name (search (("name='" <> mc_name) <> "'"))

-- `ResolveManagementClusterID`: the name that the /hypershift resource gives, and the search for it
unfoldable pub resolve_management_cluster_id :
    Result ApiError String → (String → Result ApiError (List String)) → Result OcmError String
resolve_management_cluster_id hypershift search =
    wrap getting_hypershift hypershift >>= search_for search

-- The query of `resolveVersionForTopology`
unfoldable pub version_query : String → String → String
version_query channel_group topology =
    let query = ("channel_group = '" <> channel_group) <> "' AND enabled = 'true'" in
    if topology == "hcp"
    then query <> " AND rosa_enabled = 'true' AND hosted_control_plane_enabled = 'true'"
    else if topology == "osd-gcp"
    then query
    else query <> " AND rosa_enabled = 'true'"

abbrev pub first_version : String → String → Result ApiError (List String) → Result OcmError String
first_version topology channel_group (err e) = err (listing_versions e)
first_version topology channel_group (ok []) = err (no_versions topology channel_group)
first_version topology channel_group (ok (version ∷ versions)) = ok version

-- `resolveVersionForTopology`, over the listing of versions for a query
unfoldable pub resolve_version_for_topology :
    (String → Result ApiError (List String)) → Config → String → Result OcmError String
unfolding version_query
resolve_version_for_topology list_versions cfg topology =
    if not (cfg.open_shift_version == "")
    then ok ("openshift-v" <> cfg.open_shift_version)
    else first_version topology cfg.channel_group
        (list_versions (version_query cfg.channel_group topology))

-- The loop of `findShardForSector`: a shard whose topology cannot be read is used.
abbrev pub is_dedicated : Result ApiError String → Bool
is_dedicated (err e) = true
is_dedicated (ok topology) = (topology == "dedicated") || (topology == "dedicated-v2")

unfoldable pub dedicated_shard : (String → Result ApiError String) → List String → Option String
dedicated_shard topology_of [] = none
dedicated_shard topology_of (shard_id ∷ ids) =
    let rest = dedicated_shard topology_of ids in
    if shard_id == ""
    then rest
    else if is_dedicated (topology_of shard_id)
    then some shard_id
    else rest

-- `Fall back to first available`; the first ID may be empty, as no shard.
abbrev pub or_first : Option String → List String → String
or_first (some shard_id) ids = shard_id
or_first none [] = ""
or_first none (shard_id ∷ ids) = shard_id

-- The fleet service: the body that it answers to a search for service clusters, the shards' IDs that
-- `json.Unmarshal` finds in it, and the topology of a shard
pub record Fleet : Type 0 where
  pub search : String → Result ApiError String
  pub unmarshal : String → Result ApiError (List String)
  pub topology_of : String → Result ApiError String

-- `fmt.Sprintf("sector is '%s' and region is '%s' and status in ('%s')", sector, region, status)`
abbrev pub shard_query : String → String → String → String
shard_query sector region status =
    "sector is '" <> sector <> "' and region is '" <> region <> "' and status in ('" <> status
    <> "')"

abbrev pub choose_shard :
    (String → Result ApiError String) → Result ApiError (List String) → Result OcmError String
choose_shard topology_of (err e) = err (parsing_response e)
choose_shard topology_of (ok ids) = ok (or_first (dedicated_shard topology_of ids) ids)

abbrev pub read_shards : Fleet → Result ApiError String → Result OcmError String
read_shards fleet (err e) = err (querying_service_clusters e)
read_shards fleet (ok body) = choose_shard fleet.topology_of (fleet.unmarshal body)

-- `findShardForSector`
unfoldable pub find_shard_for_sector : Fleet → String → String → String → Result OcmError String
unfolding dedicated_shard
find_shard_for_sector fleet sector region status =
    read_shards fleet (fleet.search (shard_query sector region status))

-- `if err != nil || shardID == "" { ... }`
abbrev pub or_else : Result OcmError String → Result OcmError String → Result OcmError String
or_else (err e) other = other
or_else (ok shard_id) other = if shard_id == "" then other else ok shard_id

-- `resolveProvisionShard`
unfoldable pub resolve_provision_shard : Fleet → String → String → Result OcmError String
resolve_provision_shard fleet sector region =
    or_else (find_shard_for_sector fleet sector region "ready") (
      or_else (find_shard_for_sector fleet sector region "maintenance")
        (err (no_provision_shard sector region)))

-- What the select of `WaitForClusterReady` receives, in this order: the end of the timeout, or a tick,
-- with the answer to the reading of the cluster's state
pub data Event : Type 0 where
  timeout : Event
  tick : Result ApiError String → Event

-- The end that a state brings about; `none` where the loop goes on
abbrev pub state_verdict : String → Option (Result OcmError (Unit {0}))
state_verdict state =
    if state == "ready"
    then some (ok tt)
    else if state == "error"
    then some (err entered_error_state)
    else if state == "uninstalling"
    then some (err is_uninstalling)
    else none

abbrev pub event_verdict : Event → Option (Result OcmError (Unit {0}))
event_verdict timeout = some (err timed_out)
event_verdict (tick (err e)) = none
event_verdict (tick (ok state)) = state_verdict state

abbrev pub settle : {A : Type 0} → Option A → Option A → Option A
settle none rest = rest
settle (some a) rest = some a

-- `WaitForClusterReady`, over the events so far; `none` where it still waits
unfoldable pub wait_for_cluster_ready : List Event → Option (Result OcmError (Unit {0}))
wait_for_cluster_ready [] = none
wait_for_cluster_ready (event ∷ events) =
    settle (event_verdict event) (wait_for_cluster_ready events)

-- `generateClusterName`, from the date and the random suffix
unfoldable pub generate_cluster_name : String → String → String → String → String
generate_cluster_name date suffix prefix topology =
    let topo_tag = if topology == "classic" then "sts" else topology in
    ((((prefix <> "-") <> topo_tag) <> "-") <> date) <> ("-" <> suffix)
