-- ===== src/Config/Tests.antt =====
-- Runs of pkg/config/config.go, and the theorems at their data.
use openshift_online_rosa_e.Base.{
  [], ◌∷◌, String, ◌≡◌, refl, ◌==◌, if◌then◌else◌, ok, err, some, none,
}
use openshift_online_rosa_e.Config.Lists.{Listable, load-join}
use openshift_online_rosa_e.Base.Text.{
  split_commas, join, contains, has_prefix, trim_space, trim_left, trim_right, to_lower,
  trim_suffix,
}
use openshift_online_rosa_e.Config.Numbers.{pos, negsuc, atoi, digits}
use openshift_online_rosa_e.Config.{
  Config, Sources, defaults, base_config, overridden, compute_nodes_of, load,
}

abbrev environment : String → String
environment name =
    if name == "CLUSTER_TOPOLOGY"
    then " HCP"
    else if name == "OCM_TOKEN"
    then "token"
    else if name == "RHOBS_PROBE_API_URL"
    then "https://rhobs/hcp/probes"
    else ""

abbrev sources : Sources
sources = record {
  getenv = environment;
  read_file = λ path. err "no file";
  unmarshal = λ text c. ok c;
}

abbrev loaded : Config
loaded = record defaults {
  cluster_topology = "hcp";
  ocm_token = "token";
  rhobs_probe_api_url = "https://rhobs/hcp/probes";
  rhobs_metrics_api_url = "https://rhobs/hcp";
}

numbers_are_read :
    (atoi "-12" ≡ some (negsuc 11))
    × (atoi "+7" ≡ some (pos 7))
    × (atoi "9223372036854775808" ≡ none)
    × (atoi "1a" ≡ none)
unfolding atoi digits
numbers_are_read = (refl, refl, refl, refl)

loads : load sources ≡ ok loaded
unfolding load base_config overridden compute_nodes_of trim_space trim_left trim_right to_lower
    trim_suffix
loads = refl

-- Two lists in the environment

abbrev with_lists : Sources
with_lists = record sources {
  getenv = λ name.
      if name == "SUBNET_IDS"
      then "subnet-1,subnet-2"
      else if name == "EXCLUDE_CLUSTER_OPERATORS"
      then "insights"
      else environment name;
}

abbrev loaded_lists : Config
loaded_lists = record loaded {
  subnet_ids = "subnet-1" ∷ "subnet-2" ∷ [];
  exclude_cluster_operators = "insights" ∷ [];
}

loads_lists : load with_lists ≡ ok loaded_lists
unfolding load base_config overridden compute_nodes_of trim_space trim_left trim_right to_lower
    trim_suffix split_commas
loads_lists = refl

subnets-Listable : Listable ("subnet-1" ∷ "subnet-2" ∷ [])
unfolding join contains has_prefix
subnets-Listable = record { given = λ e. cc; named = λ e. cc; plain = (refl, (refl, tt)) }

operators-Listable : Listable ("insights" ∷ [])
unfolding join contains has_prefix
operators-Listable = record { given = λ e. cc; named = λ e. cc; plain = (refl, tt) }

subnets_joined : with_lists.getenv "SUBNET_IDS" ≡ join ("subnet-1" ∷ "subnet-2" ∷ []) ","
unfolding join
subnets_joined = refl

operators_joined : with_lists.getenv "EXCLUDE_CLUSTER_OPERATORS" ≡ join ("insights" ∷ []) ","
unfolding join
operators_joined = refl

load-join_example :
    (loaded_lists.subnet_ids ≡ ("subnet-1" ∷ "subnet-2" ∷ []))
    × (loaded_lists.exclude_cluster_operators ≡ ("insights" ∷ []))
load-join_example =
    load-join with_lists loaded_lists ("subnet-1" ∷ "subnet-2" ∷ []) ("insights" ∷ [])
      subnets-Listable operators-Listable subnets_joined operators_joined loads_lists
