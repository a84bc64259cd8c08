-- ===== src/Config/Precedence.antt =====
-- pkg/config/config.go: which of the environment, the file and the defaults a field comes from, and
-- what a loaded configuration has.
use openshift_online_rosa_e.Base.{
  String, ◌<>◌, ◌≡◌, ◌≢◌, refl, sym, ap, subst, ◌∙◌, ◌⊎◌, inl, inr, false, ◌==◌, eq_iff, Result, ok,
  err, ◌>>=◌, Bool-cases, clash, ||-eq-false,
}
use openshift_online_rosa_e.Base.Text.{trim_suffix}
use openshift_online_rosa_e.Base.Text.Laws.{trim_suffix-append}
use openshift_online_rosa_e.Config.Numbers.{ℤ}
use openshift_online_rosa_e.Config.Settings.{Setting, variable, value, reading}
use openshift_online_rosa_e.Config.Settings.{
  ocm_env, ocm_token, ocm_client_id, ocm_client_secret, ocm_token_url, cluster_topology, cluster_id,
  aws_region, aws_account_id, oidc_config_id, account_role_prefix, operator_role_prefix,
  billing_account_id, creator_arn, gcp_project_id, gcp_region, cluster_name_prefix,
  compute_machine_type, channel_group, open_shift_version, management_cluster_id,
  service_cluster_id, sector_name, provision_shard_id, upgrade_target_version, rhobs_probe_api_url,
  rhobs_oidc_client_id, rhobs_oidc_client_secret, rhobs_oidc_issuer_url,
}
use openshift_online_rosa_e.Config.{
  defaults, Config, Sources, LoadError, override, as_it_is, overridden, compute_nodes_of,
  derived_metrics, with_metrics, base_config, lacks_credentials, checked, load,
}

overridden-value :
    (s : Setting) (getenv : String → String) (nodes : ℤ) (c : Config)
    → value s (with_metrics (overridden getenv nodes c))
      ≡ override (getenv (variable s)) (reading s) (value s c)
unfolding overridden
overridden-value ocm_env getenv nodes c = refl
overridden-value ocm_token getenv nodes c = refl
overridden-value ocm_client_id getenv nodes c = refl
overridden-value ocm_client_secret getenv nodes c = refl
overridden-value ocm_token_url getenv nodes c = refl
overridden-value cluster_topology getenv nodes c = refl
overridden-value cluster_id getenv nodes c = refl
overridden-value aws_region getenv nodes c = refl
overridden-value aws_account_id getenv nodes c = refl
overridden-value oidc_config_id getenv nodes c = refl
overridden-value account_role_prefix getenv nodes c = refl
overridden-value operator_role_prefix getenv nodes c = refl
overridden-value billing_account_id getenv nodes c = refl
overridden-value creator_arn getenv nodes c = refl
overridden-value gcp_project_id getenv nodes c = refl
overridden-value gcp_region getenv nodes c = refl
overridden-value cluster_name_prefix getenv nodes c = refl
overridden-value compute_machine_type getenv nodes c = refl
overridden-value channel_group getenv nodes c = refl
overridden-value open_shift_version getenv nodes c = refl
overridden-value management_cluster_id getenv nodes c = refl
overridden-value service_cluster_id getenv nodes c = refl
overridden-value sector_name getenv nodes c = refl
overridden-value provision_shard_id getenv nodes c = refl
overridden-value upgrade_target_version getenv nodes c = refl
overridden-value rhobs_probe_api_url getenv nodes c = refl
overridden-value rhobs_oidc_client_id getenv nodes c = refl
overridden-value rhobs_oidc_client_secret getenv nodes c = refl
overridden-value rhobs_oidc_issuer_url getenv nodes c = refl

checked-ok :
    (c : Config) {cfg : Config} → checked c ≡ ok cfg → (c ≡ cfg) × (lacks_credentials cfg ≡ false)
checked-ok c h = elim (Bool-cases (lacks_credentials c)) [
  | inl lacks ↦ cc (lacks, rw lacks at h)
  | inr has ↦
      let same = inner (rw has at h) in (same, subst (λ c. lacks_credentials c ≡ false) same has)
]
  where
    inner : {c d : Config} → Path (Result LoadError Config) (ok c) (ok d) → c ≡ d
    inner h = cc

-- A chain that succeeded
bind-ok :
    {E A B : Type 0} (r : Result E A) (f : A → Result E B) {b : B}
    → (r >>= f) ≡ ok b
    → (a : A) × (r ≡ ok a) × (f a ≡ ok b)
bind-ok (ok a) f h = (a, refl, h)
bind-ok (err e) f h = cc

-- The parts of a load that succeeded
pub record Loaded (sources : Sources) (cfg : Config) : Type 0 where
  pub base : Config
  pub based : base_config sources ≡ ok base
  pub nodes : ℤ
  pub counted : compute_nodes_of (sources.getenv "COMPUTE_NODES") base.compute_nodes ≡ ok nodes
  pub settled : with_metrics (overridden sources.getenv nodes base) ≡ cfg
  pub has_credentials : lacks_credentials cfg ≡ false

pub load-Loaded : (sources : Sources) (cfg : Config) → load sources ≡ ok cfg → Loaded sources cfg
unfolding load
load-Loaded sources cfg h =
    let (base, based, rest) = bind-ok (base_config sources) _ h in
    let (nodes, counted, last) =
      bind-ok (compute_nodes_of (sources.getenv "COMPUTE_NODES") base.compute_nodes) _ rest in
    let (settled, has_credentials) =
      checked-ok (with_metrics (overridden sources.getenv nodes base)) last in
    record {
      base = base;
      based = based;
      nodes = nodes;
      counted = counted;
      settled = settled;
      has_credentials = has_credentials;
    }

-- When Load succeeds, each of its settings is what its variable says, the topology without spaces around
-- it and in lower case, where that variable is set and not empty, and otherwise what the file says, or
-- the default where there is no file.
pub load-value :
    (sources : Sources) (cfg : Config) (s : Setting)
    → load sources ≡ ok cfg
    → (base : Config) × (base_config sources ≡ ok base)
      × (value s cfg ≡ override (sources.getenv (variable s)) (reading s) (value s base))
load-value sources cfg s h =
    let loaded = load-Loaded sources cfg h in
    (
      loaded.base,
      loaded.based,
      ap (value s) (sym loaded.settled)
          ∙ overridden-value s sources.getenv loaded.nodes loaded.base,
    )

-- The three ways of being without a credential are excluded.
abbrev pub HasCredentials : Config → Type 0
HasCredentials cfg =
    (cfg.ocm_token ≢ "") ⊎ ((cfg.ocm_client_id ≢ "") × (cfg.ocm_client_secret ≢ ""))

filled : (s : String) → (s == "") ≡ false → s ≢ ""
filled s h k = clash ((eq_iff s "").1 k) h

lacks_credentials-HasCredentials :
    (cfg : Config) → lacks_credentials cfg ≡ false → HasCredentials cfg
lacks_credentials-HasCredentials cfg h = elim (Bool-cases (cfg.ocm_token == "")) [
  | inr token ↦ inl (filled cfg.ocm_token token)
  | inl none ↦
      let (id, secret) =
        ||-eq-false (cfg.ocm_client_id == "") (cfg.ocm_client_secret == "") (rw none at h) in
      inr (filled cfg.ocm_client_id id, filled cfg.ocm_client_secret secret)
]

-- When Load succeeds, the configuration has a token, or a client ID and a client secret.
pub load-HasCredentials :
    (sources : Sources) (cfg : Config) → load sources ≡ ok cfg → HasCredentials cfg
load-HasCredentials sources cfg h =
    lacks_credentials-HasCredentials cfg ((load-Loaded sources cfg h).has_credentials)

derived :
    (root metrics probe : String)
    → metrics ≡ ""
    → probe ≡ root <> "/probes"
    → derived_metrics metrics probe ≡ root
unfolding trim_suffix
derived root metrics probe h k = elim (Bool-cases (probe == "")) [
  | inr named ↦ rw ((eq_iff metrics "").1 h, named) trimmed
  | inl empty ↦
      rw ((eq_iff metrics "").1 h, empty)
        (h ∙ sym (ap (λ s. trim_suffix s "/probes") ((eq_iff probe "").0 empty)) ∙ trimmed)
]
  where
    trimmed : trim_suffix probe "/probes" ≡ root
    trimmed = ap (λ s. trim_suffix s "/probes") k ∙ trim_suffix-append root "/probes"

default_base :
    (sources : Sources) (base : Config)
    → sources.getenv "CLUSTER_CONFIG" ≡ ""
    → base_config sources ≡ ok base
    → defaults ≡ base
unfolding base_config
default_base sources base no_file h =
    inner (rw ((eq_iff (sources.getenv "CLUSTER_CONFIG") "").1 no_file) at h)
  where
    inner : {c d : Config} → Path (Result LoadError Config) (ok c) (ok d) → c ≡ d
    inner h = cc

unset_override : (v field : String) → v ≡ "" → override v as_it_is field ≡ field
unset_override v field h = rw ((eq_iff v "").1 h) refl

-- Without a file and a variable for it, the metrics URL of a loaded configuration is its probe URL
-- without the ending /probes, where the probe URL has that ending.
pub load-metrics :
    (sources : Sources) (cfg : Config) (root : String)
    → sources.getenv "CLUSTER_CONFIG" ≡ ""
    → sources.getenv "RHOBS_METRICS_API_URL" ≡ ""
    → cfg.rhobs_probe_api_url ≡ root <> "/probes"
    → load sources ≡ ok cfg
    → cfg.rhobs_metrics_api_url ≡ root
unfolding overridden
load-metrics sources cfg root no_file unset probe h =
    let loaded = load-Loaded sources cfg h in
    let from_defaults =
      ap (λ c. c.rhobs_metrics_api_url) (default_base sources loaded.base no_file loaded.based) in
    ap (λ c. c.rhobs_metrics_api_url) (sym loaded.settled)
    ∙ derived root _ _ (unset_override _ _ unset ∙ sym from_defaults)
        (ap (λ c. c.rhobs_probe_api_url) loaded.settled ∙ probe)
