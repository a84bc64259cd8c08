-- ===== src/Verifiers/Rhobs.antt =====
-- pkg/verifiers/rhobs.go: the configuration, and the world that the RHOBS API, the identity provider,
-- the clock and the context change. The decoding of JSON into the structs is a parameter.
pub mod Token
pub mod Probes
pub mod Metrics
pub mod Cardinality
pub mod Configured
use openshift_online_rosa_e.Base.{ℕ, String, Bool, not, ◌&&◌, ◌==◌, List, Result, Option}
use openshift_online_rosa_e.Config.{Config}
use openshift_online_rosa_e.Unstructured.{Fields}
use openshift_online_rosa_e.Verifiers.Conditions.{ApiError}
use openshift_online_rosa_e.Verifiers.Http.{Response}

-- `RHOBSProbe`
pub record RhobsProbe : Type 0 where
  pub id : String
  pub static_url : String
  pub labels : Fields
  pub status : String

-- `RHOBSConfig`
pub record RhobsConfig : Type 0 where
  pub probe_api_url : String
  pub metrics_api_url : String
  pub oidc_client_id : String
  pub oidc_client_secret : String
  pub oidc_issuer_url : String

-- `NewRHOBSConfig`
abbrev pub new_rhobs_config : Config → RhobsConfig
new_rhobs_config cfg = record {
  probe_api_url = cfg.rhobs_probe_api_url;
  metrics_api_url = cfg.rhobs_metrics_api_url;
  oidc_client_id = cfg.rhobs_oidc_client_id;
  oidc_client_secret = cfg.rhobs_oidc_client_secret;
  oidc_issuer_url = cfg.rhobs_oidc_issuer_url;
}

-- `IsConfigured`
abbrev pub is_configured : RhobsConfig → Bool
is_configured rc =
    not (rc.probe_api_url == "")
    && not (rc.oidc_client_id == "")
    && not (rc.oidc_client_secret == "")
    && not (rc.oidc_issuer_url == "")

pub data RhobsError : Type 0 where
  creating_request requesting reading_body decoding : ApiError → RhobsError
  bad_status : Response → RhobsError
  server_error : ℕ → Response → RhobsError
  attempt_failed : ℕ → ApiError → RhobsError
  after_attempts : ℕ → RhobsError → RhobsError
  getting_token querying : RhobsError → RhobsError

-- The outside
pub record RhobsWorld (World : Type 0) : Type 0 where
  -- `http.NewRequestWithContext`, which reads nothing but the address
  pub new_request : String → Option ApiError
  -- A POST of a form to an address
  pub post_form : String → List (String × String) → World → Result ApiError Response × World
  -- A GET of an address, with a bearer token or without
  pub get : Option String → String → World → Result ApiError Response × World
  pub sleep : ℕ → World → World
  -- `json.Unmarshal` into the struct with `access_token`, a list of probes, and the struct with `probes`
  pub unmarshal_token : String → Result ApiError String
  pub unmarshal_probes : String → Result ApiError (List RhobsProbe)
  pub unmarshal_wrapper : String → Result ApiError (List RhobsProbe)
  -- The decoding of an answer of the metrics API
  pub decode_metrics : Response → Result ApiError Fields
