-- ===== src/Verifiers/ExternalAuth.antt =====
-- pkg/verifiers/external_auth.go, over a world that OCM, the issuers and the context change. The decoding
-- of JSON into the two structs is a parameter.
pub mod Providers
pub mod Reachable
use openshift_online_rosa_e.Base.{
  String, ◌<>◌, Bool, true, false, not, ◌||◌, ◌==◌, eqb, List, [], ◌∷◌, if◌then◌else◌, Result, ok,
  err, Option, none, some,
}
use openshift_online_rosa_e.Base.Io.{Io, pure, raise, proceed, within, each, ◌>>=◌, ◌>>◌}
use openshift_online_rosa_e.Base.Text.{has_prefix, to_lower, trim_slashes}
use openshift_online_rosa_e.Verifiers.Conditions.{ApiError}
use openshift_online_rosa_e.Verifiers.Http.{Response}

pub record Issuer : Type 0 where
  pub url : String
  pub audiences : List String

pub record ProviderStatus : Type 0 where
  pub state : Option String
  pub message : String

-- An external auth provider of a cluster, as OCM lists it
pub record Provider : Type 0 where
  pub id : String
  pub issuer : Option Issuer
  pub status : Option ProviderStatus

pub data ProviderError : Type 0 where
  no_issuer no_audiences : ProviderError
  not_https : String → ProviderError
  in_state : String → String → ProviderError

pub data ProbeError : Type 0 where
  building_request requesting unmarshalling : ApiError → ProbeError
  returned : String → Response → ProbeError
  fetching_discovery fetching_jwks : ProbeError → ProbeError
  no_jwks_uri : ProbeError
  no_signing_keys : String → ProbeError

pub data AuthError : Type 0 where
  getting_config listing_providers : ApiError → AuthError
  not_enabled no_providers : AuthError
  invalid_provider : String → ProviderError → AuthError
  no_issuer_url : String → AuthError
  unreachable : String → String → ProbeError → AuthError

-- The outside, for one cluster
pub record AuthWorld (World : Type 0) : Type 0 where
  -- Whether the external auth configuration is enabled
  pub get_config : World → Result ApiError Bool × World
  pub list_external_auths : World → Result ApiError (List Provider) × World
  -- `http.NewRequestWithContext`, which reads nothing but the text
  pub new_request : String → Option ApiError
  -- `client.Do`, and the part of the body that was read
  pub get : String → World → Result ApiError Response × World
  -- `json.Unmarshal` into the struct with `jwks_uri`, and into the struct with `keys`
  pub unmarshal_discovery : String → Result ApiError String
  pub unmarshal_jwks : String → Result ApiError (List String)

abbrev pub is_failed : String → Bool
is_failed state = (to_lower state == "error") || (to_lower state == "failed")

abbrev pub judge_state : String → Option String → Result ProviderError (Unit {0})
judge_state message none = ok tt
judge_state message (some state) = if is_failed state then err (in_state state message) else ok tt

abbrev pub judge_status : Option ProviderStatus → Result ProviderError (Unit {0})
judge_status none = ok tt
judge_status (some status) = judge_state status.message status.state

abbrev pub judge_audiences : List String → Option ProviderStatus → Result ProviderError (Unit {0})
judge_audiences [] status = err no_audiences
judge_audiences (audience ∷ audiences) status = judge_status status

abbrev pub judge_issuer : Option Issuer → Option ProviderStatus → Result ProviderError (Unit {0})
judge_issuer none status = err no_issuer
judge_issuer (some issuer) status =
    if not (has_prefix issuer.url "https://")
    then err (not_https issuer.url)
    else judge_audiences issuer.audiences status

-- `validateExternalAuthProvider`
unfoldable pub validate_external_auth_provider : Provider → Result ProviderError (Unit {0})
validate_external_auth_provider p = judge_issuer p.issuer p.status

abbrev pub discovery_url : String → String
discovery_url issuer = trim_slashes issuer <> "/.well-known/openid-configuration"

module _ {World : Type 0} (outside : AuthWorld World) where
  abbrev pub read_config : Result ApiError Bool × World → Result AuthError Bool × World
  read_config (ok enabled, w) = (ok enabled, w)
  read_config (err e, w) = (err (getting_config e), w)

  -- `ExternalAuthEnabled`
  unfoldable pub external_auth_enabled : Io AuthError World Bool
  external_auth_enabled w = read_config (outside.get_config w)

  abbrev pub read_providers :
      Result ApiError (List Provider) × World → Result AuthError (List Provider) × World
  read_providers (ok providers, w) = (ok providers, w)
  read_providers (err e, w) = (err (listing_providers e), w)

  abbrev pub list_providers : Io AuthError World (List Provider)
  list_providers w = read_providers (outside.list_external_auths w)

  abbrev pub named_provider :
      String → Result ProviderError (Unit {0}) → Io AuthError World (Unit {0})
  named_provider id (ok tt) w = (ok tt, w)
  named_provider id (err e) w = (err (invalid_provider id e), w)

  abbrev pub validate : Provider → Io AuthError World (Unit {0})
  validate p = named_provider p.id (validate_external_auth_provider p)

  -- Both loops, after the check that there is a provider
  unfoldable pub each_provider :
      (Provider → Io AuthError World (Unit {0})) → List Provider → Io AuthError World (Unit {0})
  each_provider body [] = raise no_providers
  each_provider body (p ∷ providers) = each body (p ∷ providers)

  abbrev pub if_enabled : Bool → Io AuthError World (Unit {0})
  if_enabled true = list_providers >>= each_provider validate
  if_enabled false = raise not_enabled

  -- `VerifyExternalAuthProviders`
  unfoldable pub verify_external_auth_providers : Io AuthError World (Unit {0})
  verify_external_auth_providers w = proceed if_enabled (read_config (outside.get_config w))

  module _ {A : Type 0} (unmarshal : String → Result ApiError A) where
    abbrev pub decoded : Result ApiError A → Io ProbeError World A
    decoded (ok a) w = (ok a, w)
    decoded (err e) w = (err (unmarshalling e), w)

    abbrev pub read_response :
        String → Result ApiError Response × World → Result ProbeError A × World
    read_response url (err e, w) = (err (requesting e), w)
    read_response url (ok response, w) =
        if not (eqb response.status 200)
        then (err (returned url response), w)
        else decoded (unmarshal response.body) w

    abbrev pub send : String → Option ApiError → Io ProbeError World A
    send url (some e) w = (err (building_request e), w)
    send url none w = read_response url (outside.get url w)

    -- `getJSON`
    unfoldable pub get_json : String → Io ProbeError World A
    get_json url = send url (outside.new_request url)

  abbrev pub require_keys : String → List String → Io ProbeError World (Unit {0})
  require_keys uri [] = raise (no_signing_keys uri)
  require_keys uri (key ∷ keys) = pure tt

  unfoldable pub fetch_keys : String → Io ProbeError World (Unit {0})
  fetch_keys uri =
      if uri == ""
      then raise no_jwks_uri
      else (within fetching_jwks (get_json outside.unmarshal_jwks uri) >>= require_keys uri)

  -- `probeOIDCIssuer`
  unfoldable pub probe_oidc_issuer : String → Io ProbeError World (Unit {0})
  probe_oidc_issuer issuer =
      within fetching_discovery (get_json outside.unmarshal_discovery (discovery_url issuer))
      >>= fetch_keys

  abbrev pub probe_issuer : String → Option Issuer → Io AuthError World (Unit {0})
  probe_issuer id none = raise (no_issuer_url id)
  probe_issuer id (some issuer) =
      if issuer.url == ""
      then raise (no_issuer_url id)
      else within (unreachable id issuer.url) (probe_oidc_issuer issuer.url)

  abbrev pub probe_provider : Provider → Io AuthError World (Unit {0})
  probe_provider p = probe_issuer p.id p.issuer

  -- `VerifyExternalAuthIssuerReachable`
  unfoldable pub verify_external_auth_issuer_reachable : Io AuthError World (Unit {0})
  verify_external_auth_issuer_reachable = list_providers >>= each_provider probe_provider
