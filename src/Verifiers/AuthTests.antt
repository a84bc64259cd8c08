-- ===== src/Verifiers/AuthTests.antt =====
-- Runs of pkg/verifiers/external_auth.go, and the theorems at their data.
use openshift_online_rosa_e.Base.{
  ℕ, ◌+◌, String, ◌≡◌, refl, ◌↔◌, true, [], ◌∷◌, ok, err, none, some, ◌==◌, if◌then◌else◌,
}
use openshift_online_rosa_e.Base.Io.{each}
use openshift_online_rosa_e.Base.Text.{has_prefix, to_lower, trim_slashes, trim_right}
use openshift_online_rosa_e.Verifiers.ExternalAuth.{
  Provider, AuthWorld, validate_external_auth_provider, each_provider, get_json, fetch_keys,
  probe_oidc_issuer, verify_external_auth_providers, verify_external_auth_issuer_reachable,
  in_state, invalid_provider,
}
use openshift_online_rosa_e.Verifiers.ExternalAuth.Providers.{
  EnabledAndListed, verify_external_auth_providers_iff,
}
use openshift_online_rosa_e.Verifiers.ExternalAuth.Reachable.{
  ListedAndPublish, verify_external_auth_issuer_reachable_iff,
}

abbrev provider : String → Provider
provider state = record {
  id = "idp";
  issuer = some (record { url = "https://idp/"; audiences = "aud" ∷ [] });
  status = some (record { state = some state; message = "no" });
}

-- An issuer that serves its two documents; the world counts the requests.
abbrev outside : String → AuthWorld ℕ
outside state = record {
  get_config = λ w. (ok true, w);
  list_external_auths = λ w. (ok (provider state ∷ []), w);
  new_request = λ url. none;
  get = λ url w. (
    ok (
        if url == "https://idp/.well-known/openid-configuration"
        then record { status = 200; body = "discovery"; read_error = none }
        else record { status = 200; body = "jwks"; read_error = none }),
    w + 1,
  );
  unmarshal_discovery = λ body. ok "https://idp/keys";
  unmarshal_jwks = λ body. ok ("key" ∷ []);
}

a_failed_state_is_found :
    (verify_external_auth_providers (outside "FAILED") 0).0
    ≡ err (invalid_provider "idp" (in_state "FAILED" "no"))
unfolding verify_external_auth_providers each_provider each validate_external_auth_provider
    has_prefix to_lower
a_failed_state_is_found = refl

verify_external_auth_providers_iff_example :
    ((verify_external_auth_providers (outside "ready") 0).0 ≡ ok tt)
    ↔ EnabledAndListed (outside "ready") ((outside "ready").get_config 0)
verify_external_auth_providers_iff_example = verify_external_auth_providers_iff (outside "ready") 0

two_requests_reach_the_keys : verify_external_auth_issuer_reachable (outside "ready") 0 ≡ (ok tt, 2)
unfolding verify_external_auth_issuer_reachable each_provider each probe_oidc_issuer get_json
    fetch_keys trim_slashes trim_right
two_requests_reach_the_keys = refl

verify_external_auth_issuer_reachable_iff_example :
    ((verify_external_auth_issuer_reachable (outside "ready") 0).0 ≡ ok tt)
    ↔ ListedAndPublish (outside "ready") ((outside "ready").list_external_auths 0)
verify_external_auth_issuer_reachable_iff_example =
    verify_external_auth_issuer_reachable_iff (outside "ready") 0
