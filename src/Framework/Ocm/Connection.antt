-- ===== src/Framework/Ocm/Connection.antt =====
-- pkg/framework/ocm.go and pkg/config/config.go together: a loaded configuration gives a connection that
-- can authenticate.
use openshift_online_rosa_e.Base.{String, ◌≡◌, ◌≢◌, refl, ok, some, ◌⊎◌, inl, inr}
use openshift_online_rosa_e.Config.{Config, Sources, load}
use openshift_online_rosa_e.Config.Precedence.{HasCredentials, load-HasCredentials}
use openshift_online_rosa_e.Base.Text.Equality.{==-eq-false}
use openshift_online_rosa_e.Framework.Ocm.{Builder, new_ocm_connection}

-- The builder has a token, or a client with a secret for the client-credentials grant.
abbrev pub CanAuthenticate : Builder → Type 0
CanAuthenticate builder =
    ((token : String) × (token ≢ "") × (builder.tokens ≡ some token))
    ⊎ ((builder.client.0 ≢ "") × (builder.client.1 ≢ ""))

HasCredentials-CanAuthenticate :
    (getenv : String → String) (cfg : Config)
    → HasCredentials cfg
    → CanAuthenticate (new_ocm_connection getenv cfg)
unfolding new_ocm_connection
HasCredentials-CanAuthenticate getenv cfg (inl token) =
    inl (cfg.ocm_token, token, rw (==-eq-false cfg.ocm_token "" token) refl)
HasCredentials-CanAuthenticate getenv cfg (inr (id, secret)) = inr (
    rw (==-eq-false cfg.ocm_client_id "" id, ==-eq-false cfg.ocm_client_secret "" secret)
      (id, secret))

-- Whatever the sources, NewOCMConnection builds a connection out of the configuration that Load returns
-- with a token that is not empty, or with a client whose ID and secret are not empty.
pub load-new_ocm_connection :
    (sources : Sources) (cfg : Config)
    → load sources ≡ ok cfg
    → CanAuthenticate (new_ocm_connection sources.getenv cfg)
load-new_ocm_connection sources cfg h =
    HasCredentials-CanAuthenticate sources.getenv cfg (load-HasCredentials sources cfg h)
