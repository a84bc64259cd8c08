-- ===== src/Framework/Context/Aws.antt =====
-- pkg/framework/context.go: the AWS clients. The AWS SDK is a parameter; a configuration and a client
-- are texts.
use openshift_online_rosa_e.Base.{
  String, ◌≡◌, refl, Bool, true, false, Result, ok, err, Option, none, some,
}
use openshift_online_rosa_e.Base.Io.{Io}
use openshift_online_rosa_e.Framework.Context.{
  Client, TestContext, ContextError, loading_aws_config, no_valid_credentials,
}

pub record AwsSdk : Type 0 where
  -- `LoadDefaultConfig` for a region
  pub load_default_config : String → Result String Client
  -- `Retrieve`, with the credentials' `HasKeys`
  pub retrieve : Client → Result String Bool
  pub new_ec2 : Client → Client
  pub new_cloudtrail : Client → Client

abbrev pub is_some : {A : Type 0} → Option A → Bool
is_some none = false
is_some (some a) = true

-- `HasAWSAccess`
abbrev pub has_aws_access : TestContext → Bool
has_aws_access tc = is_some tc.ec2_client

module _ (sdk : AwsSdk) where
  -- Without an error there is no reason to give.
  abbrev pub store_aws : Client → Result String Bool → Io ContextError TestContext (Unit {0})
  store_aws config (err e) tc = (err (no_valid_credentials e), tc)
  store_aws config (ok false) tc = (err (no_valid_credentials ""), tc)
  store_aws config (ok true) tc = (
    ok tt,
    record tc {
      ec2_client = some (sdk.new_ec2 config);
      cloudtrail_client = some (sdk.new_cloudtrail config);
    },
  )

  abbrev pub with_aws_config : Result String Client → Io ContextError TestContext (Unit {0})
  with_aws_config (err e) tc = (err (loading_aws_config e), tc)
  with_aws_config (ok config) tc = store_aws config (sdk.retrieve config) tc

  -- `InitAWSClients`
  unfoldable pub init_aws_clients : Io ContextError TestContext (Unit {0})
  init_aws_clients tc = with_aws_config (sdk.load_default_config tc.cfg.aws_region) tc

  -- Both clients, made of the configuration, or none of them where the call failed
  abbrev pub AllOrNothing : TestContext → Result ContextError (Unit {0}) × TestContext → Type 0
  AllOrNothing tc (err e, after) = after ≡ tc
  AllOrNothing tc (ok tt, after) =
      (config : Client) × (sdk.load_default_config tc.cfg.aws_region ≡ ok config)
      × (sdk.retrieve config ≡ ok true)
      × (after ≡ record tc {
        ec2_client = some (sdk.new_ec2 config);
        cloudtrail_client = some (sdk.new_cloudtrail config);
      })

  stored-AllOrNothing :
      (config : Client) (found : Result String Bool) (tc : TestContext)
      → sdk.load_default_config tc.cfg.aws_region ≡ ok config
      → sdk.retrieve config ≡ found
      → AllOrNothing tc (store_aws config found tc)
  stored-AllOrNothing config (err e) tc h k = refl
  stored-AllOrNothing config (ok false) tc h k = refl
  stored-AllOrNothing config (ok true) tc h k = (config, h, k, refl)

  loaded-AllOrNothing :
      (answer : Result String Client) (tc : TestContext)
      → sdk.load_default_config tc.cfg.aws_region ≡ answer
      → AllOrNothing tc (with_aws_config answer tc)
  loaded-AllOrNothing (err e) tc h = refl
  loaded-AllOrNothing (ok config) tc h = stored-AllOrNothing config (sdk.retrieve config) tc h refl

  -- InitAWSClients stores both clients, where the configuration of the region was loaded and has
  -- credentials with keys, and otherwise fails and leaves the context as it was.
  pub init_aws_clients-AllOrNothing : (tc : TestContext) → AllOrNothing tc (init_aws_clients tc)
  unfolding init_aws_clients
  init_aws_clients-AllOrNothing tc =
      loaded-AllOrNothing (sdk.load_default_config tc.cfg.aws_region) tc refl
