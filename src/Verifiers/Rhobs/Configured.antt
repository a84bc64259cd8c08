-- ===== src/Verifiers/Rhobs/Configured.antt =====
-- pkg/framework/context.go and pkg/verifiers/rhobs.go together: the settings that are loaded from the
-- management cluster configure the client.
use openshift_online_rosa_e.Base.{
  String, ◌≡◌, refl, ◌∙◌, ◌⊎◌, inl, inr, true, Result, ok, err, Option, none, some, Bool-cases,
  arith,
}
use openshift_online_rosa_e.Config.{Config}
use openshift_online_rosa_e.Framework.Context.{
  Client, TestContext, Services, has_rhobs_access, with_rhobs, check_rhobs, store_rhobs, load_from,
  load_rhobs_credentials_from_mc,
}
use openshift_online_rosa_e.Framework.Context.Clients.{
  load_rhobs_credentials_from_mc-has_rhobs_access,
}
use openshift_online_rosa_e.Verifiers.Rhobs.{new_rhobs_config, is_configured}

is_configured-new_rhobs_config :
    (cfg : Config) → is_configured (new_rhobs_config cfg) ≡ has_rhobs_access cfg
is_configured-new_rhobs_config cfg = ground arith

-- The context has the settings of the ConfigMap that its client read, and is as before but for them.
pub record Loaded (services : Services) (tc after : TestContext) : Type 0 where
  pub client : Client
  pub has_client : tc.mc_kube_client ≡ some client
  pub fields : String → String
  pub read : services.config_map client ≡ ok fields
  pub settled : after ≡ record tc { cfg = with_rhobs services fields tc.cfg }

module _ (services : Services) (tc : TestContext) where
  check_rhobs-state : (t : TestContext) → (check_rhobs services t).1 ≡ t
  check_rhobs-state t = elim (Bool-cases (has_rhobs_access t.cfg)) [
    | inl has ↦ rw has refl
    | inr lacks ↦ rw lacks refl
  ]

  store_rhobs-Loaded :
      (client : Client) (answer : Result String (String → String))
      → tc.mc_kube_client ≡ some client
      → services.config_map client ≡ answer
      → (store_rhobs services answer tc).0 ≡ ok tt
      → Loaded services tc (store_rhobs services answer tc).1
  store_rhobs-Loaded client (err e) has_client read h = cc
  store_rhobs-Loaded client (ok fields) has_client read h = record {
    client = client;
    has_client = has_client;
    fields = fields;
    read = read;
    settled = check_rhobs-state (record tc { cfg = with_rhobs services fields tc.cfg });
  }

  load_from-Loaded :
      (found : Option Client)
      → tc.mc_kube_client ≡ found
      → (load_from services found tc).0 ≡ ok tt
      → Loaded services tc (load_from services found tc).1
  load_from-Loaded none has_client h = cc
  load_from-Loaded (some client) has_client h =
      store_rhobs-Loaded client (services.config_map client) has_client refl h

  -- When LoadRHOBSCredentialsFromMC succeeds, the client that NewRHOBSConfig makes of the context's
  -- configuration IsConfigured; the configuration was complete and is unchanged, or it has the settings of
  -- the ConfigMap that the management cluster's client read.
  pub load_rhobs_credentials_from_mc-is_configured :
      (load_rhobs_credentials_from_mc services tc).0 ≡ ok tt
      → (is_configured (new_rhobs_config ((load_rhobs_credentials_from_mc services tc).1.cfg))
          ≡ true)
        × (((load_rhobs_credentials_from_mc services tc).1 ≡ tc)
            ⊎ Loaded services tc (load_rhobs_credentials_from_mc services tc).1)
  unfolding load_rhobs_credentials_from_mc
  load_rhobs_credentials_from_mc-is_configured h = (
    is_configured-new_rhobs_config ((load_rhobs_credentials_from_mc services tc).1.cfg)
        ∙ load_rhobs_credentials_from_mc-has_rhobs_access services tc h,
    elim (Bool-cases (has_rhobs_access tc.cfg)) [
      | inl has ↦ inl (rw has refl)
      | inr lacks ↦ rw lacks (inr (load_from-Loaded tc.mc_kube_client refl (rw lacks at h)))
    ],
  )
