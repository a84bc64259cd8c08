-- ===== src/Framework/Context/Clients.antt =====
-- pkg/framework/context.go: what the initializers leave behind.
use openshift_online_rosa_e.Base.{
  String, ◌≡◌, refl, ◌∙◌, true, ◌==◌, Result, ok, err, Result-cases, Option, none, some, Bool-cases,
  inl, inr,
}
use openshift_online_rosa_e.Framework.Ocm.{OcmError}
use openshift_online_rosa_e.Framework.Hcp.{HcpNamespaces, HcpError}
use openshift_online_rosa_e.Framework.Context.{
  Client, TestContext, Services, topology, remember, has_rhobs_access, store_rhobs, load_from,
  check_rhobs, with_rhobs, load_rhobs_credentials_from_mc, keep_namespaces, resolve_namespaces_of,
  resolve_namespaces, store_mc_clients, init_mc_clients, management_cluster_id, resolve_kubeconfig,
}

check_rhobs-ok :
    (services : Services) (tc : TestContext)
    → (check_rhobs services tc).0 ≡ ok tt
    → has_rhobs_access (check_rhobs services tc).1.cfg ≡ true
check_rhobs-ok services tc h = elim (Bool-cases (has_rhobs_access tc.cfg)) [
  | inl has ↦ rw has has
  | inr lacks ↦ cc (lacks, rw lacks at h)
]

store_rhobs-ok :
    (services : Services) (answer : Result String (String → String)) (tc : TestContext)
    → (store_rhobs services answer tc).0 ≡ ok tt
    → has_rhobs_access (store_rhobs services answer tc).1.cfg ≡ true
store_rhobs-ok services (err e) tc h = cc
store_rhobs-ok services (ok fields) tc h =
    check_rhobs-ok services (record tc { cfg = with_rhobs services fields tc.cfg }) h

load_from-ok :
    (services : Services) (client : Option Client) (tc : TestContext)
    → (load_from services client tc).0 ≡ ok tt
    → has_rhobs_access (load_from services client tc).1.cfg ≡ true
load_from-ok services none tc h = cc
load_from-ok services (some client) tc h = store_rhobs-ok services (services.config_map client) tc h

-- When LoadRHOBSCredentialsFromMC succeeds, all four settings of the RHOBS API are there.
pub load_rhobs_credentials_from_mc-has_rhobs_access :
    (services : Services) (tc : TestContext)
    → (load_rhobs_credentials_from_mc services tc).0 ≡ ok tt
    → has_rhobs_access (load_rhobs_credentials_from_mc services tc).1.cfg ≡ true
unfolding load_rhobs_credentials_from_mc
load_rhobs_credentials_from_mc-has_rhobs_access services tc h =
    elim (Bool-cases (has_rhobs_access tc.cfg)) [
      | inl has ↦ rw has has
      | inr lacks ↦ rw lacks (load_from-ok services tc.mc_kube_client tc (rw lacks at h))
    ]

-- The management cluster's clients are there.
pub record HasMcClients (services : Services) (tc : TestContext) : Type 0 where
  pub rest_config : Client
  pub kube_client : Client
  pub dynamic_client : Client
  pub rest_stored : tc.mc_rest_config ≡ some rest_config
  pub kube_stored : tc.mc_kube_client ≡ some kube_client
  pub dynamic_stored : tc.mc_dynamic_client ≡ some dynamic_client
  pub kube_made : services.new_kube_client rest_config ≡ ok kube_client
  pub dynamic_made : services.new_dynamic_client rest_config ≡ ok dynamic_client

-- The resolution of the namespaces leaves the clients.
record SameClients (a b : TestContext) : Type 0 where
  rest : a.mc_rest_config ≡ b.mc_rest_config
  kube : a.mc_kube_client ≡ b.mc_kube_client
  dynamic : a.mc_dynamic_client ≡ b.mc_dynamic_client

same_clients : (tc : TestContext) → SameClients tc tc
same_clients tc = record { rest = refl; kube = refl; dynamic = refl }

topology-SameClients :
    (detect : String → Result OcmError String) (tc : TestContext)
    → SameClients (topology detect tc).1 tc
unfolding topology
topology-SameClients detect tc = elim (Bool-cases (tc.topology == "")) [
  | inr cached ↦ rw cached (same_clients tc)
  | inl unknown ↦ elim (Bool-cases (tc.cfg.cluster_topology == "")) [
    | inr configured ↦
        rw (unknown, configured) (record { rest = refl; kube = refl; dynamic = refl })
    | inl unset ↦ elim (Bool-cases (tc.cfg.cluster_id == "")) [
      | inl alone ↦ rw (unknown, unset, alone) (same_clients tc)
      | inr cluster ↦ rw (unknown, unset, cluster) (kept (detect tc.cfg.cluster_id))
    ]
  ]
]
  where
    kept : (answer : Result OcmError String) → SameClients (remember tc answer).1 tc
    kept (err e) = same_clients tc
    kept (ok t) = record { rest = refl; kube = refl; dynamic = refl }

keep_namespaces-SameClients :
    (services : Services) (tc : TestContext) (answer : Result HcpError HcpNamespaces)
    → SameClients (keep_namespaces services tc answer) tc
keep_namespaces-SameClients services tc (ok n) = record { rest = refl; kube = refl; dynamic = refl }
keep_namespaces-SameClients services tc (err e) = same_clients tc

trans_same : {a b c : TestContext} → SameClients a b → SameClients b c → SameClients a c
trans_same h k = record {
  rest = h.rest ∙ k.rest;
  kube = h.kube ∙ k.kube;
  dynamic = h.dynamic ∙ k.dynamic;
}

resolve_namespaces_of-SameClients :
    (services : Services) (dyn : Client) (p : String × TestContext)
    → SameClients (resolve_namespaces_of services dyn p) p.1
resolve_namespaces_of-SameClients services dyn (t, tc) = elim (Bool-cases (t == "hcp")) [
  | inl hcp ↦ rw hcp (keep_namespaces-SameClients services tc _)
  | inr other ↦ rw other (same_clients tc)
]

resolve_namespaces-SameClients :
    (services : Services) (dyn : Client) (tc : TestContext)
    → SameClients (resolve_namespaces services dyn tc) tc
unfolding resolve_namespaces
resolve_namespaces-SameClients services dyn tc = elim (Bool-cases (tc.cfg.cluster_id == "")) [
  | inl alone ↦ rw alone (same_clients tc)
  | inr cluster ↦ rw cluster (
      trans_same
        (resolve_namespaces_of-SameClients services dyn
          (topology services.detect_cluster_topology tc))
        (topology-SameClients services.detect_cluster_topology tc))
]

store_mc_clients-HasMcClients :
    (services : Services) (mc_id : String) (tc : TestContext)
    → (store_mc_clients services (ok mc_id) tc).0 ≡ ok tt
    → HasMcClients services (store_mc_clients services (ok mc_id) tc).1
store_mc_clients-HasMcClients services mc_id tc h =
    elim (Result-cases (resolve_kubeconfig services "MC_KUBECONFIG" mc_id)) [
      | inr (e, k) ↦ cc (k, rw k at h)
      | inl (rest, k) ↦ elim (Result-cases (services.new_kube_client rest)) [
        | inr (e, l) ↦ cc (l, rw (k, l) at h)
        | inl (kube, l) ↦ elim (Result-cases (services.new_dynamic_client rest)) [
          | inr (e, m) ↦ cc (m, rw (k, l, m) at h)
          | inl (dynamic, m) ↦ rw (k, l, m) (stored rest kube dynamic l m)
        ]
      ]
    ]
  where
    stored :
        (rest kube dynamic : Client)
        → services.new_kube_client rest ≡ ok kube
        → services.new_dynamic_client rest ≡ ok dynamic
        → HasMcClients services (
            resolve_namespaces services dynamic (record tc {
              mc_rest_config = some rest;
              mc_kube_client = some kube;
              mc_dynamic_client = some dynamic;
            }))
    stored rest kube dynamic l m =
        let same = resolve_namespaces-SameClients services dynamic (record tc {
          mc_rest_config = some rest;
          mc_kube_client = some kube;
          mc_dynamic_client = some dynamic;
        }) in
        record {
          rest_config = rest;
          kube_client = kube;
          dynamic_client = dynamic;
          rest_stored = same.rest;
          kube_stored = same.kube;
          dynamic_stored = same.dynamic;
          kube_made = l;
          dynamic_made = m;
        }

-- When InitMCClients succeeds, the configuration of the management cluster and the two clients made out
-- of it are stored, whether or not the namespaces of the hosted cluster could be resolved.
pub init_mc_clients-HasMcClients :
    (services : Services) (tc : TestContext)
    → (init_mc_clients services tc).0 ≡ ok tt
    → HasMcClients services (init_mc_clients services tc).1
unfolding init_mc_clients
init_mc_clients-HasMcClients services tc h =
    elim (Result-cases (management_cluster_id services tc)) [
      | inr (e, k) ↦ cc (k, rw k at h)
      | inl (mc_id, k) ↦ rw k (store_mc_clients-HasMcClients services mc_id tc (rw k at h))
    ]
