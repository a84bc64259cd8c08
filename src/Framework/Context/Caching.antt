-- ===== src/Framework/Context/Caching.antt =====
-- `Topology` of pkg/framework/context.go: what was found stays.
use openshift_online_rosa_e.Base.{
  String, ◌≡◌, ◌≢◌, refl, false, ◌==◌, eq_iff, Result, ok, err, Bool-cases, inl, inr,
}
use openshift_online_rosa_e.Base.Text.Equality.{==-eq-false}
use openshift_online_rosa_e.Framework.Ocm.{OcmError}
use openshift_online_rosa_e.Framework.Context.{TestContext, topology, remember}

-- A context that knows its topology answers with it and stays as it is.
known :
    (detect : String → Result OcmError String) (tc : TestContext)
    → tc.topology ≢ ""
    → topology detect tc ≡ (tc.topology, tc)
unfolding topology
known detect tc h = rw (==-eq-false tc.topology "" h) refl

remembered :
    (detect : String → Result OcmError String) (tc : TestContext) (answer : Result OcmError String)
    → (remember tc answer).0 ≢ ""
    → topology detect (remember tc answer).1 ≡ remember tc answer
remembered detect tc (err e) h = absurd (h refl)
remembered detect tc (ok found) h = known detect (record tc { topology = found }) h

-- Once Topology has answered with a topology, it answers with the same one again and changes nothing,
-- whatever OCM would say then.
pub topology-settled :
    (detect later : String → Result OcmError String) (tc : TestContext)
    → (topology detect tc).0 ≢ ""
    → topology later (topology detect tc).1 ≡ topology detect tc
unfolding topology
topology-settled detect later tc h = elim (Bool-cases (tc.topology == "")) [
  | inr cached ↦ rw cached (known later tc (λ e. differ e cached))
  | inl unknown ↦ elim (Bool-cases (tc.cfg.cluster_topology == "")) [
    | inr configured ↦
        rw (unknown, configured)
          (known later (record tc { topology = tc.cfg.cluster_topology })
            (λ e. differ e configured))
    | inl unset ↦ elim (Bool-cases (tc.cfg.cluster_id == "")) [
      | inr cluster ↦
          rw (unknown, unset, cluster)
            (remembered later tc (detect tc.cfg.cluster_id) (rw (unknown, unset, cluster) at h))
      | inl alone ↦ absurd ((rw (unknown, unset, alone) at h) refl)
    ]
  ]
]
  where
    differ : {s : String} → s ≡ "" → (s == "") ≡ false → ⊥
    differ {s} e k = cc ((eq_iff s "").1 e, k)
