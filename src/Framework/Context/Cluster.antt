-- ===== src/Framework/Context/Cluster.antt =====
-- pkg/framework/context.go: what is asked of OCM about the cluster, and the tests on the topology.
use openshift_online_rosa_e.Base.{
  String, ◌≡◌, ◌≢◌, sym, ap, ◌∙◌, Bool, true, false, ◌==◌, eq_iff, Result, ok, err, if◌then◌else◌,
}
use openshift_online_rosa_e.Base.Text.Equality.{==-eq-false}
use openshift_online_rosa_e.Framework.Ocm.{OcmError}
use openshift_online_rosa_e.Framework.Context.{
  TestContext, ContextError, topology, getting_cluster, no_infra_id, no_operator_role_prefix,
}
use openshift_online_rosa_e.Framework.Context.Caching.{topology-settled}

-- A cluster's record in OCM, by what is read of it here
pub record OcmCluster : Type 0 where
  pub infra_id : String
  pub operator_role_prefix : String

abbrev pub required : ContextError → String → Result ContextError String
required missing s = if s == "" then err missing else ok s

-- `ResolveInfraID`, from the answer of OCM
unfoldable pub resolve_infra_id :
    TestContext → Result String OcmCluster → Result ContextError String
resolve_infra_id tc (err e) = err (getting_cluster e)
resolve_infra_id tc (ok cluster) = required (no_infra_id tc.cfg.cluster_id) cluster.infra_id

-- `ResolveOperatorRolePrefix`, from the answer of OCM
unfoldable pub resolve_operator_role_prefix :
    TestContext → Result String OcmCluster → Result ContextError String
resolve_operator_role_prefix tc (err e) = err (getting_cluster e)
resolve_operator_role_prefix tc (ok cluster) =
    required (no_operator_role_prefix tc.cfg.cluster_id) cluster.operator_role_prefix

abbrev pub answers : String → String × TestContext → Bool × TestContext
answers name (found, tc) = (found == name, tc)

-- `IsHCP`, `IsClassic` and `IsOSDGCP`
abbrev pub is_hcp : (String → Result OcmError String) → TestContext → Bool × TestContext
is_hcp detect tc = answers "hcp" (topology detect tc)

abbrev pub is_classic : (String → Result OcmError String) → TestContext → Bool × TestContext
is_classic detect tc = answers "classic" (topology detect tc)

abbrev pub is_osd_gcp : (String → Result OcmError String) → TestContext → Bool × TestContext
is_osd_gcp detect tc = answers "osd-gcp" (topology detect tc)

settled_answer :
    (name other : String) (p q : String × TestContext)
    → q ≡ p
    → (answers name p).0 ≡ true
    → name ≢ other
    → ((answers name q).0 ≡ true) × ((answers other q).0 ≡ false)
settled_answer name other (found, tc) q same h differ =
    let named = (eq_iff found name).0 h in
    (
      ap (λ r. (answers name r).0) same ∙ h,
      ap (λ r. (answers other r).0) same ∙ ==-eq-false found other (λ e. differ (sym named ∙ e)),
    )

-- A cluster that was found to have hosted control planes stays so: whatever OCM would say later, IsHCP is
-- true again, and IsClassic and IsOSDGCP are false.
pub is_hcp-settled :
    (detect later : String → Result OcmError String) (tc : TestContext)
    → (is_hcp detect tc).0 ≡ true
    → ((is_hcp later (is_hcp detect tc).1).0 ≡ true)
      × ((is_classic later (is_hcp detect tc).1).0 ≡ false)
      × ((is_osd_gcp later (is_hcp detect tc).1).0 ≡ false)
is_hcp-settled detect later tc h =
    let found = (eq_iff (topology detect tc).0 "hcp").0 h in
    let same = topology-settled detect later tc (λ e. cc (found, e)) in
    let classic =
      settled_answer "hcp" "classic" (topology detect tc) (topology later (topology detect tc).1)
        same h (λ e. cc) in
    let gcp =
      settled_answer "hcp" "osd-gcp" (topology detect tc) (topology later (topology detect tc).1)
        same h (λ e. cc) in
    (classic.0, classic.1, gcp.1)
