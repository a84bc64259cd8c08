-- ===== src/Framework/Vpc/Subnets.antt =====
-- pkg/framework/vpc_cleanup.go: `cleanupSubnets`.
pub mod Gone
pub mod Attempts
use openshift_online_rosa_e.Base.{String, none, some, List, [], ◌∷◌, length}
use openshift_online_rosa_e.Base.Io.{pure, raise, ◌>>=◌, ◌>>◌, gather}
use openshift_online_rosa_e.Framework.Vpc.Types.{
  Subnet, Ec2Client, Issue, to_string, describing_subnets, subnet_issues, found_subnets,
  subnet_deleted, subnet_issue,
}
use openshift_online_rosa_e.Framework.Vpc.Calls.{Cleanup, call, logf, paginate}

unfoldable pub report_subnets : {World : Type 0} → List Issue → Cleanup World (Unit {0})
report_subnets [] = pure tt
report_subnets (issue ∷ issues) = raise (subnet_issues (length (issue ∷ issues)) (issue ∷ issues))

module _ {World Permission : Type 0} (client : Ec2Client World Permission) where
  -- A subnet that cannot be deleted is reported, and the loop goes on.
  unfoldable pub delete_subnet : Subnet → Cleanup World (List Issue)
  delete_subnet subnet =
      let subnet_id = to_string subnet.subnet_id in
      do
        answer ← call (client.delete_subnet subnet.subnet_id)
        elim answer [
          | some e ↦ pure (subnet_issue subnet_id e ∷ [])
          | none ↦ logf (subnet_deleted subnet_id) >> pure []
        ]

  unfoldable pub cleanup_found_subnets : String → List Subnet → Cleanup World (Unit {0})
  cleanup_found_subnets vpc_id [] = pure tt
  cleanup_found_subnets vpc_id (subnet ∷ subnets) = do
    logf (found_subnets (length (subnet ∷ subnets)) vpc_id)
    delete_errors ← gather delete_subnet (subnet ∷ subnets)
    report_subnets delete_errors

  unfoldable pub cleanup_subnets : String → Cleanup World (Unit {0})
  cleanup_subnets vpc_id = do
    subnets ← paginate (client.subnet_pages vpc_id) describing_subnets
    cleanup_found_subnets vpc_id subnets
