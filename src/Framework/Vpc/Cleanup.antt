-- ===== src/Framework/Vpc/Cleanup.antt =====
-- pkg/framework/vpc_cleanup.go: `CleanupVPCResources`. A failing phase ends the run.
pub mod Gone
use openshift_online_rosa_e.Base.{String}
use openshift_online_rosa_e.Base.Io.{within, ◌>>=◌, ◌>>◌}
use openshift_online_rosa_e.Framework.Vpc.Types.{
  Ec2Client, Timing, cleaning_enis, cleaning_security_groups, cleaning_subnets, cleanup_complete,
}
use openshift_online_rosa_e.Framework.Vpc.Calls.{Cleanup, logf}
use openshift_online_rosa_e.Framework.Vpc.Enis.{cleanup_enis}
use openshift_online_rosa_e.Framework.Vpc.Groups.{cleanup_security_groups}
use openshift_online_rosa_e.Framework.Vpc.Subnets.{cleanup_subnets}

module _ {World Permission : Type 0} (client : Ec2Client World Permission) (timing : Timing) where
  unfoldable pub cleanup_vpc_resources : String → Cleanup World (Unit {0})
  cleanup_vpc_resources vpc_id = do
    within (cleaning_enis vpc_id) (cleanup_enis client timing vpc_id)
    within (cleaning_security_groups vpc_id) (cleanup_security_groups client vpc_id)
    within (cleaning_subnets vpc_id) (cleanup_subnets client vpc_id)
    logf (cleanup_complete vpc_id)
