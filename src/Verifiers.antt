-- ===== src/Verifiers.antt =====
-- pkg/verifiers: the health checks. What a client answers is an argument of a check; the text of an
-- error of its own is an `ApiError`.
pub mod Conditions
pub mod Nodes
pub mod Deployments
pub mod ClusterOperators
pub mod HostedCluster
pub mod ManagedOperators
pub mod ServiceCluster
pub mod Oauth
pub mod CloudTrail
pub mod Storage
pub mod Http
pub mod Rhobs
pub mod ExternalAuth
pub mod Tags
pub mod Revision
pub mod Run
pub mod OcmRole
mod MapTests
mod AuthTests
mod RhobsTests
mod MetricsTests
mod Tests
mod ServiceTests
