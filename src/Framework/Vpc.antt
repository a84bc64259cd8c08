-- ===== src/Framework/Vpc.antt =====
-- pkg/framework/vpc_cleanup.go: the deletion of what a VPC holds.
pub mod Types
pub mod Calls
pub mod Tracking
pub mod Enis
pub mod Groups
pub mod Subnets
pub mod Cleanup
mod Simulated
