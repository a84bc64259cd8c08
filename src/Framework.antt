-- ===== src/Framework.antt =====
-- pkg/framework
pub mod Vpc
pub mod Ocm
pub mod Hcp
pub mod Context
pub mod Fixtures
pub mod Upgrade
pub mod Suite
mod FixtureTests
mod Tests
