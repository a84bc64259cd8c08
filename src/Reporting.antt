-- ===== src/Reporting.antt =====
-- pkg/reporting/sippy.go and test/e2e/sippy_signals.go: from the report of a suite to the three
-- signals that Sippy reads, and to their JUnit file.
pub mod Sippy
pub mod Signals
pub mod Hook
mod Tests
