-- ===== src/Governance.antt =====
-- svc-forum/src/lib/governance.ts.
pub mod Lifecycle
pub mod Visibility
pub mod Orchestration
