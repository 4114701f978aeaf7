-- ===== src/Access/Capability.antt =====
-- src/access/capability: issue a bounded redemption of a grant, and hand one field to the workload
-- that proves who it is.
pub mod State
pub mod Journal
pub mod Request
pub mod Redeem
pub mod Issue
pub mod Challenge
pub mod Trace
mod Runs
