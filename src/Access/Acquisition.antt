-- ===== src/Access/Acquisition.antt =====
-- src/access/acquisition: a registered workload proves who it is and gets a bearer for one field,
-- which is read once.
pub mod Proof
pub mod State
pub mod Issue
pub mod Trace
mod Runs
