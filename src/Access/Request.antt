-- ===== src/Access/Request.antt =====
-- src/access/request: an agent asks, a person decides, and the grant is issued.
pub mod Lifetime
pub mod Register
pub mod Decide
pub mod Answer
pub mod File
pub mod Trace
mod Runs
