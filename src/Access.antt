-- ===== src/Access.antt =====
-- src/access: who may read what, for how long, and who decided so.
pub mod Grant
pub mod Capability
pub mod Request
pub mod Acquisition
