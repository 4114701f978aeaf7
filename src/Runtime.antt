-- ===== src/Runtime.antt =====
-- src/runtime: what runs beside the vault.
pub mod Audit
