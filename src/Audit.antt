-- ===== src/Audit.antt =====
-- The log of refused accesses: internal/audit/logger.go over the table auth_audit_log
-- (migrations/004_auth_audit_log.up.sql).
pub mod Log
pub mod Chain
