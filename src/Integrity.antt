-- ===== src/Integrity.antt =====
-- Integrity checks: internal/integrity (handler.go, verifier.go, tsa_retry.go) over the evidence
-- table and the object storage.
pub mod Hex
pub mod Retry
pub mod Stale
pub mod Authority
pub mod Attempts
pub mod Check
pub mod Counts
