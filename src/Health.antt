-- ===== src/Health.antt =====
-- The health endpoints: internal/server/health.go.
pub mod Probes
pub mod Arrival
