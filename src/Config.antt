-- ===== src/Config.antt =====
-- The configuration of the server: internal/config (config.go).
pub mod Load
pub mod Valid
pub mod View
