-- ===== src/Logging.antt =====
-- What a log line shows of a request: internal/logging (redact.go, and the fields of middleware.go).
pub mod Redact
pub mod Clean
