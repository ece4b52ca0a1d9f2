-- ===== src/Backup.antt =====
-- Encrypted backups: internal/backup (encrypt.go). A byte is a number below 256, a buffer or a
-- reader the list of its bytes.
pub mod Format
pub mod Crypt
pub mod Frames
pub mod RoundTrip
pub mod Runs
pub mod Checks
pub mod Snapshot
pub mod Recover
pub mod Failures
pub mod Schedule
