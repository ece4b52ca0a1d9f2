-- ===== src/Database.antt =====
-- The runner of migrations: internal/database/migrate.go.
pub mod Migrate
pub mod Released
