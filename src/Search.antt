-- ===== src/Search.antt =====
-- The search of evidence: internal/search (meilisearch.go, handler.go, case_loader.go, models.go).
pub mod Escape
pub mod Filter
pub mod Requests
pub mod Scope
pub mod Index
pub mod Reindexed
