-- ===== src/Cases.antt =====
-- Case management: internal/cases (models.go, service.go, repository.go, handler.go, export.go,
-- export_handler.go) over the table cases. Texts are compared whole; trimming, escaping and the
-- reference code's expression are the standard library's.
pub mod Model
pub mod Service
pub mod Effects
pub mod Frozen
pub mod Hold
pub mod Lists
pub mod Descending
pub mod Walk
pub mod Requests
pub mod Served
pub mod Archive
pub mod Export
pub mod Exported
pub mod Certified
