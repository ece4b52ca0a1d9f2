-- ===== src/Evidence.antt =====
-- Evidence files: internal/evidence (models.go, service.go, repository.go, case_adapter.go,
-- handler.go) over the table evidence_items, the columns of cases that it reads, and the object
-- storage.
pub mod Model
pub mod Repository
pub mod Store
pub mod Listing
pub mod Disclosed
pub mod Service
pub mod Versions
pub mod Uploads
pub mod Pipeline
pub mod Destruction
pub mod Lineage
pub mod Requests
pub mod Answers
pub mod Typed
