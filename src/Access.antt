-- ===== src/Access.antt =====
-- Who may do what: internal/auth (context.go, permissions.go, and the role of a token in
-- middleware.go), and the case roles of internal/cases/roles.go.
pub mod Roles
pub mod Gates
pub mod Revoked
pub mod Keys
pub mod Tokens
pub mod Named
pub mod Stored
pub mod Origin
pub mod Carried
pub mod Authentic
