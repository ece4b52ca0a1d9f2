-- ===== src/Reports.antt =====
-- The reports of the chain of custody: internal/reports (pdf.go, handler.go), and the adapter of
-- cmd/server/main.go that hands them a case. The PDF library is a parameter that turns rows of cells
-- into bytes; fonts, colours and lines are drawing.
pub mod Text
pub mod Pdf
pub mod Verdict
pub mod Drawn
pub mod Requests
