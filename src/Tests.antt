-- ===== src/Tests.antt =====
-- Runs of the modelled code on concrete inputs, and the theorems applied there.
mod Custody
mod Cases
mod Backup
mod Evidence
mod Integrity
mod Access
mod Notifications
mod Runs
mod Tokens
mod Config
mod Health
mod Logging
mod Search
mod Reports
mod Audit
mod Database
mod Authority
mod Walk
mod Exports
mod Requests
mod Mail
