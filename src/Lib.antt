-- ===== src/Lib.antt =====
-- VaultKeeper keeps digital evidence of court cases: a Go server whose packages under internal/ hold
-- the cases, the evidence files, the chain of custody, the integrity checks and the backups. This
-- library models their logic, as the Go code writes it.
--
-- The parts and how they meet:
--   * Custody (internal/custody): every other part reports an event to a recorder (Logger), which
--     computes the event's hash over the hash of the case's newest event, inside one transaction
--     (Custody/Log from logger.go and repository.go, Custody/Hash and Custody/Verify from chain.go).
--     Custody/Pages models the read by pages.
--   * Cases (internal/cases): Cases/Model has the rows, the transition table and the repository's
--     statements, Cases/Service the service's operations with their validation. Each operation
--     takes the store and returns it with the result; an event of an operation goes to the list
--     that stands for the recorder. Cases/Lists has the pages of the list with their cursors.
--   * Backup (internal/backup): Backup/Format has the header and the frames of chunks of encrypt.go,
--     Backup/Crypt the loops of Encrypt and Decrypt over a delivered sequence of bytes, Backup/Runs a
--     run of the backup runner (runner.go) over the table backup_log and the files, Backup/Checks its
--     reads, Backup/Schedule its daily loop.
--   * Evidence (internal/evidence): Evidence/Model has the rows, inputs and file names of models.go,
--     Evidence/Repository the statements of repository.go and case_adapter.go, Evidence/Store what
--     the service acts on (tables, object storage, recorder, search index), Evidence/Service and
--     Evidence/Versions the operations of service.go. The goroutine that makes a thumbnail is an
--     operation of its own. Evidence/Listing has the lists with their filters, their pages and the
--     join on disclosures (repository.go, service.go), Evidence/Requests the handlers of handler.go
--     over them all.
--   * Integrity (internal/integrity): Integrity/Check has the hash of a file (verifier.go) and a
--     verification run (handler.go) over the evidence table and the storage, Integrity/Retry the
--     retry of timestamps and Integrity/Hex its hexadecimal digits (tsa_retry.go), and
--     Integrity/Authority the client of the authority with its attempts (tsa.go).
--   * Access (internal/auth, internal/cases/roles.go): Access/Roles has the system roles of
--     context.go and the one that middleware.go takes from a token, Access/Gates the guards of
--     permissions.go and the table case_roles with its handlers. Which row a LIMIT 1 without an
--     order returns is an argument. Access/Keys has the cache of signing keys (jwks.go), and
--     Access/Tokens the authentication of a request with it (middleware.go), which starts without
--     keys and has served other requests before.
--   * Notifications (internal/notifications): Notifications/Recipients has the recipients of an event
--     (service.go), Notifications/Notify the rows and the mail that it then makes, Notifications/Unread
--     the statements on what is read (repository.go), and Notifications/Pages the list with its cursor
--     (repository.go, handler.go). An id of a user is its text. Notifications/Mail has the queue of
--     mail with its worker and the text of a message (email.go).
--   * Search (internal/search): Search/Escape and Search/Filter have the filter and the request of
--     meilisearch.go, Search/Requests the handler, which restricts a search to the user's cases
--     (handler.go) as the table case_roles of Access/Gates gives them (case_loader.go).
--     Search/Index has the documents of the index and the reading of hits (meilisearch.go).
--   * Config (internal/config/config.go): Config/Load has the checks of LoadFromEnv, in their order,
--     and Config/View the text of a configuration.
--   * Health (internal/server/health.go): Health/Probes has the probes, the result that they add up
--     to, its cache and the two endpoints.
--   * Logging (internal/logging): Logging/Redact has the redaction of redact.go and the fields of a
--     request that middleware.go hands to it.
--   * Requests of cases (internal/cases): Cases/Requests has the six routes of handler.go behind their
--     guards, over Cases/Service and Cases/Lists; Cases/Archive the archive of a case with its files and
--     tables (export.go), Cases/Export the export and its route (export.go, export_handler.go), over
--     Evidence/Listing and Custody/Log.
--     Prelude/Replies has what an endpoint answers (internal/httputil/response.go).
--   * Reports (internal/reports): Reports/Pdf has the rows of the two reports on the chain of custody
--     and their verdict on it (pdf.go), Reports/Text the texts that they cut, and Reports/Requests
--     their routes (handler.go).
--   * Audit (internal/audit/logger.go): Audit/Log has the log of refused accesses with its hashes.
--   * Database (internal/database/migrate.go): Database/Migrate has what a run of the migrations takes
--     and gives back.
--
-- What is a parameter: SHA-256, AES-GCM, PBKDF2 and random bytes, JSON and base64, uuid, the string
-- functions of the standard library, the rounding of a timestamp column and the
-- canonical text of a UUID column. They are records of
-- functions named Ext; the theorems take what they need of them as hypotheses. Every statement that
-- the database may refuse takes a Boolean, in most parts a field of a record named Faults. The clock
-- and fresh ids are arguments.
--
-- Identifiers and times are native numbers. Loops are structural recursion, except Decrypt's, which
-- runs on fuel: the length of the input, enough since each chunk takes at least four bytes; and a
-- client that reads the pages of the cases, whose fuel is one step more than there are cases. The
-- attempts at a timestamp recurse on the attempts that are left.
--
-- Goroutines: the four probes of the health check arrive in any order (Health/Arrival), and the worker
-- that sends mail is a relation of steps, with the callers in any order between them
-- (Notifications/Mail). The writers of the audit log begin in one order and take its lock in another
-- (Audit/Log). The other parts take one request at a time; the two queries of a search may see
-- different tables.
--
-- Not modelled: the choice of a handler by the path, the reading of forms and headers, SQL as text,
-- log lines, the bytes of PDF, ZIP, thumbnails and EXIF, the clients of the object storage, the mail
-- server and the search server, the middleware of the server and its start-up, and the web client,
-- which are input and output around the logic here.
pub mod Prelude
pub mod Custody
pub mod Cases
pub mod Backup
pub mod Integrity
pub mod Evidence
pub mod Access
pub mod Notifications
pub mod Config
pub mod Health
pub mod Search
pub mod Logging
pub mod Reports
pub mod Audit
pub mod Database
pub mod Tests
