-- ===== src/Config/View.antt =====
-- `Config.String`: what a log line shows of a configuration. The JSON of the map is a parameter.
use vault_keeper.Prelude.{ℕ, ◌≡◌, String, Bool, List, [], ◌∷◌, ◌==◌, string_eq, if◌then◌else◌}
use vault_keeper.Config.Load.{LogLevel, Config}

pub data Value : Type 0 where
  text : String → Value
  texts : List String → Value
  flag : Bool → Value
  number : ℕ → Value
  level : LogLevel → Value

unfoldable pub redact : String → String
redact value = if value == "" then "" else "[REDACTED]"

unfoldable pub string_view : Config → List (String × Value)
string_view c =
    ("DatabaseURL", text (redact c.database_url))
    ∷ ("MinIOEndpoint", text c.minio_endpoint)
    ∷ ("MinIOAccessKey", text (redact c.minio_access_key))
    ∷ ("MinIOSecretKey", text (redact c.minio_secret_key))
    ∷ ("MinIOBucket", text c.minio_bucket)
    ∷ ("MinIOUseSSL", flag c.minio_use_ssl)
    ∷ ("KeycloakURL", text c.keycloak_url)
    ∷ ("KeycloakRealm", text c.keycloak_realm)
    ∷ ("KeycloakClientID", text c.keycloak_client_id)
    ∷ ("TSAURL", text c.tsa_url)
    ∷ ("TSAEnabled", flag c.tsa_enabled)
    ∷ ("MeilisearchURL", text c.meilisearch_url)
    ∷ ("MeilisearchAPIKey", text (redact c.meilisearch_api_key))
    ∷ ("SMTPHost", text c.smtp_host)
    ∷ ("SMTPPort", number c.smtp_port)
    ∷ ("SMTPUsername", text c.smtp_username)
    ∷ ("SMTPPassword", text (redact c.smtp_password))
    ∷ ("SMTPFrom", text c.smtp_from)
    ∷ ("AppURL", text c.app_url)
    ∷ ("AppEnv", text c.app_env)
    ∷ ("LogLevel", level c.log_level)
    ∷ ("MaxUploadSize", number c.max_upload_size)
    ∷ ("ServerPort", number c.server_port)
    ∷ ("WitnessEncryptionKey", text (redact c.witness_encryption_key))
    ∷ ("MasterEncryptionKey", text (redact c.master_encryption_key))
    ∷ ("MaxConcurrentSessions", number c.max_concurrent_sessions)
    ∷ ("CaseReferenceRegex", text c.case_reference_regex)
    ∷ ("CORSOrigins", texts c.cors_origins)
    ∷ ("BackupDestination", text c.backup_destination)
    ∷ ("BackupEncKey", text (redact c.backup_enc_key))
    ∷ ("ArchiveStorageBucket", text c.archive_storage_bucket)
    ∷ ("ArchiveStoragePath", text c.archive_storage_path)
    ∷ ("AdminUserIDs", texts c.admin_user_ids)
    ∷ []

-- The fields that hold a password or a key; the URL of the database has a password in it.
pub record Secrets : Type 0 where
  pub database_url : String
  pub minio_access_key : String
  pub minio_secret_key : String
  pub meilisearch_api_key : String
  pub smtp_password : String
  pub witness_encryption_key : String
  pub master_encryption_key : String
  pub backup_enc_key : String

abbrev pub with_secrets : Secrets → Config → Config
with_secrets s c = record c {
  database_url = s.database_url;
  minio_access_key = s.minio_access_key;
  minio_secret_key = s.minio_secret_key;
  meilisearch_api_key = s.meilisearch_api_key;
  smtp_password = s.smtp_password;
  witness_encryption_key = s.witness_encryption_key;
  master_encryption_key = s.master_encryption_key;
  backup_enc_key = s.backup_enc_key;
}

-- Both are empty, or none is.
abbrev SameSet : String → String → Type 0
SameSet a b = (a == "") ≡ (b == "")

abbrev pub AllSameSet : Secrets → Secrets → Type 0
AllSameSet s t =
    SameSet s.database_url t.database_url
    × SameSet s.minio_access_key t.minio_access_key
    × SameSet s.minio_secret_key t.minio_secret_key
    × SameSet s.meilisearch_api_key t.meilisearch_api_key
    × SameSet s.smtp_password t.smtp_password
    × SameSet s.witness_encryption_key t.witness_encryption_key
    × SameSet s.master_encryption_key t.master_encryption_key
    × SameSet s.backup_enc_key t.backup_enc_key

redact_same : (a b : String) → SameSet a b → redact a ≡ redact b
unfolding redact
redact_same a b h = rw h

-- Two configurations that differ in passwords and keys alone, where the same of these are set, are
-- shown alike.
string_view_same :
    (c : Config) (s t : Secrets)
    → AllSameSet s t
    → string_view (with_secrets s c) ≡ string_view (with_secrets t c)
unfolding string_view
string_view_same c s t (a, b, d, e, f, g, h, i) = rw (
  redact_same s.database_url t.database_url a,
  redact_same s.minio_access_key t.minio_access_key b,
  redact_same s.minio_secret_key t.minio_secret_key d,
  redact_same s.meilisearch_api_key t.meilisearch_api_key e,
  redact_same s.smtp_password t.smtp_password f,
  redact_same s.witness_encryption_key t.witness_encryption_key g,
  redact_same s.master_encryption_key t.master_encryption_key h,
  redact_same s.backup_enc_key t.backup_enc_key i,
)
