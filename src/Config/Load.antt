-- ===== src/Config/Load.antt =====
-- `LoadFromEnv` with its checks. The environment is a function, with the empty text for a variable
-- that is not set; the parsers of the standard library are parameters.
use vault_keeper.Prelude.{
  ℕ, ◌+◌, String, Bool, true, not, ◌&&◌, ◌||◌, List, [], ◌∷◌, ◌++◌, Option, none, some, Result, ok,
  err, ltb, ◌==◌, nat_eq, string_eq, if◌then◌else◌,
}
use vault_keeper.Prelude.Int.{ℤ, pos, negsuc}

pub record Url : Type 0 where
  pub scheme : String
  pub host : String

-- `slog.Level` is an int: the four names are -4, 0, 4 and 8, and a text may add an offset to one.
abbrev pub LogLevel : Type 0
LogLevel = ℤ

abbrev level_info : LogLevel
level_info = pos 0

-- `is_postgres` is the test of the two prefixes, `parse_int` that of 64 bits.
pub record Ext : Type 0 where
  pub trim_space : String → String
  pub split_comma : String → List String
  pub is_postgres : String → Bool
  pub parse_url : String → Option Url
  pub parse_bool : String → Option Bool
  pub atoi : String → Option ℤ
  pub parse_int : String → Option ℤ
  pub parse_level : String → Option LogLevel
  pub compiles : String → Bool

pub data UrlError : Type 0 where
  bad_prefix not_a_url no_host no_scheme_or_host : UrlError

-- The messages of the validation, with the variable that they name.
pub data ConfigError : Type 0 where
  required : String → ConfigError
  bad_url : String → UrlError → ConfigError
  not_boolean not_integer not_positive not_a_port not_a_level not_a_regexp : String → ConfigError
  bad_app_env : ConfigError
  required_in_production : String → ConfigError
  backup_key_required : ConfigError

pub data Warning : Type 0 where
  smtp_partial : Warning

pub record Config : Type 0 where
  pub database_url : String
  pub minio_endpoint : String
  pub minio_access_key : String
  pub minio_secret_key : String
  pub minio_bucket : String
  pub minio_use_ssl : Bool
  pub keycloak_url : String
  pub keycloak_realm : String
  pub keycloak_client_id : String
  pub tsa_url : String
  pub tsa_enabled : Bool
  pub meilisearch_url : String
  pub meilisearch_api_key : String
  pub smtp_host : String
  pub smtp_port : ℕ
  pub smtp_username : String
  pub smtp_password : String
  pub smtp_from : String
  pub app_url : String
  pub app_env : String
  pub log_level : LogLevel
  pub max_upload_size : ℕ
  pub server_port : ℕ
  pub witness_encryption_key : String
  pub master_encryption_key : String
  pub max_concurrent_sessions : ℕ
  pub case_reference_regex : String
  pub cors_origins : List String
  pub backup_destination : String
  pub backup_enc_key : String
  pub archive_storage_bucket : String
  pub archive_storage_path : String
  pub admin_user_ids : List String
  pub warnings : List Warning

abbrev pub default_max_upload_size : ℕ
default_max_upload_size = 10737418240

abbrev default_case_reference_regex : String
default_case_reference_regex = "^[A-Za-z0-9][A-Za-z0-9/._-]{1,98}[A-Za-z0-9]$"

-- A value with the errors that reading it adds.
abbrev pub Checked : Type 0 → Type 0
Checked A = A × List ConfigError

-- `if value == "" { … }`
abbrev pub require : String → String → List ConfigError
require name value = if value == "" then required name ∷ [] else []

-- A variable that is read where it is set, with its default where not.
abbrev pub optional : {A : Type 0} → A → String → (String → Checked A) → Checked A
optional default value read = if value == "" then (default, []) else read value

abbrev pub joined : List (List ConfigError) → List ConfigError
joined [] = []
joined (es ∷ ess) = es ++ joined ess

abbrev read_bool : Bool → String → Option Bool → Checked Bool
read_bool default name none = (default, not_boolean name ∷ [])
read_bool default name (some b) = (b, [])

-- An integer that is to be positive.
unfoldable pub read_positive : ConfigError → ConfigError → ℕ → Option ℤ → Checked ℕ
read_positive no_integer no_positive default none = (default, no_integer ∷ [])
read_positive no_integer no_positive default (some (negsuc n)) = (default, no_positive ∷ [])
read_positive no_integer no_positive default (some (pos n)) =
    if n == 0 then (default, no_positive ∷ []) else (n, [])

unfoldable pub read_port : String → ℕ → Option ℤ → Checked ℕ
read_port name default none = (default, not_integer name ∷ [])
read_port name default (some (negsuc n)) = (default, not_a_port name ∷ [])
read_port name default (some (pos n)) =
    if n == 0 || ltb 65535 n then (default, not_a_port name ∷ []) else (n, [])

abbrev read_level : Option LogLevel → Checked LogLevel
read_level none = (level_info, not_a_level "LOG_LEVEL" ∷ [])
read_level (some l) = (l, [])

abbrev pub known_env : String → Bool
known_env e = e == "development" || (e == "staging" || e == "production")

abbrev pub check_app_env : String → List ConfigError
check_app_env e =
    if e == "" then required "APP_ENV" ∷ [] else if known_env e then [] else bad_app_env ∷ []

-- The keys that production needs.
abbrev pub check_production : String → String → String → List ConfigError
check_production app_env name key =
    if app_env == "production" && key == "" then required_in_production name ∷ [] else []

abbrev pub check_backup : String → String → List ConfigError
check_backup destination key =
    if not (destination == "") && key == "" then backup_key_required ∷ [] else []

abbrev counted : Bool → ℕ
counted b = if b then 1 else 0

-- Some of the four fields, and not all.
unfoldable pub smtp_warnings : String → String → String → String → List Warning
smtp_warnings host username password from =
    let n =
      counted (not (host == ""))
      + counted (not (username == ""))
      + counted (not (password == ""))
      + counted (not (from == "")) in
    if ltb 0 n && ltb n 4 then smtp_partial ∷ [] else []

module _ (ext : Ext) where
  check_host : Option Url → Option UrlError
  check_host none = some not_a_url
  check_host (some u) = if u.host == "" then some no_host else none

  unfoldable pub validate_database_url : String → Option UrlError
  unfolding check_host
  validate_database_url value =
      if not (ext.is_postgres value) then some bad_prefix else check_host (ext.parse_url value)

  check_scheme : Option Url → Option UrlError
  check_scheme none = some not_a_url
  check_scheme (some u) = if u.scheme == "" || u.host == "" then some no_scheme_or_host else none

  unfoldable pub validate_url : String → Option UrlError
  unfolding check_scheme
  validate_url value = check_scheme (ext.parse_url value)

  abbrev url_errors : String → Option UrlError → List ConfigError
  url_errors name none = []
  url_errors name (some e) = bad_url name e ∷ []

  abbrev pub require_url : (String → Option UrlError) → String → String → List ConfigError
  require_url validate name value =
      if value == "" then required name ∷ [] else url_errors name (validate value)

  -- Required where the timestamps are enabled, and valid where it is set.
  abbrev pub check_tsa : Bool → String → List ConfigError
  check_tsa enabled value =
      if enabled
      then require_url validate_url "TSA_URL" value
      else if value == ""
      then []
      else url_errors "TSA_URL" (validate_url value)

  abbrev nonempty_parts : List String → List String
  nonempty_parts [] = []
  nonempty_parts (part ∷ parts) =
      let rest = nonempty_parts parts in
      if ext.trim_space part == "" then rest else ext.trim_space part ∷ rest

  unfoldable pub parse_csv : String → List String
  parse_csv value =
      if ext.trim_space value == "" then [] else nonempty_parts (ext.split_comma value)

  abbrev read_regex : String → Checked String
  read_regex value =
      if ext.compiles value
      then (value, [])
      else (default_case_reference_regex, not_a_regexp "CASE_REFERENCE_REGEX" ∷ [])

  module _ (getenv : String → String) where
    abbrev trimmed : String → String
    trimmed name = ext.trim_space (getenv name)

    abbrev pub flag : String → Checked Bool
    flag name = optional true (trimmed name) (λ v. read_bool true name (ext.parse_bool v))

    abbrev pub positive : String → ℕ → Checked ℕ
    positive name default =
        optional default (trimmed name)
          (λ v. read_positive (not_integer name) (not_positive name) default (ext.atoi v))

    -- One message for a text that is no integer and for one that is not positive.
    abbrev pub upload_size : Checked ℕ
    upload_size =
        let e = not_positive "MAX_UPLOAD_SIZE" in
        optional default_max_upload_size (trimmed "MAX_UPLOAD_SIZE")
          (λ v. read_positive e e default_max_upload_size (ext.parse_int v))

    abbrev pub port : Checked ℕ
    port = optional 8080 (trimmed "SERVER_PORT") (λ v. read_port "SERVER_PORT" 8080 (ext.atoi v))

    abbrev log_level : Checked LogLevel
    log_level = optional level_info (trimmed "LOG_LEVEL") (λ v. read_level (ext.parse_level v))

    abbrev regex : Checked String
    regex = optional default_case_reference_regex (trimmed "CASE_REFERENCE_REGEX") read_regex

    unfoldable pub read_config : Config
    read_config = record {
      database_url = trimmed "DATABASE_URL";
      minio_endpoint = trimmed "MINIO_ENDPOINT";
      minio_access_key = getenv "MINIO_ACCESS_KEY";
      minio_secret_key = getenv "MINIO_SECRET_KEY";
      minio_bucket = trimmed "MINIO_BUCKET";
      minio_use_ssl = (flag "MINIO_USE_SSL").0;
      keycloak_url = trimmed "KEYCLOAK_URL";
      keycloak_realm = trimmed "KEYCLOAK_REALM";
      keycloak_client_id = trimmed "KEYCLOAK_CLIENT_ID";
      tsa_url = trimmed "TSA_URL";
      tsa_enabled = (flag "TSA_ENABLED").0;
      meilisearch_url = trimmed "MEILISEARCH_URL";
      meilisearch_api_key = getenv "MEILISEARCH_API_KEY";
      smtp_host = trimmed "SMTP_HOST";
      smtp_port = (positive "SMTP_PORT" 587).0;
      smtp_username = trimmed "SMTP_USERNAME";
      smtp_password = getenv "SMTP_PASSWORD";
      smtp_from = trimmed "SMTP_FROM";
      app_url = trimmed "APP_URL";
      app_env = trimmed "APP_ENV";
      log_level = log_level.0;
      max_upload_size = upload_size.0;
      server_port = port.0;
      witness_encryption_key = getenv "WITNESS_ENCRYPTION_KEY";
      master_encryption_key = getenv "MASTER_ENCRYPTION_KEY";
      max_concurrent_sessions = (positive "MAX_CONCURRENT_SESSIONS" 3).0;
      case_reference_regex = regex.0;
      cors_origins = parse_csv (getenv "CORS_ORIGINS");
      backup_destination = trimmed "BACKUP_DESTINATION";
      backup_enc_key = getenv "BACKUP_ENC_KEY";
      archive_storage_bucket = trimmed "ARCHIVE_STORAGE_BUCKET";
      archive_storage_path = trimmed "ARCHIVE_STORAGE_PATH";
      admin_user_ids = parse_csv (getenv "ADMIN_USER_IDS");
      warnings =
          smtp_warnings (trimmed "SMTP_HOST") (trimmed "SMTP_USERNAME") (getenv "SMTP_PASSWORD")
            (trimmed "SMTP_FROM");
    }

    -- The checks, in the order in which the code appends their errors.
    unfoldable pub checks : List (List ConfigError)
    checks =
        let c = read_config in
        require_url validate_database_url "DATABASE_URL" c.database_url
        ∷ require "MINIO_ENDPOINT" c.minio_endpoint
        ∷ require "MINIO_ACCESS_KEY" c.minio_access_key
        ∷ require "MINIO_SECRET_KEY" c.minio_secret_key
        ∷ require "MINIO_BUCKET" c.minio_bucket
        ∷ (flag "MINIO_USE_SSL").1
        ∷ require_url validate_url "KEYCLOAK_URL" c.keycloak_url
        ∷ require "KEYCLOAK_REALM" c.keycloak_realm
        ∷ require "KEYCLOAK_CLIENT_ID" c.keycloak_client_id
        ∷ (flag "TSA_ENABLED").1
        ∷ check_tsa c.tsa_enabled c.tsa_url
        ∷ require_url validate_url "MEILISEARCH_URL" c.meilisearch_url
        ∷ require "MEILISEARCH_API_KEY" c.meilisearch_api_key
        ∷ (positive "SMTP_PORT" 587).1
        ∷ require_url validate_url "APP_URL" c.app_url
        ∷ check_app_env c.app_env
        ∷ log_level.1
        ∷ upload_size.1
        ∷ port.1
        ∷ check_production c.app_env "WITNESS_ENCRYPTION_KEY" c.witness_encryption_key
        ∷ check_production c.app_env "MASTER_ENCRYPTION_KEY" c.master_encryption_key
        ∷ (positive "MAX_CONCURRENT_SESSIONS" 3).1
        ∷ regex.1
        ∷ check_backup c.backup_destination c.backup_enc_key
        ∷ []

    abbrev pub accepted : List ConfigError → Result (List ConfigError) Config
    accepted [] = ok read_config
    accepted (e ∷ es) = err (e ∷ es)

    unfoldable pub load_from_env : Result (List ConfigError) Config
    load_from_env = accepted (joined checks)
