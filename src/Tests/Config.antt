-- ===== src/Tests/Config.antt =====
-- An environment that is accepted, and one configuration under two sets of keys.
use vault_keeper.Prelude.{
  refl, String, Bool, true, [], ◌∷◌, none, some, ◌==◌, string_eq, if◌then◌else◌, ◌||◌,
}
use vault_keeper.Prelude.Int.{pos}
use vault_keeper.Config.Load.{
  Ext, load_from_env, read_config, checks, read_positive, read_port, validate_url,
  validate_database_url,
}
use vault_keeper.Config.Valid.{Usable, load_from_env-Usable}
use vault_keeper.Config.View.{Secrets}

abbrev ext : Ext
ext = record {
  trim_space = λ s. s;
  split_comma = λ s. s ∷ [];
  is_postgres = λ s. true;
  parse_url = λ s. some (record { scheme = "https"; host = "host" });
  parse_bool = λ s. some (s == "true");
  atoi = λ s. some (pos 8443);
  parse_int = λ s. none;
  parse_level = λ s. none;
  compiles = λ s. true;
}

-- Variables that are left to their defaults.
abbrev unset : String → Bool
unset name =
    name == "MAX_UPLOAD_SIZE"
    || (name == "LOG_LEVEL" || (name == "SMTP_HOST" || name == "CORS_ORIGINS"))

abbrev getenv : String → String
getenv name =
    if unset name
    then ""
    else if name == "APP_ENV"
    then "production"
    else if name == "TSA_ENABLED"
    then "true"
    else "set"

load_from_env-Usable_example : Usable ext (read_config ext getenv)
unfolding load_from_env checks read_config read_positive read_port validate_url
    validate_database_url
load_from_env-Usable_example = load_from_env-Usable ext getenv {c = read_config ext getenv} refl

abbrev secrets : String → Secrets
secrets s = record {
  database_url = s;
  minio_access_key = s;
  minio_secret_key = s;
  meilisearch_api_key = s;
  smtp_password = s;
  witness_encryption_key = s;
  master_encryption_key = s;
  backup_enc_key = s;
}
