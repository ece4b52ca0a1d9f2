-- ===== src/Config/Valid.antt =====
-- What the server can rely on when `LoadFromEnv` returns a configuration.
use vault_keeper.Prelude.{
  ℕ, ◌≤◌, ◌<◌, ◌≡◌, refl, subst, String, Bool, true, false, not, ◌&&◌, List, [], ◌∷◌, Option, none,
  some, ok, arith, ◌==◌, string_eq, All, Option-cases, ◌||◌, ◌⊎◌, inl, inr, Bool-cases,
}
use vault_keeper.Prelude.Int.{ℤ, pos, negsuc}
use vault_keeper.Config.Load.{
  Ext, Url, UrlError, ConfigError, Config, Checked, optional, require, require_url, read_positive,
  read_port, check_tsa, check_app_env, check_production, check_backup, known_env, validate_url,
  validate_database_url, read_config, checks, joined, load_from_env, not_integer, not_positive,
  positive, upload_size, port, accepted, default_max_upload_size,
}

joined-nil : (ess : List (List ConfigError)) → joined ess ≡ [] → All (λ es. es ≡ []) ess
joined-nil [] h = tt
joined-nil ([] ∷ ess) h = (refl, joined-nil ess h)
joined-nil ((e ∷ es) ∷ ess) h = absurd (ground arith)

require_inv : (name value : String) → require name value ≡ [] → (value == "") ≡ false
require_inv name value h = ground arith

require_url_inv :
    (ext : Ext) (validate : String → Option UrlError) (name value : String)
    → require_url ext validate name value ≡ []
    → ((value == "") ≡ false) × (validate value ≡ none)
require_url_inv ext validate name value h = elim (Option-cases (validate value)) [
  | inl n ↦ (ground arith, n)
  | inr (e, y) ↦ absurd (ground arith)
]

read_positive_inv :
    (e f : ConfigError) (default : ℕ) (parsed : Option ℤ)
    → (read_positive e f default parsed).1 ≡ []
    → 0 < (read_positive e f default parsed).0
unfolding read_positive
read_positive_inv e f default none h = absurd (ground arith)
read_positive_inv e f default (some (negsuc n)) h = absurd (ground arith)
read_positive_inv e f default (some (pos n)) h = ground arith

read_port_inv :
    (name : String) (default : ℕ) (parsed : Option ℤ)
    → (read_port name default parsed).1 ≡ []
    → (0 < (read_port name default parsed).0) × ((read_port name default parsed).0 ≤ 65535)
unfolding read_port
read_port_inv name default none h = absurd (ground arith)
read_port_inv name default (some (negsuc n)) h = absurd (ground arith)
read_port_inv name default (some (pos n)) h = ground arith

check_app_env_inv : (e : String) → check_app_env e ≡ [] → known_env e ≡ true
check_app_env_inv e h = ground arith

check_production_inv :
    (name app_env key : String)
    → check_production app_env name key ≡ []
    → (app_env == "production" && key == "") ≡ false
check_production_inv name app_env key h = ground arith

check_backup_inv :
    (destination key : String)
    → check_backup destination key ≡ []
    → (not (destination == "") && key == "") ≡ false
check_backup_inv destination key h = ground arith

optional_inv :
    {A : Type 0} (P : A → Type 0) (default : A) (value : String) (read : String → Checked A)
    → P default
    → ((read value).1 ≡ [] → P (read value).0)
    → (optional default value read).1 ≡ []
    → P (optional default value read).0
optional_inv P default value read d r h = elim (Bool-cases (value == "")) [
  | inl empty ↦ rw empty d
  | inr filled ↦ rw filled (r (ground arith))
]

-- What the checks of the texts promise.
abbrev pub Named : Ext → Config → Type 0
Named ext c =
    ((c.minio_endpoint == "") ≡ false)
    × ((c.minio_access_key == "") ≡ false)
    × ((c.minio_secret_key == "") ≡ false)
    × ((c.minio_bucket == "") ≡ false)
    × ((c.keycloak_realm == "") ≡ false)
    × ((c.keycloak_client_id == "") ≡ false)
    × ((c.meilisearch_api_key == "") ≡ false)

-- A text that parses as a URL with a host, or with a host and a scheme.
abbrev pub HasHost : Ext → String → Type 0
HasHost ext s = (u : Url) × (ext.parse_url s ≡ some u) × ((u.host == "") ≡ false)

abbrev pub IsUrl : Ext → String → Type 0
IsUrl ext s =
    (u : Url) × (ext.parse_url s ≡ some u) × ((u.scheme == "") ≡ false) × ((u.host == "") ≡ false)

abbrev pub Linked : Ext → Config → Type 0
Linked ext c =
    (ext.is_postgres c.database_url ≡ true)
    × HasHost ext c.database_url
    × IsUrl ext c.keycloak_url
    × IsUrl ext c.meilisearch_url
    × IsUrl ext c.app_url
    × (((c.tsa_enabled ≡ false) × ((c.tsa_url == "") ≡ true)) ⊎ IsUrl ext c.tsa_url)

abbrev pub Guarded : Config → Type 0
Guarded c =
    ((c.app_env == "development" || (c.app_env == "staging" || c.app_env == "production")) ≡ true)
    × ((c.app_env == "production" && c.witness_encryption_key == "") ≡ false)
    × ((c.app_env == "production" && c.master_encryption_key == "") ≡ false)
    × ((not (c.backup_destination == "") && c.backup_enc_key == "") ≡ false)

abbrev pub Bounded : Config → Type 0
Bounded c =
    (0 < c.server_port)
    × (c.server_port ≤ 65535)
    × (0 < c.smtp_port)
    × (0 < c.max_upload_size)
    × (0 < c.max_concurrent_sessions)

abbrev pub Usable : Ext → Config → Type 0
Usable ext c = Named ext c × Linked ext c × Guarded c × Bounded c

validate_url-IsUrl : (ext : Ext) (s : String) → validate_url ext s ≡ none → IsUrl ext s
unfolding validate_url
validate_url-IsUrl ext s h = elim (Option-cases (ext.parse_url s)) [
  | inl n ↦ absurd (ground arith)
  | inr (u, y) ↦ (u, y, ground arith, ground arith)
]

require_url-IsUrl :
    (ext : Ext) (name s : String) → require_url ext (validate_url ext) name s ≡ [] → IsUrl ext s
require_url-IsUrl ext name s h =
    validate_url-IsUrl ext s (require_url_inv ext (validate_url ext) name s h).1

database_url-HasHost :
    (ext : Ext) (s : String)
    → require_url ext (validate_database_url ext) "DATABASE_URL" s ≡ []
    → (ext.is_postgres s ≡ true) × HasHost ext s
unfolding validate_database_url
database_url-HasHost ext s h =
    let valid = (require_url_inv ext (validate_database_url ext) "DATABASE_URL" s h).1 in
    elim (Option-cases (ext.parse_url s)) [
      | inl n ↦ absurd (ground arith)
      | inr (u, y) ↦ (ground arith, (u, y, ground arith))
    ]

check_tsa-IsUrl :
    (ext : Ext) (enabled : Bool) (s : String)
    → check_tsa ext enabled s ≡ []
    → ((enabled ≡ false) × ((s == "") ≡ true)) ⊎ IsUrl ext s
check_tsa-IsUrl ext true s h = inr (require_url-IsUrl ext "TSA_URL" s h)
check_tsa-IsUrl ext false s h = elim (Bool-cases (s == "")) [
  | inl y ↦ inl (refl, y)
  | inr n ↦ elim (Option-cases (validate_url ext s)) [
    | inl v ↦ inr (validate_url-IsUrl ext s v)
    | inr (e, v) ↦ absurd (ground arith)
  ]
]

module _ (ext : Ext) (getenv : String → String) where
  accepted_inv :
      (es : List ConfigError) {c : Config}
      → accepted ext getenv es ≡ ok c
      → (es ≡ []) × (read_config ext getenv ≡ c)
  accepted_inv [] h = (refl, ground arith)
  accepted_inv (e ∷ es) h = absurd (ground arith)

  port_inv : (port ext getenv).1 ≡ [] → (0 < (port ext getenv).0) × ((port ext getenv).0 ≤ 65535)
  port_inv h =
      let value = ext.trim_space (getenv "SERVER_PORT") in
      optional_inv (λ n. (0 < n) × (n ≤ 65535)) 8080 value
        (λ v. read_port "SERVER_PORT" 8080 (ext.atoi v)) (omega arith, omega arith)
        (read_port_inv "SERVER_PORT" 8080 (ext.atoi value)) h

  positive_inv :
      (name : String) (default : ℕ)
      → 0 < default
      → (positive ext getenv name default).1 ≡ []
      → 0 < (positive ext getenv name default).0
  positive_inv name default d h =
      let value = ext.trim_space (getenv name) in
      optional_inv (λ n. 0 < n) default value
        (λ v. read_positive (not_integer name) (not_positive name) default (ext.atoi v)) d
        (read_positive_inv (not_integer name) (not_positive name) default (ext.atoi value)) h

  upload_size_inv : (upload_size ext getenv).1 ≡ [] → 0 < (upload_size ext getenv).0
  upload_size_inv h =
      let e = not_positive "MAX_UPLOAD_SIZE" in
      let value = ext.trim_space (getenv "MAX_UPLOAD_SIZE") in
      optional_inv (λ n. 0 < n) default_max_upload_size value
        (λ v. read_positive e e default_max_upload_size (ext.parse_int v)) (omega arith)
        (read_positive_inv e e default_max_upload_size (ext.parse_int value)) h

  read_config-Usable : All (λ es. es ≡ []) (checks ext getenv) → Usable ext (read_config ext getenv)
  unfolding checks read_config
  read_config-Usable h =
      let (
        database,
        (endpoint, (access, (secret, (bucket, (ssl, (keycloak, (realm, (client, passed)))))))),
      ) =
        h in
      let (tsa_flag, (tsa, (index, (key, (smtp, (app, (env, (level, (upload, more))))))))) =
        passed in
      let (server, (witness, (master, (sessions, (regex, (backup, u)))))) = more in
      let c = read_config ext getenv in
      (
        (
          require_inv "MINIO_ENDPOINT" c.minio_endpoint endpoint,
          require_inv "MINIO_ACCESS_KEY" c.minio_access_key access,
          require_inv "MINIO_SECRET_KEY" c.minio_secret_key secret,
          require_inv "MINIO_BUCKET" c.minio_bucket bucket,
          require_inv "KEYCLOAK_REALM" c.keycloak_realm realm,
          require_inv "KEYCLOAK_CLIENT_ID" c.keycloak_client_id client,
          require_inv "MEILISEARCH_API_KEY" c.meilisearch_api_key key,
        ),
        (
          (database_url-HasHost ext c.database_url database).0,
          (database_url-HasHost ext c.database_url database).1,
          require_url-IsUrl ext "KEYCLOAK_URL" c.keycloak_url keycloak,
          require_url-IsUrl ext "MEILISEARCH_URL" c.meilisearch_url index,
          require_url-IsUrl ext "APP_URL" c.app_url app,
          check_tsa-IsUrl ext c.tsa_enabled c.tsa_url tsa,
        ),
        (
          check_app_env_inv c.app_env env,
          check_production_inv "WITNESS_ENCRYPTION_KEY" c.app_env c.witness_encryption_key witness,
          check_production_inv "MASTER_ENCRYPTION_KEY" c.app_env c.master_encryption_key master,
          check_backup_inv c.backup_destination c.backup_enc_key backup,
        ),
        (
          (port_inv server).0,
          (port_inv server).1,
          positive_inv "SMTP_PORT" 587 (omega arith) smtp,
          upload_size_inv upload,
          positive_inv "MAX_CONCURRENT_SESSIONS" 3 (omega arith) sessions,
        ),
      )

  -- A configuration that is returned names all that is required; the URL of its database has the
  -- prefix of PostgreSQL and a host, its other URLs have a scheme and a host, that of the
  -- timestamps where they are enabled or it is set; the environment is development, staging or
  -- production, the keys of production are there in production, and the key of backups where they
  -- have a destination; the port of the server is between 1 and 65535, and the port of mail, the
  -- size of an upload and the count of sessions are positive.
  pub load_from_env-Usable : {c : Config} → load_from_env ext getenv ≡ ok c → Usable ext c
  unfolding load_from_env
  load_from_env-Usable h =
      let (none_failed, same) = accepted_inv (joined (checks ext getenv)) h in
      subst (Usable ext) same (read_config-Usable (joined-nil (checks ext getenv) none_failed))
