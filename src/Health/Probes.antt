-- ===== src/Health/Probes.antt =====
-- The four probes, the status that they add up to, the cached result and the two endpoints. What a
-- probe meets is an argument; the formatting of a time is a parameter.
use vault_keeper.Prelude.{
  ℕ, ◌-◌, ◌/◌, String, Bool, false, ◌||◌, List, [], ◌∷◌, Option, none, some, ltb, ◌==◌, nat_eq,
  string_eq, if◌then◌else◌,
}
use vault_keeper.Custody.{Time}

abbrev pub status_healthy : String
status_healthy = "healthy"

abbrev pub status_degraded : String
status_degraded = "degraded"

abbrev pub status_unhealthy : String
status_unhealthy = "unhealthy"

abbrev pub service_connected : String
service_connected = "connected"

abbrev pub service_disconnected : String
service_disconnected = "disconnected"

pub record DetailedHealth : Type 0 where
  pub status : String
  pub version : String
  pub postgres : String
  pub minio : String
  pub meilisearch : String
  pub keycloak : String
  pub evidence_count : ℕ
  pub disk_usage_percent : ℕ
  pub uptime_seconds : ℕ
  pub last_backup : String
  pub backup_status : String

pub record ServiceCheck : Type 0 where
  pub name : String
  pub status : String

-- What an HTTP probe meets: an error, or the status of the answer.
abbrev pub Answer : Type 0
Answer = Option ℕ

-- What the probes meet; the counter and the backups are optional parts that may fail.
pub record World : Type 0 where
  pub ping : Bool
  pub bucket_exists : Option Bool
  pub search : Answer
  pub keycloak : Answer
  pub evidence : Option (Option ℕ)
  pub backup : Option (Option (Time × String))

pub record HealthHandler : Type 0 where
  pub version : String
  pub start_time : Time
  pub cache_ttl : ℕ
  pub rfc3339 : Time → String

abbrev pub connection : Bool → String
connection up = if up then service_connected else service_disconnected

abbrev pub bucket_up : Option Bool → Bool
bucket_up none = false
bucket_up (some exists) = exists

abbrev pub answer_up : Answer → Bool
answer_up none = false
answer_up (some status) = status == 200

unfoldable pub check_postgres : World → ServiceCheck
check_postgres w = record { name = "postgres"; status = connection w.ping }

unfoldable pub check_minio : World → ServiceCheck
check_minio w = record { name = "minio"; status = connection (bucket_up w.bucket_exists) }

unfoldable pub check_meilisearch : World → ServiceCheck
check_meilisearch w = record { name = "meilisearch"; status = connection (answer_up w.search) }

unfoldable pub check_keycloak : World → ServiceCheck
check_keycloak w = record { name = "keycloak"; status = connection (answer_up w.keycloak) }

-- The four sends into the channel.
abbrev pub sent : World → List ServiceCheck
sent w = check_postgres w ∷ check_minio w ∷ check_meilisearch w ∷ check_keycloak w ∷ []

-- `services[sc.name] = sc.status`, over what is received, in its order.
abbrev pub put : ServiceCheck → (String → String) → String → String
put sc services name = if sc.name == name then sc.status else services name

unfoldable pub collect : List ServiceCheck → (String → String) → String → String
collect [] services = services
collect (sc ∷ scs) services = collect scs (put sc services)

unfoldable pub overall_status : (String → String) → String
overall_status services =
    let down : String → Bool = λ name. services name == service_disconnected in
    if down "postgres" || down "minio"
    then status_unhealthy
    else if down "meilisearch" || down "keycloak"
    then status_degraded
    else status_healthy

abbrev counted : Option (Option ℕ) → ℕ
counted (some (some n)) = n
counted _ = 0

abbrev backed_up : (Time → String) → Option (Option (Time × String)) → String × String
backed_up format (some (some (at, status))) = (format at, status)
backed_up format _ = ("", "")

abbrev uptime : HealthHandler → Time → ℕ
uptime h now = (now - h.start_time) / 1000000000

-- The result of what the channel delivers.
unfoldable pub run_checks : HealthHandler → World → Time → List ServiceCheck → DetailedHealth
run_checks h w now received =
    let services = collect received (λ name. "") in
    record {
      status = overall_status services;
      version = h.version;
      postgres = services "postgres";
      minio = services "minio";
      meilisearch = services "meilisearch";
      keycloak = services "keycloak";
      evidence_count = counted w.evidence;
      disk_usage_percent = 0;
      uptime_seconds = uptime h now;
      last_backup = (backed_up h.rfc3339 w.backup).0;
      backup_status = (backed_up h.rfc3339 w.backup).1;
    }

abbrev pub Cache : Type 0
Cache = Option (DetailedHealth × Time)

unfoldable pub refresh :
    HealthHandler → World → Time → List ServiceCheck → Cache → DetailedHealth × Cache
refresh h w now received cache =
    let result = run_checks h w now received in (result, some (result, now))

-- A result younger than the bound is returned with a new uptime.
unfoldable pub get_or_refresh_health :
    HealthHandler → World → Time → List ServiceCheck → Cache → DetailedHealth × Cache
get_or_refresh_health h w now received none = refresh h w now received none
get_or_refresh_health h w now received (some (result, cached_at)) =
    if ltb (now - cached_at) h.cache_ttl
    then (record result { uptime_seconds = uptime h now }, some (result, cached_at))
    else refresh h w now received (some (result, cached_at))

unfoldable pub http_status_for_health : String → ℕ
http_status_for_health status =
    if status == status_healthy || status == status_degraded then 200 else 503

abbrev public_status : DetailedHealth → String
public_status r =
    if r.postgres == service_disconnected || r.minio == service_disconnected
    then status_unhealthy
    else status_healthy

-- GET /health: the status of the answer, and the text that it shows.
unfoldable pub public_health_check :
    HealthHandler → World → Time → List ServiceCheck → Cache → (ℕ × String) × Cache
public_health_check h w now received cache =
    let (result, after) = get_or_refresh_health h w now received cache in
    let status = public_status result in ((http_status_for_health status, status), after)

-- GET /api/health
unfoldable pub handle_detailed_health :
    HealthHandler → World → Time → List ServiceCheck → Cache → (ℕ × DetailedHealth) × Cache
handle_detailed_health h w now received cache =
    let (result, after) = get_or_refresh_health h w now received cache in
    ((http_status_for_health result.status, result), after)
