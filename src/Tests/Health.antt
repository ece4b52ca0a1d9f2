-- ===== src/Tests/Health.antt =====
-- Probes that answer in reverse order.
use mathlib.Core.List.{Permᴰ}
use vault_keeper.Prelude.{◌≡◌, refl, true, false, List, [], ◌∷◌, none, some}
use vault_keeper.Health.Probes.{
  ServiceCheck, World, HealthHandler, run_checks, check_postgres, check_minio, check_meilisearch,
  check_keycloak, connection, http_status_for_health,
}
use vault_keeper.Health.Arrival.{expected, run_checks_any_order}

abbrev world : World
world = record {
  ping = true;
  bucket_exists = some true;
  search = none;
  keycloak = some 200;
  evidence = some (some 7);
  backup = none;
}

abbrev handler : HealthHandler
handler = record { version = "1"; start_time = 0; cache_ttl = 60; rfc3339 = λ t. "" }

-- The storage answers first.
abbrev received : List ServiceCheck
received =
    check_minio world ∷ check_postgres world ∷ check_meilisearch world ∷ check_keycloak world ∷ []

run_checks_any_order_example :
    ((run_checks handler world 5 received).postgres ≡ connection true)
    × ((run_checks handler world 5 received).minio ≡ connection true)
    × ((run_checks handler world 5 received).meilisearch ≡ connection false)
    × ((run_checks handler world 5 received).keycloak ≡ connection true)
    × ((run_checks handler world 5 received).status ≡ expected world)
    × (http_status_for_health (run_checks handler world 5 received).status ≡ 200)
run_checks_any_order_example =
    run_checks_any_order handler world 5 {received = received} (Permᴰ.swap refl refl)
