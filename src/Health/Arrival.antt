-- ===== src/Health/Arrival.antt =====
-- The order in which the probes answer does not matter.
use mathlib.Core.List.{Permᴰ}
use vault_keeper.Prelude.{
  ◌≤◌, ◌≡◌, refl, sym, ap, subst, ◌∙◌, String, Bool, true, false, ◌&&◌, List, [], ◌∷◌, arith,
  length, ◌==◌, string_eq, nat_eq, if◌then◌else◌, Bool-cases, inl, inr,
}
use vault_keeper.Custody.{Time}
use vault_keeper.Health.Probes.{
  ServiceCheck, World, HealthHandler, put, collect, sent, run_checks, overall_status,
  check_postgres, check_minio, check_meilisearch, check_keycloak, connection, bucket_up, answer_up,
  status_healthy, status_degraded, status_unhealthy, http_status_for_health,
}

-- The statuses that come under a name.
abbrev named : String → List ServiceCheck → List String
named name [] = []
named name (sc ∷ scs) =
    let rest = named name scs in if sc.name == name then sc.status ∷ rest else rest

-- The last of a list, or a value that was there before.
abbrev last_or : String → List String → String
last_or before [] = before
last_or before (s ∷ ss) = last_or s ss

put_hit :
    (sc : ServiceCheck) (services : String → String) (name : String) (ss : List String)
    → (sc.name == name) ≡ true
    → last_or (put sc services name) ss ≡ last_or sc.status ss
put_hit sc services name ss h = rw h

put_miss :
    (sc : ServiceCheck) (services : String → String) (name : String) (ss : List String)
    → (sc.name == name) ≡ false
    → last_or (put sc services name) ss ≡ last_or (services name) ss
put_miss sc services name ss h = rw h

collect-named :
    (scs : List ServiceCheck) (services : String → String) (name : String)
    → collect scs services name ≡ last_or (services name) (named name scs)
unfolding collect
collect-named [] services name = refl
collect-named (sc ∷ scs) services name =
    let rest = collect-named scs (put sc services) name in
    elim (Bool-cases (sc.name == name)) [
      | inl y ↦ rw y (rest ∙ put_hit sc services name (named name scs) y)
      | inr y ↦ rw y (rest ∙ put_miss sc services name (named name scs) y)
    ]

-- A name that comes once gives the same in every order.
named-perm :
    (name : String) {xs ys : List ServiceCheck}
    → Permᴰ xs ys
    → length (named name xs) ≤ 1
    → named name xs ≡ named name ys
named-perm name Permᴰ.nil h = refl
named-perm name (Permᴰ.cons {a = a} {b = b} {l₁ = l} {l₂ = m} e p) h =
    let rest = named-perm name p (ground arith) in rw (← e, rest)
named-perm name (Permᴰ.swap {a = a} {b = b} {l = l} e f) h = rw (← e, ← f) (ground arith)
named-perm name (Permᴰ.trans p q) h =
    let first = named-perm name p h in first ∙ named-perm name q (subst (λ l. length l ≤ 1) first h)

-- The status that the probes add up to.
abbrev pub expected : World → String
expected w =
    if w.ping && bucket_up w.bucket_exists
    then (if answer_up w.search && answer_up w.keycloak then status_healthy else status_degraded)
    else status_unhealthy

abbrev summed : Bool → Bool → Bool → Bool → String
summed a b c d =
    if a && b then (if c && d then status_healthy else status_degraded) else status_unhealthy

Agrees : (String → String) → Bool → Bool → Bool → Bool → Type 0
Agrees services a b c d =
    (services "postgres" ≡ connection a)
    × (services "minio" ≡ connection b)
    × (services "meilisearch" ≡ connection c)
    × (services "keycloak" ≡ connection d)

overall_status-summed :
    (services : String → String) (a b c d : Bool)
    → Agrees services a b c d
    → (http_status_for_health (overall_status services) ≡ (if a && b then 200 else 503))
      × (overall_status services ≡ summed a b c d)
unfolding overall_status http_status_for_health Agrees
overall_status-summed services false b c d (h, i, j, k) = (rw h, rw h)
overall_status-summed services true false c d (h, i, j, k) = (rw (h, i), rw (h, i))
overall_status-summed services true true false d (h, i, j, k) = (rw (h, i, j), rw (h, i, j))
overall_status-summed services true true true false (h, i, j, k) =
    (rw (h, i, j, k), rw (h, i, j, k))
overall_status-summed services true true true true (h, i, j, k) = (rw (h, i, j, k), rw (h, i, j, k))

module _ (w : World) (received : List ServiceCheck) (order : Permᴰ (sent w) received) where
  abbrev services : String → String
  services = collect received (λ name. "")

  service :
      (name : String)
      → length (named name (sent w)) ≤ 1
      → services name ≡ last_or "" (named name (sent w))
  service name h =
      collect-named received (λ n. "") name ∙ ap (last_or "") (sym (named-perm name order h))

  each_service :
      (services "postgres" ≡ connection w.ping)
      × (services "minio" ≡ connection (bucket_up w.bucket_exists))
      × (services "meilisearch" ≡ connection (answer_up w.search))
      × (services "keycloak" ≡ connection (answer_up w.keycloak))
  unfolding check_postgres check_minio check_meilisearch check_keycloak
  each_service = (
    service "postgres" (omega arith),
    service "minio" (omega arith),
    service "meilisearch" (omega arith),
    service "keycloak" (omega arith),
  )

  status_expected :
      (http_status_for_health (overall_status services)
        ≡ (if w.ping && bucket_up w.bucket_exists then 200 else 503))
      × (overall_status services ≡ expected w)
  unfolding Agrees
  status_expected =
      overall_status-summed services w.ping (bucket_up w.bucket_exists) (answer_up w.search)
        (answer_up w.keycloak) each_service

-- In whichever order the answers of the four probes arrive, the result shows each service as its
-- probe found it, and the status is unhealthy, with 503, where PostgreSQL or the storage is down,
-- and otherwise, with 200, degraded where the search or Keycloak is down, and healthy where none is.
pub run_checks_any_order :
    (h : HealthHandler) (w : World) (now : Time) {received : List ServiceCheck}
    → Permᴰ (sent w) received
    → ((run_checks h w now received).postgres ≡ connection w.ping)
      × ((run_checks h w now received).minio ≡ connection (bucket_up w.bucket_exists))
      × ((run_checks h w now received).meilisearch ≡ connection (answer_up w.search))
      × ((run_checks h w now received).keycloak ≡ connection (answer_up w.keycloak))
      × ((run_checks h w now received).status ≡ expected w)
      × (http_status_for_health (run_checks h w now received).status
          ≡ (if w.ping && bucket_up w.bucket_exists then 200 else 503))
unfolding run_checks
run_checks_any_order h w now {received = received} order =
    let (postgres, minio, search, keycloak) = each_service w received order in
    let (code, status) = status_expected w received order in
    (postgres, minio, search, keycloak, status, code)
