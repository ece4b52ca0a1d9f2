-- ===== src/Access/Stored.antt =====
-- What the cache of jwks.go holds: the keys of a response, stored when its request was done.
use vault_keeper.Prelude.{
  ℕ, ◌≡◌, subst, String, true, false, List, Option, none, some, Result, ok, err, sym, arith,
  if◌then◌else◌, inl, inr, Result-cases, string_eq,
}
use vault_keeper.Access.Keys.{
  PublicKey, KeyMap, CachedKeys, FetchError, KeyError, Fetch, fetched, fetch_and_cache, picked,
  force_refresh, refresh_or_fallback, fetch_key, stale, get_key, younger, cached_key, cache_ttl,
  unavailable, refresh_failed, store_keys,
}

module _ (decode : String → Option (List ℕ)) where
  -- The keys of a cache are those of the response of such a request, stored when it was done.
  abbrev pub Origin : (Fetch → Type 0) → Option CachedKeys → Type 0
  Origin Q cache =
      (cached : CachedKeys)
      → cache ≡ some cached
      → (f : Fetch) × Q f
        × (fetched decode f.response ≡ ok cached.keys)
        × (cached.fetched_at ≡ f.later)

  module _ (Q : Fetch → Type 0) where
    fetch_and_cache-Origin :
        (f : Fetch) (cache : Option CachedKeys)
        → Q f
        → Origin Q cache
        → Origin Q (fetch_and_cache decode f cache).1
    unfolding fetch_and_cache
    fetch_and_cache-Origin f cache q held =
        let After : Result FetchError KeyMap → Type 0 =
          λ x. Origin Q (store_keys decode f.later x cache).1 in
        elim (Result-cases (fetched decode f.response)) [
          | inl (keys, y) ↦ subst After (sym y) (λ cached same. (f, q, ground arith, ground arith))
          | inr (e, y) ↦ subst After (sym y) held
        ]

    picked-Origin :
        (otherwise : FetchError → Result KeyError PublicKey) (kid : String)
        (r : Result FetchError KeyMap × Option CachedKeys)
        → Origin Q r.1
        → Origin Q (picked decode otherwise kid r).1
    picked-Origin otherwise kid (err e, cache) held = held
    picked-Origin otherwise kid (ok keys, cache) held = held

    pub force_refresh-Origin :
        (f : Fetch) (kid : String) (cache : Option CachedKeys)
        → Q f
        → Origin Q cache
        → Origin Q (force_refresh decode f kid cache).1
    unfolding force_refresh
    force_refresh-Origin f kid cache q held =
        picked-Origin (λ e. err (refresh_failed e)) kid (fetch_and_cache decode f cache)
          (fetch_and_cache-Origin f cache q held)

    pub get_key-Origin :
        (f : Fetch) (kid : String) (cache : Option CachedKeys)
        → Q f
        → Origin Q cache
        → Origin Q (get_key decode f kid cache).1
    unfolding get_key fetch_key refresh_or_fallback
    get_key-Origin f kid cache q held =
        let after = fetch_and_cache-Origin f cache q held in
        let next : Option (PublicKey × CachedKeys) → Result KeyError PublicKey × Option CachedKeys =
          λ x. elim x [
            | none ↦ fetch_key decode f kid cache
            | some (key, cached) ↦
                if younger decode f.now cache_ttl cached
                then (ok key, cache)
                else refresh_or_fallback decode f kid key cache
          ] in
        elim (cached_key decode kid cache) as (λ x. Origin Q (next x).1) [
          | none ↦
              picked-Origin (λ e. err (unavailable e)) kid (fetch_and_cache decode f cache) after
          | some (key, cached) ↦
              elim (younger decode f.now cache_ttl cached)
                as (λ b.
                  Origin Q
                    (if b then (ok key, cache) else refresh_or_fallback decode f kid key cache).1) [
                      | true ↦ held
                      | false ↦
                          picked-Origin (stale decode f.later key cache) kid
                            (fetch_and_cache decode f cache) after
                    ]
        ]
