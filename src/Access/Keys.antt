-- ===== src/Access/Keys.antt =====
-- The signing keys of jwks.go: the fetch, its cache, and the fallback to keys that are stale.
use vault_keeper.Prelude.{
  ℕ, ◌+◌, ◌-◌, ◌*◌, ◌^◌, ◌≤◌, ◌<◌, ◌≡◌, subst, String, Bool, not, ◌&&◌, List, [], ◌∷◌, Option, none,
  some, Result, ok, err, arith, ltb, ◌==◌, string_eq, nat_eq, if◌then◌else◌, filter, ◌⊎◌, inl, inr,
  Result-cases, Option-cases, Bool-cases,
}
use vault_keeper.Custody.{Time}

-- A public key of RSA: the modulus and the exponent.
pub record PublicKey : Type 0 where
  pub n : ℕ
  pub e : ℕ

-- The fields that the code reads.
pub record JwkKey : Type 0 where
  pub kty : String
  pub kid : String
  pub usage : String
  pub n : String
  pub e : String

abbrev pub KeyMap : Type 0
KeyMap = List (String × PublicKey)

pub record CachedKeys : Type 0 where
  pub keys : KeyMap
  pub fetched_at : Time

-- What the endpoint gives: nothing, or a status with the keys, where its body can be read.
pub data Response : Type 0 where
  unreachable : Response
  replied : ℕ → Option (List JwkKey) → Response

pub data FetchError : Type 0 where
  request_failed bad_body no_keys : FetchError
  bad_status : ℕ → FetchError

-- `unavailable` is the error that wraps ErrJWKSUnavailable.
pub data KeyError : Type 0 where
  unavailable : FetchError → KeyError
  refresh_failed : FetchError → KeyError
  key_not_found : KeyError

-- One request of the keys: the clock before it and after it, and the answer.
pub record Fetch : Type 0 where
  pub now : Time
  pub later : Time
  pub response : Response

-- In nanoseconds.
abbrev pub cache_ttl : ℕ
cache_ttl = 300000000000

abbrev pub max_cache_age : ℕ
max_cache_age = 900000000000

-- `big.Int.SetBytes`
abbrev set_bytes : ℕ → List ℕ → ℕ
set_bytes acc [] = acc
set_bytes acc (b ∷ bs) = set_bytes (acc * 256 + b) bs

abbrev pub lookup : String → KeyMap → Option PublicKey
lookup kid [] = none
lookup kid (k ∷ ks) = let rest = lookup kid ks in if k.0 == kid then some k.1 else rest

abbrev pub put_key : String → PublicKey → KeyMap → KeyMap
put_key kid key ks = (kid, key) ∷ filter (λ (k : String × PublicKey). not (k.0 == kid)) ks

-- `decode` is `base64.RawURLEncoding.DecodeString`.
module _ (decode : String → Option (List ℕ)) where
  rsa_key : Option (List ℕ) → Option (List ℕ) → Option PublicKey
  rsa_key (some n) (some e) =
      let exponent = set_bytes 0 e in
      if ltb exponent (2 ^ 63) then some (record { n = set_bytes 0 n; e = exponent }) else none
  rsa_key _ _ = none

  unfoldable pub parse_rsa_public_key : String → String → Option PublicKey
  unfolding rsa_key
  parse_rsa_public_key n e = rsa_key (decode n) (decode e)

  unfoldable pub usable : JwkKey → Option PublicKey
  usable k = if k.kty == "RSA" && k.usage == "sig" then parse_rsa_public_key k.n k.e else none

  -- The loop over the keys of the response: of two with one id the later stays.
  unfoldable pub read_keys : List JwkKey → KeyMap → KeyMap
  unfolding usable
  read_keys [] keys = keys
  read_keys (k ∷ ks) keys = elim (usable k) [
    | none ↦ read_keys ks keys
    | some key ↦ read_keys ks (put_key k.kid key keys)
  ]

  abbrev pub nonempty : KeyMap → Result FetchError KeyMap
  nonempty [] = err no_keys
  nonempty (k ∷ ks) = ok (k ∷ ks)

  unfoldable pub fetched : Response → Result FetchError KeyMap
  fetched unreachable = err request_failed
  fetched (replied status body) =
      if not (status == 200)
      then err (bad_status status)
      else elim body [ none ↦ err bad_body | some ks ↦ nonempty (read_keys ks []) ]

  abbrev pub store_keys :
      Time
      → Result FetchError KeyMap
      → Option CachedKeys
      → Result FetchError KeyMap × Option CachedKeys
  store_keys later (err e) cache = (err e, cache)
  store_keys later (ok keys) cache = (ok keys, some (record { keys = keys; fetched_at = later }))

  -- An error leaves the cache as it was.
  unfoldable pub fetch_and_cache :
      Fetch → Option CachedKeys → Result FetchError KeyMap × Option CachedKeys
  fetch_and_cache f cache = store_keys f.later (fetched f.response) cache

  abbrev pub found : Option PublicKey → Result KeyError PublicKey
  found none = err key_not_found
  found (some key) = ok key

  abbrev pub picked :
      (FetchError → Result KeyError PublicKey)
      → String
      → Result FetchError KeyMap × Option CachedKeys
      → Result KeyError PublicKey × Option CachedKeys
  picked otherwise kid (err e, cache) = (otherwise e, cache)
  picked otherwise kid (ok keys, cache) = (found (lookup kid keys), cache)

  unfoldable pub force_refresh :
      Fetch → String → Option CachedKeys → Result KeyError PublicKey × Option CachedKeys
  force_refresh f kid cache = picked (λ e. err (refresh_failed e)) kid (fetch_and_cache f cache)

  -- `time.Since(fetchedAt) < age`
  abbrev pub younger : Time → ℕ → CachedKeys → Bool
  younger now age cached = ltb (now - cached.fetched_at) age

  -- The stale key serves while the cache is younger than the bound.
  unfoldable pub stale :
      Time → PublicKey → Option CachedKeys → FetchError → Result KeyError PublicKey
  stale later key none e = err (unavailable e)
  stale later key (some cached) e =
      if younger later max_cache_age cached then ok key else err (unavailable e)

  unfoldable pub refresh_or_fallback :
      Fetch → String → PublicKey → Option CachedKeys → Result KeyError PublicKey × Option CachedKeys
  refresh_or_fallback f kid key cache =
      picked (stale f.later key cache) kid (fetch_and_cache f cache)

  unfoldable pub fetch_key :
      Fetch → String → Option CachedKeys → Result KeyError PublicKey × Option CachedKeys
  fetch_key f kid cache = picked (λ e. err (unavailable e)) kid (fetch_and_cache f cache)

  abbrev pub cached_key : String → Option CachedKeys → Option (PublicKey × CachedKeys)
  cached_key kid none = none
  cached_key kid (some cached) = elim (lookup kid cached.keys) [
    | none ↦ none
    | some key ↦ some (key, cached)
  ]

  unfoldable pub get_key :
      Fetch → String → Option CachedKeys → Result KeyError PublicKey × Option CachedKeys
  get_key f kid cache = elim (cached_key kid cache) [
    | none ↦ fetch_key f kid cache
    | some (key, cached) ↦
        if younger f.now cache_ttl cached
        then (ok key, cache)
        else refresh_or_fallback f kid key cache
  ]

  -- The keys that this request fetched name the key.
  abbrev pub Fetched : Fetch → String → PublicKey → Type 0
  Fetched f kid key =
      (keys : KeyMap) × (fetched f.response ≡ ok keys) × (lookup kid keys ≡ some key)

  -- The cache, younger than the greater bound, names the key.
  abbrev pub Cached : Fetch → String → Option CachedKeys → PublicKey → Type 0
  Cached f kid cache key =
      (cached : CachedKeys) × (cache ≡ some cached)
      × (lookup kid cached.keys ≡ some key)
      × (f.now < cached.fetched_at + max_cache_age)

  found_inv :
      (kid : String) (keys : KeyMap) {key : PublicKey}
      → found (lookup kid keys) ≡ ok key
      → lookup kid keys ≡ some key
  found_inv kid keys h = elim (Option-cases (lookup kid keys)) [
    | inl n ↦ absurd (ground arith)
    | inr (k, y) ↦ ground arith
  ]

  -- What a pick returns comes from the fetch, or from what stands in for its error.
  pub picked_inv :
      (otherwise : FetchError → Result KeyError PublicKey) (f : Fetch) (kid : String)
      (cache : Option CachedKeys) {key : PublicKey}
      → (picked otherwise kid (fetch_and_cache f cache)).0 ≡ ok key
      → Fetched f kid key ⊎ ((e : FetchError) × (otherwise e ≡ ok key))
  unfolding fetch_and_cache
  picked_inv otherwise f kid cache h = elim (Result-cases (fetched f.response)) [
    | inl (keys, y) ↦ inl (keys, y, found_inv kid keys (ground arith))
    | inr (e, y) ↦ inr (e, ground arith)
  ]

  cached_key_inv :
      (kid : String) (cache : Option CachedKeys) {key : PublicKey} {cached : CachedKeys}
      → cached_key kid cache ≡ some (key, cached)
      → (cache ≡ some cached) × (lookup kid cached.keys ≡ some key)
  cached_key_inv kid none h = absurd (ground arith)
  cached_key_inv kid (some c) h = elim (Option-cases (lookup kid c.keys)) [
    | inl n ↦ absurd (ground arith)
    | inr (k, y) ↦ ground arith
  ]

  stale_inv :
      (later : Time) (k : PublicKey) (cached : CachedKeys) (e : FetchError) {key : PublicKey}
      → stale later k (some cached) e ≡ ok key
      → (k ≡ key) × (later < cached.fetched_at + max_cache_age)
  unfolding stale
  stale_inv later k cached e h = ground arith

  -- Where the clock does not go back during the request, a key that is returned is named under its id
  -- by the response fetched now, or by a cache that was fetched less than 15 minutes before.
  pub get_key_fresh :
      (f : Fetch) (kid : String) (cache : Option CachedKeys) {key : PublicKey}
      → f.now ≤ f.later
      → (get_key f kid cache).0 ≡ ok key
      → Fetched f kid key ⊎ Cached f kid cache key
  unfolding get_key fetch_key refresh_or_fallback
  get_key_fresh f kid cache {key = key} l h = elim (Option-cases (cached_key kid cache)) [
    | inl n ↦ elim (picked_inv (λ e. err (unavailable e)) f kid cache {key = key} (ground arith)) [
      | inl fetched_now ↦ inl fetched_now
      | inr (e, x) ↦ absurd (ground arith)
    ]
    | inr ((k, cached), y) ↦
        let (held, named) = cached_key_inv kid cache y in
        elim (Bool-cases (younger f.now cache_ttl cached)) [
          | inl young ↦ inr (cached, held, ground arith, ground arith)
          | inr old ↦
              elim (picked_inv (stale f.later k cache) f kid cache {key = key} (ground arith)) [
                | inl fetched_now ↦ inl fetched_now
                | inr (e, x) ↦
                    let (same, young) =
                      stale_inv f.later k cached e
                        (subst (λ t. stale f.later k t e ≡ ok key) held x) in
                    inr (cached, held, ground arith, ground arith)
              ]
        ]
  ]
