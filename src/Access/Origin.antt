-- ===== src/Access/Origin.antt =====
-- Where the keys of the cache of jwks.go come from: the requests that a middleware has served since
-- it started, each with the answers of the endpoint.
use vault_keeper.Prelude.{
  ℕ, refl, String, Bool, true, false, List, [], ◌∷◌, Option, none, some, Result, ok, err, arith,
  ◌==◌, ◌||◌, not, if◌then◌else◌, inl, inr, Has, string_eq,
}
use vault_keeper.Access.Keys.{PublicKey, CachedKeys, KeyError, Fetch, force_refresh, get_key}
use vault_keeper.Access.Tokens.{
  Ext, Header, AuthContext, Middleware, TokenError, Turn, Request, Outcome, pass, refuse, parse,
  signed, checked, checked_again, bad_header, unsupported_algorithm, bad_signature_text,
  verify_signature, read_payload, validate_signed, validate_parts, validate_split,
  validate_and_extract, answered, authenticate,
}
use vault_keeper.Prelude.Exec.{continue}
use vault_keeper.Access.Stored.{Origin, force_refresh-Origin, get_key-Origin}

-- The requests of the keys while these requests were served.
abbrev pub fetches : List (Turn × Request) → List Fetch
fetches [] = []
fetches ((t, r) ∷ past) = t.first ∷ t.second ∷ fetches past

module _ (ext : Ext) (m : Middleware) where
  -- The cache after requests that were served one after the other.
  abbrev pub served : List (Turn × Request) → Option CachedKeys → Option CachedKeys
  served [] cache = cache
  served ((t, r) ∷ past) cache = served past (authenticate ext m t r cache).1

  module _ (Q : Fetch → Type 0) (t : Turn) (first : Q t.first) (second : Q t.second) where
    checked_again-Origin :
        (good : PublicKey → Bool) (x : Result KeyError PublicKey × Option CachedKeys)
        → Origin ext.decode Q x.1
        → Origin ext.decode Q (checked_again ext m good x).1
    checked_again-Origin good (err e, cache) held = held
    checked_again-Origin good (ok key, cache) held = held

    checked-Origin :
        (kid : String) (good : PublicKey → Bool) (x : Result KeyError PublicKey × Option CachedKeys)
        → Origin ext.decode Q x.1
        → Origin ext.decode Q (checked ext m good (force_refresh ext.decode t.second kid) x).1
    checked-Origin kid good (err e, cache) held = held
    checked-Origin kid good (ok key, cache) held =
        elim (good key)
          as (λ b.
            Origin ext.decode Q
              (if b
                then (ok tt, cache)
                else checked_again ext m good (force_refresh ext.decode t.second kid cache)).1) [
                  | true ↦ held
                  | false ↦
                      checked_again-Origin good (force_refresh ext.decode t.second kid cache)
                        (force_refresh-Origin ext.decode Q t.second kid cache second held)
                ]

    continue-Origin :
        (read : Unit {0} → Result TokenError AuthContext)
        (x : Result TokenError (Unit {0}) × Option CachedKeys)
        → Origin ext.decode Q x.1
        → Origin ext.decode Q (continue x (λ u after. (read u, after))).1
    continue-Origin read (ok u, cache) held = held
    continue-Origin read (err e, cache) held = held

    validate_signed-Origin :
        (h : Header) (header payload : String) (signature : List ℕ) (cache : Option CachedKeys)
        → Origin ext.decode Q cache
        → Origin ext.decode Q (validate_signed ext m t h header payload signature cache).1
    unfolding validate_signed verify_signature
    validate_signed-Origin h header payload signature cache held =
        continue-Origin (λ u. read_payload ext m t.now payload)
          (verify_signature ext m t h.kid (λ key. signed ext m key header payload signature) cache)
          (checked-Origin h.kid (λ key. signed ext m key header payload signature)
            (get_key ext.decode t.first h.kid cache)
            (get_key-Origin ext.decode Q t.first h.kid cache first held))

    validate_parts-Origin :
        (header payload signature : String) (cache : Option CachedKeys)
        → Origin ext.decode Q cache
        → Origin ext.decode Q (validate_parts ext m t header payload signature cache).1
    unfolding validate_parts
    validate_parts-Origin header payload signature cache held =
        let after : Header → Option (List ℕ) → Result TokenError AuthContext × Option CachedKeys =
          λ h x. elim x [
            | none ↦ (err bad_signature_text, cache)
            | some bytes ↦ validate_signed ext m t h header payload bytes cache
          ] in
        let next : Option Header → Result TokenError AuthContext × Option CachedKeys = λ x. elim x [
          | none ↦ (err bad_header, cache)
          | some h ↦
              if not (h.alg == "RS256")
              then (err unsupported_algorithm, cache)
              else after h (ext.decode signature)
        ] in
        elim (parse ext m ext.header header) as (λ x. Origin ext.decode Q (next x).1) [
          | none ↦ held
          | some h ↦
              elim (not (h.alg == "RS256"))
                as (λ b.
                  Origin ext.decode Q
                    (if b
                      then (err unsupported_algorithm, cache)
                      else after h (ext.decode signature)).1) [
                        | true ↦ held
                        | false ↦
                            elim (ext.decode signature)
                              as (λ x. Origin ext.decode Q (after h x).1) [
                                | none ↦ held
                                | some bytes ↦
                                    validate_signed-Origin h header payload bytes cache held
                              ]
                      ]
        ]

    validate_split-Origin :
        (parts : List String) (cache : Option CachedKeys)
        → Origin ext.decode Q cache
        → Origin ext.decode Q (validate_split ext m t parts cache).1
    validate_split-Origin [] cache held = held
    validate_split-Origin (a ∷ []) cache held = held
    validate_split-Origin (a ∷ b ∷ []) cache held = held
    validate_split-Origin (a ∷ b ∷ c ∷ []) cache held = validate_parts-Origin a b c cache held
    validate_split-Origin (a ∷ b ∷ c ∷ d ∷ parts) cache held = held

    answered-Origin :
        (r : Request) (x : Result TokenError AuthContext × Option CachedKeys)
        → Origin ext.decode Q x.1
        → Origin ext.decode Q (answered ext m r x).1
    answered-Origin r (err e, cache) held = held
    answered-Origin r (ok ac, cache) held = held

    authenticate-Origin :
        (r : Request) (cache : Option CachedKeys)
        → Origin ext.decode Q cache
        → Origin ext.decode Q (authenticate ext m t r cache).1
    unfolding authenticate validate_and_extract
    authenticate-Origin r cache held =
        let Ends : Outcome × Option CachedKeys → Type 0 = λ x. Origin ext.decode Q x.1 in
        let after : Option String → Outcome × Option CachedKeys = λ x. elim x [
          | none ↦ (refuse 401, cache)
          | some raw ↦ answered ext m r (validate_and_extract ext m t raw cache)
        ] in
        elim (r.path == "/health" || r.method == "OPTIONS")
          as (λ b. Ends (
            if b
            then (pass none, cache)
            else if r.authorization == ""
            then (refuse 401, cache)
            else after (ext.after_bearer r.authorization))) [
              | true ↦ held
              | false ↦
                  elim (r.authorization == "")
                    as (λ b. Ends (
                      if b
                      then (refuse 401, cache)
                      else after (ext.after_bearer r.authorization))) [
                        | true ↦ held
                        | false ↦ elim (ext.after_bearer r.authorization) as (λ x. Ends (after x)) [
                          | none ↦ held
                          | some raw ↦
                              answered-Origin r (validate_and_extract ext m t raw cache)
                                (validate_split-Origin (ext.split_dots raw) cache held)
                        ]
                      ]
            ]

  served-Origin :
      (Q : Fetch → Type 0) (past : List (Turn × Request)) (cache : Option CachedKeys)
      → ((f : Fetch) → Has f (fetches past) → Q f)
      → Origin ext.decode Q cache
      → Origin ext.decode Q (served past cache)
  served-Origin Q [] cache within held = held
  served-Origin Q ((t, r) ∷ past) cache within held =
      served-Origin Q past (authenticate ext m t r cache).1 (λ f h. within f (inr (inr h)))
        (authenticate-Origin Q t (within t.first (inl refl)) (within t.second (inr (inl refl))) r
          cache held)

  -- From no cache at all.
  pub served-from_none :
      (past : List (Turn × Request))
      → Origin ext.decode (λ f. Has f (fetches past)) (served past none)
  served-from_none past =
      served-Origin (λ f. Has f (fetches past)) past none (λ f h. h)
        (λ cached h. absurd (ground arith))
