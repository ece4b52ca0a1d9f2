-- ===== src/Access/Tokens.antt =====
-- The authentication of a request: middleware.go, and the client address of context.go. The string
-- functions, base64, JSON, SHA-256, RSA and the conversion of a JSON number are parameters.
use vault_keeper.Prelude.{
  ℕ, ◌*◌, String, Bool, true, false, not, ◌&&◌, ◌||◌, List, [], ◌∷◌, Option, none, some, Result, ok,
  err, ltb, ◌==◌, string_eq, if◌then◌else◌,
}
use vault_keeper.Prelude.Exec.{continue}
use vault_keeper.Prelude.Int.{ℤ, pos, negsuc}
use vault_keeper.Custody.{Time}
use vault_keeper.Access.Roles.{SystemRole, extract_system_role}
use vault_keeper.Access.Keys.{
  PublicKey, CachedKeys, Fetch, KeyError, unavailable, get_key, force_refresh,
}

pub record Header : Type 0 where
  pub alg : String
  pub kid : String

-- The claim `aud`: a text, a list whose items are texts or not, or another value.
pub data Audience : Type 0 where
  one : String → Audience
  many : List (Option String) → Audience
  other : Audience

-- A number of JSON is a float64: its comparison with 0, and its whole seconds.
pub record Number : Type 0 where
  pub is_zero : Bool
  pub is_positive : Bool
  pub seconds : ℤ

pub record Payload : Type 0 where
  pub sub : String
  pub email : String
  pub preferred_username : String
  pub exp : Number
  pub nbf : Number
  pub iss : String
  pub aud : Audience
  pub sid : String
  pub roles : List String

-- `after_bearer` cuts the prefix "Bearer ", where it stands; `first_ip` is the text before the first
-- comma, without spaces around it.
pub record Ext : Type 0 where
  pub after_bearer : String → Option String
  pub split_dots : String → List String
  pub decode : String → Option (List ℕ)
  pub header : List ℕ → Option Header
  pub payload : List ℕ → Option Payload
  pub signed_hash : String → String → List ℕ
  pub verify_pkcs1v15 : PublicKey → List ℕ → List ℕ → Bool
  pub first_ip : String → String
  pub trim_space : String → String
  pub split_host_port : String → Option String

pub data TokenError : Type 0 where
  malformed bad_header unsupported_algorithm bad_signature_text : TokenError
  key_failed : KeyError → TokenError
  key_refresh_failed : KeyError → TokenError
  bad_signature : TokenError
  bad_payload invalid_issuer invalid_audience missing_exp token_expired not_yet_valid : TokenError
  no_role : TokenError

pub record AuthContext : Type 0 where
  pub user_id : String
  pub email : String
  pub username : String
  pub system_role : SystemRole
  pub token_expiry : ℤ
  pub session_id : String
  pub ip_address : String

pub record Middleware : Type 0 where
  pub issuer : String
  pub audience : String

-- The clock, and what the endpoint of the keys gives to a first and to a second request.
pub record Turn : Type 0 where
  pub now : Time
  pub first : Fetch
  pub second : Fetch

pub record Request : Type 0 where
  pub path : String
  pub method : String
  pub authorization : String
  pub x_forwarded_for : String
  pub x_real_ip : String
  pub remote_addr : String

-- The next handler, with the context, or an answer with a status.
pub data Outcome : Type 0 where
  pass : Option AuthContext → Outcome
  refuse : ℕ → Outcome

abbrev contains : String → List (Option String) → Bool
contains audience [] = false
contains audience (none ∷ auds) = contains audience auds
contains audience (some a ∷ auds) =
    let rest = contains audience auds in if a == audience then true else rest

unfoldable pub audience_matches : String → Audience → Bool
audience_matches audience (one a) = a == audience
audience_matches audience (many auds) = contains audience auds
audience_matches audience other = false

-- A second is 10^9 nanoseconds; a time before the epoch lies before every clock.
abbrev pub after_second : Time → ℤ → Bool
after_second now (pos s) = ltb (s * 1000000000) now
after_second now (negsuc s) = true

abbrev pub before_second : Time → ℤ → Bool
before_second now (pos s) = ltb now (s * 1000000000)
before_second now (negsuc s) = false

abbrev role_found : SystemRole × Bool → Result TokenError SystemRole
role_found (role, good) = if good then ok role else err no_role

-- The checks of the payload, in their order.
unfoldable pub check_payload : Middleware → Time → Payload → Result TokenError SystemRole
check_payload m now p =
    if not (p.iss == m.issuer)
    then err invalid_issuer
    else if not (audience_matches m.audience p.aud)
    then err invalid_audience
    else if p.exp.is_zero
    then err missing_exp
    else if after_second now p.exp.seconds
    then err token_expired
    else if p.nbf.is_positive && before_second now p.nbf.seconds
    then err not_yet_valid
    else role_found (extract_system_role p.roles)

abbrev pub context_of : Payload → SystemRole → AuthContext
context_of p role = record {
  user_id = p.sub;
  email = p.email;
  username = p.preferred_username;
  system_role = role;
  token_expiry = p.exp.seconds;
  session_id = p.sid;
  ip_address = "";
}

abbrev with_role : Payload → Result TokenError SystemRole → Result TokenError AuthContext
with_role p (err e) = err e
with_role p (ok role) = ok (context_of p role)

module _ (ext : Ext) (m : Middleware) where
  abbrev pub signed : PublicKey → String → String → List ℕ → Bool
  signed key header payload signature =
      ext.verify_pkcs1v15 key (ext.signed_hash header payload) signature

  abbrev Cache : Type 0
  Cache = Option CachedKeys

  abbrev pub checked_again :
      (PublicKey → Bool) → Result KeyError PublicKey × Cache → Result TokenError (Unit {0}) × Cache
  checked_again good (err e, cache) = (err (key_refresh_failed e), cache)
  checked_again good (ok key, cache) = (if good key then ok tt else err bad_signature, cache)

  abbrev pub checked :
      (PublicKey → Bool)
      → (Cache → Result KeyError PublicKey × Cache)
      → Result KeyError PublicKey × Cache
      → Result TokenError (Unit {0}) × Cache
  checked good refresh (err e, cache) = (err (key_failed e), cache)
  checked good refresh (ok key, cache) =
      if good key then (ok tt, cache) else checked_again good (refresh cache)

  -- The signature under the key of the id, and, where it fails, under the key after a refresh.
  unfoldable pub verify_signature :
      Turn → String → (PublicKey → Bool) → Cache → Result TokenError (Unit {0}) × Cache
  verify_signature t kid good cache =
      checked good (force_refresh ext.decode t.second kid) (get_key ext.decode t.first kid cache)

  abbrev pub parse : {A : Type 0} → (List ℕ → Option A) → String → Option A
  parse read s = elim (ext.decode s) [ none ↦ none | some bytes ↦ read bytes ]

  unfoldable pub read_payload : Time → String → Result TokenError AuthContext
  read_payload now s = elim (parse ext.payload s) [
    | none ↦ err bad_payload
    | some p ↦ with_role p (check_payload m now p)
  ]

  unfoldable pub validate_signed :
      Turn → Header → String → String → List ℕ → Cache → Result TokenError AuthContext × Cache
  validate_signed t h header payload signature cache =
      continue (verify_signature t h.kid (λ key. signed key header payload signature) cache)
        (λ _ after. (read_payload t.now payload, after))

  unfoldable pub validate_parts :
      Turn → String → String → String → Cache → Result TokenError AuthContext × Cache
  validate_parts t header payload signature cache = elim (parse ext.header header) [
    | none ↦ (err bad_header, cache)
    | some h ↦
        if not (h.alg == "RS256")
        then (err unsupported_algorithm, cache)
        else elim (ext.decode signature) [
          | none ↦ (err bad_signature_text, cache)
          | some bytes ↦ validate_signed t h header payload bytes cache
        ]
  ]

  abbrev pub validate_split : Turn → List String → Cache → Result TokenError AuthContext × Cache
  validate_split t (header ∷ payload ∷ signature ∷ []) cache =
      validate_parts t header payload signature cache
  validate_split t _ cache = (err malformed, cache)

  unfoldable pub validate_and_extract :
      Turn → String → Cache → Result TokenError AuthContext × Cache
  validate_and_extract t raw cache = validate_split t (ext.split_dots raw) cache

  -- The headers are absent where their text is empty.
  unfoldable pub get_client_ip : Request → String
  get_client_ip r =
      if not (r.x_forwarded_for == "")
      then ext.first_ip r.x_forwarded_for
      else if not (r.x_real_ip == "")
      then ext.trim_space r.x_real_ip
      else elim (ext.split_host_port r.remote_addr) [ none ↦ r.remote_addr | some host ↦ host ]

  -- `errors.Is(err, ErrJWKSUnavailable)`
  unfoldable pub is_upstream_error : TokenError → Bool
  is_upstream_error (key_failed (unavailable e)) = true
  is_upstream_error (key_refresh_failed (unavailable e)) = true
  is_upstream_error _ = false

  abbrev pub answered : Request → Result TokenError AuthContext × Cache → Outcome × Cache
  answered r (err e, cache) = (refuse (if is_upstream_error e then 502 else 401), cache)
  answered r (ok ac, cache) = (pass (some (record ac { ip_address = get_client_ip r })), cache)

  unfoldable pub authenticate : Turn → Request → Cache → Outcome × Cache
  authenticate t r cache =
      if r.path == "/health" || r.method == "OPTIONS"
      then (pass none, cache)
      else if r.authorization == ""
      then (refuse 401, cache)
      else elim (ext.after_bearer r.authorization) [
        | none ↦ (refuse 401, cache)
        | some raw ↦ answered r (validate_and_extract t raw cache)
      ]
