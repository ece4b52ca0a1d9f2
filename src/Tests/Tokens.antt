-- ===== src/Tests/Tokens.antt =====
-- A token that passes, with one key, fetched or held.
use vault_keeper.Prelude.{
  ℕ, refl, String, true, false, List, [], ◌∷◌, Option, none, some, arith, string_eq,
}
use vault_keeper.Prelude.Int.{pos}
use vault_keeper.Access.Roles.{extract_system_role, highest_role, parse_system_role, role_user}
use vault_keeper.Access.Keys.{
  JwkKey, Fetch, replied, unreachable, CachedKeys, get_key, fetch_key, fetch_and_cache, fetched,
  refresh_or_fallback, stale, usable, read_keys, parse_rsa_public_key,
}
use vault_keeper.Access.Tokens.{
  Payload, Ext, AuthContext, Middleware, Turn, Request, one, authenticate, audience_matches,
  check_payload, verify_signature, read_payload, validate_signed, validate_parts,
  validate_and_extract, get_client_ip,
}
use vault_keeper.Access.Authentic.{Shown, authenticate_genuine}

abbrev jwk : JwkKey
jwk = record { kty = "RSA"; kid = "k"; usage = "sig"; n = "n"; e = "e" }

abbrev decode : String → Option (List ℕ)
decode s = some (3 ∷ [])

abbrev fetch : Fetch
fetch = record { now = 100; later = 200; response = replied 200 (some (jwk ∷ [])) }

-- Ten minutes after the keys were fetched the endpoint is out.
abbrev outage : Fetch
outage = record { now = 600000000000; later = 600000000001; response = unreachable }

abbrev held : CachedKeys
held = record { keys = ("k", record { n = 3; e = 3 }) ∷ []; fetched_at = 0 }

abbrev claims : Payload
claims = record {
  sub = "u";
  email = "u@court";
  preferred_username = "u";
  exp = record { is_zero = false; is_positive = true; seconds = pos 5000 };
  nbf = record { is_zero = true; is_positive = false; seconds = pos 0 };
  iss = "realm";
  aud = one "vault";
  sid = "s";
  roles = "user" ∷ [];
}

abbrev ext : Ext
ext = record {
  after_bearer = λ s. some s;
  split_dots = λ s. "h" ∷ "p" ∷ "s" ∷ [];
  decode = decode;
  header = λ bytes. some (record { alg = "RS256"; kid = "k" });
  payload = λ bytes. some claims;
  signed_hash = λ header payload. 1 ∷ [];
  verify_pkcs1v15 = λ key hash signature. true;
  first_ip = λ s. s;
  trim_space = λ s. s;
  split_host_port = λ s. none;
}

abbrev middleware : Middleware
middleware = record { issuer = "realm"; audience = "vault" }

abbrev turn : Turn
turn = record { now = 300; first = fetch; second = fetch }

abbrev request : Request
request = record {
  path = "/api/cases";
  method = "GET";
  authorization = "Bearer h.p.s";
  x_forwarded_for = "";
  x_real_ip = "";
  remote_addr = "10.0.0.1";
}

abbrev pub caller : AuthContext
caller = record {
  user_id = "u";
  email = "u@court";
  username = "u";
  system_role = role_user;
  token_expiry = pos 5000;
  session_id = "s";
  ip_address = "10.0.0.1";
}

-- Ten minutes after a request that fetched the keys.
abbrev later_turn : Turn
later_turn = record { now = 700000000000; first = outage; second = outage }

authenticate_genuine_example : Shown ext middleware later_turn ((turn, request) ∷ []) request caller
unfolding authenticate validate_and_extract validate_parts validate_signed verify_signature
    read_payload check_payload audience_matches get_client_ip get_key fetch_key fetch_and_cache
    refresh_or_fallback stale fetched read_keys usable parse_rsa_public_key extract_system_role
    highest_role parse_system_role
authenticate_genuine_example =
    authenticate_genuine ext middleware later_turn ((turn, request) ∷ []) request (omega arith) refl
