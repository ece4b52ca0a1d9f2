-- ===== src/Access/Carried.antt =====
-- What the authentication of one request shows of its token, and of the keys in the cache.
use vault_keeper.Prelude.{
  ℕ, ◌≤◌, ◌≡◌, refl, subst, String, Bool, true, false, List, [], ◌∷◌, Option, some, ok, err, arith,
  ◌⊎◌, inl, inr, Bool-cases, Option-cases, Result-cases, eq_iff, string_eq,
}
use vault_keeper.Access.Roles.{SystemRole, extract_system_role}
use vault_keeper.Access.Keys.{
  PublicKey, CachedKeys, Fetched, Cached, picked_inv, force_refresh, get_key, get_key_fresh,
  refresh_failed,
}
use vault_keeper.Access.Tokens.{
  Header, Payload, Ext, AuthContext, Middleware, Turn, Request, pass, audience_matches,
  after_second, check_payload, context_of, signed, parse, verify_signature, read_payload,
  validate_signed, validate_split, get_client_ip, validate_parts, validate_and_extract,
  authenticate,
}

module _ (ext : Ext) (m : Middleware) (t : Turn) where
  abbrev pub Vouched : Option CachedKeys → String → PublicKey → Type 0
  Vouched cache kid key =
      Fetched ext.decode t.first kid key
      ⊎ (Cached ext.decode t.first kid cache key ⊎ Fetched ext.decode t.second kid key)

  abbrev Valid : Payload → AuthContext → Type 0
  Valid p ac =
      (p.iss ≡ m.issuer)
      × (audience_matches m.audience p.aud ≡ true)
      × (p.exp.is_zero ≡ false)
      × (after_second t.now p.exp.seconds ≡ false)
      × (extract_system_role p.roles ≡ (ac.system_role, true))
      × (ac.user_id ≡ p.sub)

  check_payload_inv :
      (p : Payload) {role : SystemRole}
      → check_payload m t.now p ≡ ok role
      → Valid p (context_of p role)
  unfolding check_payload
  check_payload_inv p h = ground (arith, eq_iff p.iss m.issuer)

  force_refresh_inv :
      (kid : String) (cache : Option CachedKeys) {key : PublicKey}
      → (force_refresh ext.decode t.second kid cache).0 ≡ ok key
      → Fetched ext.decode t.second kid key
  unfolding force_refresh
  force_refresh_inv kid cache {key = key} h =
      elim (picked_inv ext.decode (λ e. err (refresh_failed e)) t.second kid cache {key = key} h) [
        | inl y ↦ y
        | inr (e, y) ↦ absurd (ground arith)
      ]

  verify_signature_inv :
      (kid : String) (good : PublicKey → Bool) (cache : Option CachedKeys)
      → t.first.now ≤ t.first.later
      → (verify_signature ext m t kid good cache).0 ≡ ok tt
      → (key : PublicKey) × (good key ≡ true) × Vouched cache kid key
  unfolding verify_signature
  verify_signature_inv kid good cache l h =
      elim (Result-cases (get_key ext.decode t.first kid cache).0) [
        | inr (e, y) ↦ absurd (ground arith)
        | inl (k, y) ↦ elim (Bool-cases (good k)) [
          | inl valid ↦ elim (get_key_fresh ext.decode t.first kid cache {key = k} l y) [
            | inl now ↦ (k, valid, inl now)
            | inr held ↦ (k, valid, inr (inl held))
          ]
          | inr bad ↦
              let after = (get_key ext.decode t.first kid cache).1 in
              elim (Result-cases (force_refresh ext.decode t.second kid after).0) [
                | inr (e, z) ↦ absurd (ground arith)
                | inl (key, z) ↦
                    (key, ground arith, inr (inr (force_refresh_inv kid after {key = key} z)))
              ]
        ]
      ]

  -- A token whose signature holds under a key that is vouched for, and whose claims are valid.
  abbrev Genuine : (String → PublicKey → Type 0) → String → String → List ℕ → AuthContext → Type 0
  Genuine Voucher header payload signature ac =
      ((h : Header) × (key : PublicKey) × (parse ext m ext.header header ≡ some h)
        × (h.alg ≡ "RS256")
        × (signed ext m key header payload signature ≡ true)
        × Voucher h.kid key)
      × ((p : Payload) × (parse ext m ext.payload payload ≡ some p) × Valid p ac)

  read_payload_inv :
      (s : String) {ac : AuthContext}
      → read_payload ext m t.now s ≡ ok ac
      → (p : Payload) × (parse ext m ext.payload s ≡ some p) × Valid p ac
  unfolding read_payload
  read_payload_inv s {ac = ac} h = elim (Option-cases (parse ext m ext.payload s)) [
    | inl n ↦ absurd (ground arith)
    | inr (p, y) ↦ elim (Result-cases (check_payload m t.now p)) [
      | inr (e, z) ↦ absurd (ground arith)
      | inl (role, z) ↦
          let same : context_of p role ≡ ac = ground arith in
          (p, y, subst (Valid p) same (check_payload_inv p {role = role} z))
    ]
  ]

  validate_parts_inv :
      (header payload signature : String) (cache : Option CachedKeys) {ac : AuthContext}
      → t.first.now ≤ t.first.later
      → (validate_parts ext m t header payload signature cache).0 ≡ ok ac
      → (bytes : List ℕ) × (ext.decode signature ≡ some bytes)
        × Genuine (Vouched cache) header payload bytes ac
  unfolding validate_parts validate_signed
  validate_parts_inv header payload signature cache {ac = ac} l e =
      elim (Option-cases (parse ext m ext.header header)) [
        | inl n ↦ absurd (ground arith)
        | inr (h, y) ↦ elim (Option-cases (ext.decode signature)) [
          | inl n ↦ absurd (ground arith)
          | inr (bytes, z) ↦
              let good : PublicKey → Bool = λ key. signed ext m key header payload bytes in
              elim (Result-cases (verify_signature ext m t h.kid good cache).0) [
                | inr (x, w) ↦ absurd (ground arith)
                | inl (u, w) ↦
                    let (key, valid, vouched) = verify_signature_inv h.kid good cache l w in
                    (
                      bytes,
                      z,
                      (
                        (h, key, y, ground (arith, eq_iff h.alg "RS256"), valid, vouched),
                        read_payload_inv payload {ac = ac} (ground arith),
                      ),
                    )
              ]
        ]
      ]

  -- The token of a request, cut into its three parts, is genuine.
  abbrev pub Carried : (String → PublicKey → Type 0) → Request → AuthContext → Type 0
  Carried Voucher r ac =
      (raw : String) × (header : String) × (payload : String) × (signature : String) × (bytes : List
        ℕ)
      × (ext.after_bearer r.authorization ≡ some raw)
      × (ext.split_dots raw ≡ header ∷ payload ∷ signature ∷ [])
      × (ext.decode signature ≡ some bytes)
      × Genuine Voucher header payload bytes ac

  validate_split_inv :
      (parts : List String) (cache : Option CachedKeys) {ac : AuthContext}
      → (validate_split ext m t parts cache).0 ≡ ok ac
      → (header : String) × (payload : String) × (signature : String) × (parts
          ≡ header ∷ payload ∷ signature ∷ [])
        × ((validate_parts ext m t header payload signature cache).0 ≡ ok ac)
  validate_split_inv [] cache h = absurd (ground arith)
  validate_split_inv (a ∷ []) cache h = absurd (ground arith)
  validate_split_inv (a ∷ b ∷ []) cache h = absurd (ground arith)
  validate_split_inv (a ∷ b ∷ d ∷ []) cache h = (a, b, d, refl, h)
  validate_split_inv (a ∷ b ∷ d ∷ e ∷ parts) cache h = absurd (ground arith)

  pub authenticate-Carried :
      (r : Request) (cache : Option CachedKeys) {ac : AuthContext}
      → t.first.now ≤ t.first.later
      → (authenticate ext m t r cache).0 ≡ pass (some ac)
      → Carried (Vouched cache) r ac
  unfolding authenticate validate_and_extract
  authenticate-Carried r cache {ac = ac} l h =
      elim (Option-cases (ext.after_bearer r.authorization)) [
        | inl n ↦ absurd (ground arith)
        | inr (raw, y) ↦ elim (Result-cases (validate_and_extract ext m t raw cache).0) [
          | inr (e, z) ↦ absurd (ground arith)
          | inl (claimed, z) ↦
              let (header, payload, signature, three, checks) =
                validate_split_inv (ext.split_dots raw) cache {ac = claimed} z in
              let (bytes, decoded, genuine) =
                validate_parts_inv header payload signature cache {ac = claimed} l checks in
              let same : record claimed { ip_address = get_client_ip ext m r } ≡ ac =
                ground arith in
              (
                raw,
                header,
                payload,
                signature,
                bytes,
                y,
                three,
                decoded,
                subst (Genuine (Vouched cache) header payload bytes) same genuine,
              )
        ]
      ]
