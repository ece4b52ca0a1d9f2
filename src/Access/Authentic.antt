-- ===== src/Access/Authentic.antt =====
-- What a request that passes the authentication has shown.
use vault_keeper.Prelude.{
  ◌≤◌, ◌≡◌, refl, String, List, none, some, arith, ◌+◌, ◌<◌, Has, ◌⊎◌, inl, inr, string_eq,
}
use vault_keeper.Access.Keys.{PublicKey, Fetch}
use vault_keeper.Access.Named.{Named, fetched-Named}
use vault_keeper.Access.Origin.{fetches, served, served-from_none}
use vault_keeper.Access.Tokens.{Ext, AuthContext, Middleware, Turn, Request, pass, authenticate}
use vault_keeper.Access.Carried.{Vouched, Carried, authenticate-Carried}

module _ (ext : Ext) (m : Middleware) (t : Turn) where
  -- A request of the keys by this request, or by an earlier one less than 15 minutes before, in
  -- nanoseconds.
  abbrev Recent : List (Turn × Request) → Fetch → Type 0
  Recent past f =
      (f ≡ t.first)
      ⊎ ((f ≡ t.second) ⊎ (Has f (fetches past) × (t.first.now < f.later + 900000000000)))

  abbrev VouchedLately : List (Turn × Request) → String → PublicKey → Type 0
  VouchedLately past kid key = (f : Fetch) × Recent past f × Named ext.decode f kid key

  Vouched-VouchedLately :
      (past : List (Turn × Request)) (kid : String) (key : PublicKey)
      → Vouched ext m t (served ext m past none) kid key
      → VouchedLately past kid key
  Vouched-VouchedLately past kid key (inl (keys, y, z)) =
      (t.first, inl refl, fetched-Named ext.decode t.first kid {keys = keys} {key = key} y z)
  Vouched-VouchedLately past kid key (inr (inr (keys, y, z))) = (
    t.second,
    inr (inl refl),
    fetched-Named ext.decode t.second kid {keys = keys} {key = key} y z,
  )
  Vouched-VouchedLately past kid key (inr (inl (cached, same, named, young))) =
      let (f, made, y, stored) = served-from_none ext m past cached same in
      (
        f,
        inr (inr (made, ground arith)),
        fetched-Named ext.decode f kid {keys = cached.keys} {key = key} y named,
      )

  abbrev pub Shown : List (Turn × Request) → Request → AuthContext → Type 0
  Shown past r ac = Carried ext m t (VouchedLately past) r ac

  -- Where the clock does not go back during a request of the keys, a request that passes with a
  -- user, after any requests served one after the other since the start without keys, carries a
  -- token of three parts whose header names RS256; whose signature holds under a key of RSA for
  -- signatures that the endpoint listed under its id, with status 200, to this request or to an
  -- earlier one less than 15 minutes before; and whose payload has the issuer, the audience, an
  -- expiry not yet past, the user, and the role of the system that its list of roles gives.
  pub authenticate_genuine :
      (past : List (Turn × Request)) (r : Request) {ac : AuthContext}
      → t.first.now ≤ t.first.later
      → (authenticate ext m t r (served ext m past none)).0 ≡ pass (some ac)
      → Shown past r ac
  authenticate_genuine past r {ac = ac} l h =
      let (raw, header, payload, signature, bytes, cut, three, decoded, genuine) =
        authenticate-Carried ext m t r (served ext m past none) {ac = ac} l h in
      let (shown, valid) = genuine in
      let (head, key, parsed, alg, good, vouched) = shown in
      (
        raw,
        header,
        payload,
        signature,
        bytes,
        cut,
        three,
        decoded,
        ((head, key, parsed, alg, good, Vouched-VouchedLately past head.kid key vouched), valid),
      )
