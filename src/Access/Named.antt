-- ===== src/Access/Named.antt =====
-- What the keys of a fetch of jwks.go are: those that the answer of the endpoint lists.
use vault_keeper.Prelude.{
  ℕ, ◌≡◌, refl, subst, String, Bool, not, List, [], ◌∷◌, Option, none, some, ok, sym, arith, ◌==◌,
  if◌then◌else◌, eq_iff, string_eq, filter, inl, inr, Has, Bool-cases, Option-cases,
}
use vault_keeper.Access.Keys.{
  PublicKey, JwkKey, KeyMap, Fetch, Response, unreachable, replied, lookup, put_key,
  parse_rsa_public_key, usable, read_keys, fetched, nonempty,
}

module _ (decode : String → Option (List ℕ)) where
  -- The list of the endpoint has a signing key of RSA with the id, whose numbers are the key's.
  abbrev pub Lists : String → PublicKey → List JwkKey → Type 0
  Lists kid key ks =
      (k : JwkKey) × Has k ks
      × (k.kid ≡ kid)
      × (k.kty ≡ "RSA")
      × (k.usage ≡ "sig")
      × (parse_rsa_public_key decode k.n k.e ≡ some key)

  -- The endpoint answered with status 200 and such a list.
  abbrev pub Named : Fetch → String → PublicKey → Type 0
  Named f kid key = (ks : List JwkKey) × (f.response ≡ replied 200 (some ks)) × Lists kid key ks

  -- Keys by id that the list gives.
  abbrev Sound : List JwkKey → KeyMap → Type 0
  Sound ks keys = (k : String × PublicKey) → Has k keys → Lists k.0 k.1 ks

  filter-Has :
      (p : String × PublicKey → Bool) (k : String × PublicKey) (keys : KeyMap)
      → Has k (filter p keys)
      → Has k keys
  filter-Has p k [] h = h
  filter-Has p k (x ∷ xs) h = elim (Bool-cases (p x)) [
    | inl kept ↦ elim (subst (λ b. Has k (if b then x ∷ filter p xs else filter p xs)) kept h) [
      | inl same ↦ inl same
      | inr rest ↦ inr (filter-Has p k xs rest)
    ]
    | inr gone ↦
        inr (
          filter-Has p k xs
            (subst (λ b. Has k (if b then x ∷ filter p xs else filter p xs)) gone h))
  ]

  lookup-Has :
      (kid : String) (keys : KeyMap) {key : PublicKey}
      → lookup kid keys ≡ some key
      → (k : String × PublicKey) × Has k keys × (k.0 ≡ kid) × (k.1 ≡ key)
  lookup-Has kid [] h = absurd (ground arith)
  lookup-Has kid (k ∷ ks) {key = key} h = elim (Bool-cases (k.0 == kid)) [
    | inl same ↦ (k, inl refl, ground (arith, eq_iff k.0 kid), ground arith)
    | inr other ↦
        let (x, held, id, value) = lookup-Has kid ks {key = key} (ground arith) in
        (x, inr held, id, value)
  ]

  usable_inv :
      (k : JwkKey) {key : PublicKey}
      → usable decode k ≡ some key
      → (k.kty ≡ "RSA") × (k.usage ≡ "sig") × (parse_rsa_public_key decode k.n k.e ≡ some key)
  unfolding usable
  usable_inv k h = ground (arith, eq_iff k.kty "RSA", eq_iff k.usage "sig")

  put_key-Sound :
      (ks : List JwkKey) (kid : String) (key : PublicKey) (keys : KeyMap)
      → Lists kid key ks
      → Sound ks keys
      → Sound ks (put_key kid key keys)
  put_key-Sound ks kid key keys named sound k (inl same) =
      subst (λ (x : String × PublicKey). Lists x.0 x.1 ks) same named
  put_key-Sound ks kid key keys named sound k (inr held) =
      sound k (filter-Has (λ (x : String × PublicKey). not (x.0 == kid)) k keys held)

  nonempty_inv : (all : KeyMap) {keys : KeyMap} → nonempty decode all ≡ ok keys → all ≡ keys
  nonempty_inv [] h = absurd (ground arith)
  nonempty_inv (k ∷ ks) h = ground arith

  fetched_inv :
      (r : Response) {keys : KeyMap}
      → fetched decode r ≡ ok keys
      → (ks : List JwkKey) × (r ≡ replied 200 (some ks)) × (read_keys decode ks [] ≡ keys)
  unfolding fetched
  fetched_inv unreachable h = absurd (ground arith)
  fetched_inv (replied status none) h = absurd (ground arith)
  fetched_inv (replied status (some ks)) {keys = keys} h =
      (ks, ground arith, nonempty_inv (read_keys decode ks []) {keys = keys} (ground arith))

  -- Reading the rest of a list keeps the keys sound.
  read_keys-Sound :
      (all ks : List JwkKey) (keys : KeyMap)
      → ((k : JwkKey) → Has k ks → Has k all)
      → Sound all keys
      → Sound all (read_keys decode ks keys)
  unfolding read_keys
  read_keys-Sound all [] keys within sound = sound
  read_keys-Sound all (k ∷ ks) keys within sound =
      let Rest : Option PublicKey → Type 0 = λ u. Sound all (elim u [
        | none ↦ read_keys decode ks keys
        | some key ↦ read_keys decode ks (put_key k.kid key keys)
      ]) in
      elim (Option-cases (usable decode k)) [
        | inl n ↦ subst Rest (sym n) (read_keys-Sound all ks keys (λ x h. within x (inr h)) sound)
        | inr (key, y) ↦
            let (kty, usage, parsed) = usable_inv k {key = key} y in
            subst Rest (sym y) (
              read_keys-Sound all ks (put_key k.kid key keys) (λ x h. within x (inr h))
                (put_key-Sound all k.kid key keys (k, within k (inl refl), refl, kty, usage, parsed)
                  sound))
      ]

  -- Keys that were fetched, and are found under an id, were named by the response.
  pub fetched-Named :
      (f : Fetch) (kid : String) {keys : KeyMap} {key : PublicKey}
      → fetched decode f.response ≡ ok keys
      → lookup kid keys ≡ some key
      → Named f kid key
  fetched-Named f kid {keys = keys} {key = key} h found =
      let (ks, answered, read) = fetched_inv f.response {keys = keys} h in
      let (k, held, id, value) = lookup-Has kid keys {key = key} found in
      let sound : Sound ks keys =
        subst (Sound ks) read (read_keys-Sound ks ks [] (λ x y. y) (λ x y. absurd y)) in
      (
        ks,
        answered,
        subst (λ i. Lists i key ks) id (subst (λ v. Lists k.0 v ks) value (sound k held)),
      )
