-- ===== src/Logging/Clean.antt =====
-- What is left after the redaction.
use vault_keeper.Prelude.{
  ◌≡◌, ◌⊎◌, inl, inr, String, Bool, true, false, List, [], ◌∷◌, any, if◌then◌else◌, Bool-cases,
}
use vault_keeper.Logging.Redact.{
  Value, text, scalar, strings, items, object, string_map, other, Items, nil, cons, Fields, end,
  field, redacted_value, is_sensitive_field, redact_value, redact_items, redact_map, redact_strings,
  header_fields, texts,
}

-- No map[string]string inside, and no value of another type that holds values under names.
unfoldable mutual
  pub IsPlain : Value → Type 0
  IsPlain (object fields) = AllPlain fields
  IsPlain (items xs) = EachPlain xs
  IsPlain (string_map m) = ⊥
  IsPlain (other fields) = ⊥
  IsPlain (text s) = Unit
  IsPlain (scalar n) = Unit
  IsPlain (strings ss) = Unit

  pub EachPlain : Items → Type 0
  EachPlain nil = Unit
  EachPlain (cons x xs) = IsPlain x × EachPlain xs

  pub AllPlain : Fields → Type 0
  AllPlain end = Unit
  AllPlain (field key value fields) = IsPlain value × AllPlain fields

module _ (contains : String → String → Bool) where
  -- A name that contains none of ten words, or the text that stands for a value.
  abbrev Hidden : String → Value → Type 0
  Hidden key value =
      (any (contains key) (
          "token" ∷ "jwt" ∷ "bearer" ∷ "password" ∷ "secret" ∷ "key" ∷ "full_name" ∷ "contact_info"
          ∷ "location" ∷ "authorization" ∷ [])
        ≡ false)
      ⊎ (value ≡ text "[REDACTED]")

  -- At every depth, the values of sensitive names are hidden.
  unfoldable mutual
    pub IsClean : Value → Type 0
    IsClean (object fields) = AllClean fields
    IsClean (items xs) = EachClean xs
    IsClean (string_map m) = ⊥
    IsClean (other fields) = ⊥
    IsClean (text s) = Unit
    IsClean (scalar n) = Unit
    IsClean (strings ss) = Unit

    pub EachClean : Items → Type 0
    EachClean nil = Unit
    EachClean (cons x xs) = IsClean x × EachClean xs

    pub AllClean : Fields → Type 0
    AllClean end = Unit
    AllClean (field key value fields) = Hidden key value × IsClean value × AllClean fields

  hidden :
      (key : String) (value : Value)
      → is_sensitive_field contains key ≡ true
      → redact_value contains key value ≡ text redacted_value
  unfolding redact_value
  hidden key (object fields) y = rw y
  hidden key (strings ss) y = rw y
  hidden key (items xs) y = rw y
  hidden key (text s) y = rw y
  hidden key (scalar n) y = rw y
  hidden key (string_map m) y = rw y
  hidden key (other fields) y = rw y

  -- What stands for a value is clean, and so is the value where it is.
  branch-IsClean :
      (b : Bool) (value : Value)
      → IsClean value
      → IsClean (if b then text redacted_value else value)
  unfolding IsClean
  branch-IsClean true value h = tt
  branch-IsClean false value h = h

  redact_value-Hidden :
      (key : String) (value : Value) → Hidden key (redact_value contains key value)
  unfolding is_sensitive_field
  redact_value-Hidden key value = elim (Bool-cases (is_sensitive_field contains key)) [
    | inr n ↦ inl n
    | inl y ↦ inr (hidden key value y)
  ]

  redact_strings-EachClean :
      (sensitive : Bool) (ss : List String) → EachClean (redact_strings contains sensitive ss)
  unfolding EachClean
  redact_strings-EachClean sensitive [] = tt
  redact_strings-EachClean true (s ∷ ss) = (tt, redact_strings-EachClean true ss)
  redact_strings-EachClean false (s ∷ ss) = (tt, redact_strings-EachClean false ss)

  mutual
    unfolding IsPlain IsClean redact_value

    redact_value-IsClean :
        (key : String) (value : Value) → IsPlain value → IsClean (redact_value contains key value)
    redact_value-IsClean key (object fields) h =
        branch-IsClean (is_sensitive_field contains key) (object (redact_map contains fields))
          (redact_map-AllClean fields h)
    redact_value-IsClean key (strings ss) h =
        let sensitive = is_sensitive_field contains key in
        branch-IsClean sensitive (items (redact_strings contains sensitive ss))
          (redact_strings-EachClean sensitive ss)
    redact_value-IsClean key (items xs) h =
        branch-IsClean (is_sensitive_field contains key) (items (redact_items contains key xs))
          (redact_items-EachClean key xs h)
    redact_value-IsClean key (text s) h =
        branch-IsClean (is_sensitive_field contains key) (text s) tt
    redact_value-IsClean key (scalar n) h =
        branch-IsClean (is_sensitive_field contains key) (scalar n) tt
    redact_value-IsClean key (string_map m) h = absurd h
    redact_value-IsClean key (other fields) h = absurd h

    redact_items-EachClean :
        (key : String) (xs : Items) → EachPlain xs → EachClean (redact_items contains key xs)
    redact_items-EachClean key nil h = tt
    redact_items-EachClean key (cons x xs) h =
        (redact_value-IsClean key x h.0, redact_items-EachClean key xs h.1)

    redact_map-AllClean :
        (fields : Fields) → AllPlain fields → AllClean (redact_map contains fields)
    redact_map-AllClean end h = tt
    redact_map-AllClean (field key value fields) h = (
      redact_value-Hidden key value,
      redact_value-IsClean key value h.0,
      redact_map-AllClean fields h.1,
    )

  texts-EachPlain : (ss : List String) → EachPlain (texts ss)
  unfolding IsPlain
  texts-EachPlain [] = tt
  texts-EachPlain (s ∷ ss) = (tt, texts-EachPlain ss)

  header_fields-AllPlain :
      (headers : List (String × List String)) → AllPlain (header_fields headers)
  unfolding IsPlain header_fields
  header_fields-AllPlain [] = tt
  header_fields-AllPlain ((name, []) ∷ headers) = (tt, header_fields-AllPlain headers)
  header_fields-AllPlain ((name, s ∷ []) ∷ headers) = (tt, header_fields-AllPlain headers)
  header_fields-AllPlain ((name, s ∷ t ∷ ss) ∷ headers) =
      ((tt, (tt, texts-EachPlain ss)), header_fields-AllPlain headers)

  -- In a map whose values, at every depth, are texts, scalars, slices of texts or of any values, and
  -- maps of any values, the value under each name that contains token, jwt, bearer, password, secret,
  -- key, full_name, contact_info, location or authorization is replaced by [REDACTED].
  pub redact_map-clean : (fields : Fields) → AllPlain fields → AllClean (redact_map contains fields)
  redact_map-clean fields h = redact_map-AllClean fields h

  -- In the headers or the query that the log shows of a request, every sensitive name has its value
  -- replaced.
  pub header_fields-redact_map :
      (headers : List (String × List String))
      → AllClean (redact_map contains (header_fields headers))
  header_fields-redact_map headers =
      redact_map-AllClean (header_fields headers) (header_fields-AllPlain headers)
