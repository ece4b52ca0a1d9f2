-- ===== src/Logging/Redact.antt =====
-- The redaction of nested values, and the fields of a request. A Go map is the list of its entries,
-- in any order; `strings.Contains` of the lower case of the trimmed name is a parameter.
use vault_keeper.Prelude.{ℕ, String, Bool, List, [], ◌∷◌, if◌then◌else◌, any}

-- What the type switch tells apart, and what its default branch takes: `string_map` is a
-- map[string]string, `other` a value of any other type that holds values under names, as a slice of
-- maps, a map to slices or a struct does; a value with no name inside is a scalar.
mutual
  pub data Value : Type 0 where
    text : String → Value
    scalar : ℕ → Value
    strings : List String → Value
    items : Items → Value
    object : Fields → Value
    string_map : List (String × String) → Value
    other : Fields → Value

  pub data Items : Type 0 where
    nil : Items
    cons : Value → Items → Items

  pub data Fields : Type 0 where
    end : Fields
    field : String → Value → Fields → Fields

abbrev pub redacted_value : String
redacted_value = "[REDACTED]"

abbrev pub sensitive_markers : List String
sensitive_markers =
    "token" ∷ "jwt" ∷ "bearer" ∷ "password" ∷ "secret" ∷ "key" ∷ "full_name" ∷ "contact_info"
    ∷ "location" ∷ "authorization" ∷ []

abbrev pub texts : List String → Items
texts [] = nil
texts (s ∷ ss) = cons (text s) (texts ss)

-- `contains name marker`
module _ (contains : String → String → Bool) where
  unfoldable pub is_sensitive_field : String → Bool
  is_sensitive_field name = any (contains name) sensitive_markers

  abbrev pub redact_text : Bool → String → Value
  redact_text sensitive s = if sensitive then text redacted_value else text s

  -- `RedactValue` of each item under the key of the list.
  abbrev pub redact_strings : Bool → List String → Items
  redact_strings sensitive [] = nil
  redact_strings sensitive (s ∷ ss) = cons (redact_text sensitive s) (redact_strings sensitive ss)

  unfoldable mutual
    -- The key is looked at first, then the type switch.
    pub redact_value : String → Value → Value
    redact_value key (object fields) =
        let inner = redact_map fields in
        if is_sensitive_field key then text redacted_value else object inner
    redact_value key (strings ss) =
        if is_sensitive_field key
        then text redacted_value
        else items (redact_strings (is_sensitive_field key) ss)
    redact_value key (items xs) =
        let inner = redact_items key xs in
        if is_sensitive_field key then text redacted_value else items inner
    redact_value key (text s) = redact_text (is_sensitive_field key) s
    redact_value key (scalar n) = if is_sensitive_field key then text redacted_value else scalar n
    redact_value key (string_map m) =
        if is_sensitive_field key then text redacted_value else string_map m
    redact_value key (other fields) =
        if is_sensitive_field key then text redacted_value else other fields

    pub redact_items : String → Items → Items
    redact_items key nil = nil
    redact_items key (cons x xs) = cons (redact_value key x) (redact_items key xs)

    pub redact_map : Fields → Fields
    redact_map end = end
    redact_map (field key value fields) = field key (redact_value key value) (redact_map fields)

abbrev pub of_values : List String → Value
of_values (s ∷ []) = text s
of_values ss = items (texts ss)

-- `headerFields`, and `queryFields` with the same body: a name with one value has the value itself.
unfoldable pub header_fields : List (String × List String) → Fields
header_fields [] = end
header_fields ((name, values) ∷ headers) = field name (of_values values) (header_fields headers)
