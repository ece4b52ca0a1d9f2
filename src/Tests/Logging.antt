-- ===== src/Tests/Logging.antt =====
-- A map with a password inside a nested map.
use vault_keeper.Prelude.{◌≡◌, refl, String, Bool, ◌==◌, string_eq}
use vault_keeper.Logging.Redact.{
  text, scalar, object, Fields, end, field, redact_map, redact_value, is_sensitive_field,
}
use vault_keeper.Logging.Clean.{IsPlain, AllClean, redact_map-clean}

abbrev contains : String → String → Bool
contains name marker = name == marker

abbrev nested : Fields
nested = field "user" (object (field "password" (text "p") end)) (field "count" (scalar 3) end)

nested_redacted :
    redact_map contains nested
    ≡ field "user"
        (object (field "password" (text "[REDACTED]") end))
        (field "count" (scalar 3) end)
unfolding redact_value is_sensitive_field
nested_redacted = refl

redact_map-clean_example : AllClean contains (redact_map contains nested)
unfolding IsPlain
redact_map-clean_example = redact_map-clean contains nested ((tt, tt), (tt, tt))
