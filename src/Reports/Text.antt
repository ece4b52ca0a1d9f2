-- ===== src/Reports/Text.antt =====
-- Texts of a report by their bytes, as Go cuts them: `truncate` of pdf.go and the prefixes of hashes.
use Prim.Native.Char.{code}
use Prim.Native.String.{String, [] as end_of_text, ◌∷◌ as letter}
use vault_keeper.Prelude.{
  ℕ, ◌+◌, ◌-◌, ◌/◌, ◌%◌, ◌≤◌, [], ◌∷◌, ◌++◌, arith, ltb, leb, if◌then◌else◌, take, length,
  length-take, length-append,
}
use vault_keeper.Evidence.Model.{Bytes}

-- The bytes of a code point.
unfoldable pub utf8_of : ℕ → Bytes
utf8_of n =
    if ltb n 128
    then n ∷ []
    else if ltb n 2048
    then (192 + n / 64) ∷ (128 + n % 64) ∷ []
    else if ltb n 65536
    then (224 + n / 4096) ∷ (128 + n / 64 % 64) ∷ (128 + n % 64) ∷ []
    else (240 + n / 262144) ∷ (128 + n / 4096 % 64) ∷ (128 + n / 64 % 64) ∷ (128 + n % 64) ∷ []

unfoldable pub utf8 : String → Bytes
utf8 end_of_text = []
utf8 (letter c s) = utf8_of (code c) ++ utf8 s

-- `s[:maxLen-3]` panics where `maxLen` is below 3; every call has one above.
unfoldable pub truncate : Bytes → ℕ → Bytes
truncate s max_len = if leb (length s) max_len then s else take (max_len - 3) s ++ utf8 "..."

-- `if len(hashPrefix) > n { hashPrefix = hashPrefix[:n] }`
unfoldable pub prefix : ℕ → Bytes → Bytes
prefix n s = if ltb n (length s) then take n s else s

-- A text that is cut fits its column.
pub length-truncate : (s : Bytes) (n : ℕ) → 3 ≤ n → length (truncate s n) ≤ n
unfolding truncate utf8 utf8_of
length-truncate s n h =
    ground (arith, length-append (take (n - 3) s) (46 ∷ 46 ∷ 46 ∷ []), length-take (n - 3) s)
