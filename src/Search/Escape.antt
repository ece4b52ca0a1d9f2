-- ===== src/Search/Escape.antt =====
-- `escapeFilterValue` of meilisearch.go, character by character.
use Prim.Native.Char.{Char, code}
use Prim.Native.String.{String, [], ◌∷◌}
use vault_keeper.Prelude.{
  ℕ, suc, ◌≡◌, refl, Bool, true, false, arith, ◌==◌, nat_eq, if◌then◌else◌, Bool-cases, inl, inr,
}

abbrev pub is_quote : Char → Bool
is_quote c = code c == 39

abbrev pub is_backslash : Char → Bool
is_backslash c = code c == 92

-- A quote is replaced by a backslash and a quote, as `strings.ReplaceAll` does it.
unfoldable pub escape_filter_value : String → String
escape_filter_value [] = []
escape_filter_value (c ∷ s) =
    let rest = escape_filter_value s in if is_quote c then "\\" ∷ ("'" ∷ rest) else c ∷ rest

-- How many quotes of a text end it, where a backslash takes its meaning from the next character;
-- `taken` says that one has.
abbrev pub open_quotes : Bool → String → ℕ
open_quotes taken [] = 0
open_quotes true (c ∷ s) = open_quotes false s
open_quotes false (c ∷ s) =
    let after = open_quotes true s in
    let rest = open_quotes false s in
    if is_backslash c then after else if is_quote c then suc rest else rest

abbrev pub backslashes : String → ℕ
backslashes [] = 0
backslashes (c ∷ s) = let rest = backslashes s in if is_backslash c then suc rest else rest

-- In the escaped form of a value without a backslash, no quote ends the text.
escape_filter_value_closed :
    (s : String) → backslashes s ≡ 0 → open_quotes false (escape_filter_value s) ≡ 0
unfolding escape_filter_value
escape_filter_value_closed [] h = refl
escape_filter_value_closed (c ∷ s) h = elim (Bool-cases (is_quote c)) [
  | inl y ↦ rw y (escape_filter_value_closed s (ground arith))
  | inr n ↦ ground (arith, escape_filter_value_closed s)
]
