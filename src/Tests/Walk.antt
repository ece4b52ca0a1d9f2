-- ===== src/Tests/Walk.antt =====
-- Three cases read in pages of one. A cursor is the id in unary digits.
use Prim.Native.String.{String, [] as end_of_text, ◌∷◌ as letter}
use vault_keeper.Prelude.{
  zero, suc, ◌≡◌, refl, false, List, [], ◌∷◌, Option, none, some, arith, true, ◌==◌, string_eq,
  length, eq_iff, Bool-cases, inl, inr, sym, ap, ◌∙◌,
}
use vault_keeper.Prelude.Int.{pos}
use vault_keeper.Custody.{Uuid}
use vault_keeper.Cases.Model.{Case}
use vault_keeper.Cases.Lists.{Ext, Turn, CaseFilter}
use vault_keeper.Cases.Walk.{IsCodec, walk, listed, walk-listed}

abbrev pub encode : Uuid → String
encode zero = "x"
encode (suc n) = letter "x" (encode n)

abbrev counted : Option Uuid → Option Uuid
counted none = some 0
counted (some n) = some (suc n)

abbrev pub decode : String → Option Uuid
decode end_of_text = none
decode (letter c s) = counted (decode s)

pub decode-encode : (id : Uuid) → decode (encode id) ≡ some id
decode-encode zero = refl
decode-encode (suc n) = rw (decode-encode n)

encode_filled : (id : Uuid) → (encode id == "") ≡ false
encode_filled id = elim (Bool-cases (encode id == "")) [
  | inr n ↦ n
  | inl y ↦
      let none_read : some id ≡ none =
        sym (decode-encode id) ∙ ap decode ((eq_iff (encode id) "").0 y) in
      absurd (ground arith)
]

abbrev ext : Ext
ext = record {
  encode_base64 = λ s. s;
  decode_base64 = λ s. some s;
  uuid_string = encode;
  parse_uuid = decode;
  ilike = λ s q. true;
}

ext-IsCodec : IsCodec ext
ext-IsCodec = record { base64 = λ text. refl; uuid = decode-encode; filled = encode_filled }

abbrev turn : Turn
turn = record { has_role = λ id user. true; count_fails = false; query_fails = false }

abbrev everything : CaseFilter
everything = record {
  user_id = "";
  system_admin = true;
  status = [];
  jurisdiction = "";
  search_query = "";
}

abbrev case_of : Uuid → Case
case_of id = record {
  id = id;
  reference_code = "ICC-01";
  title = "t";
  description = "";
  jurisdiction = "";
  status = "active";
  legal_hold = false;
  created_by = "u";
  created_by_name = "U";
  created_at = 1;
  updated_at = 1;
}

abbrev table : List Case
table = case_of 2 ∷ case_of 5 ∷ case_of 3 ∷ []

walk-listed_example :
    walk ext turn everything
      (pos 1)
      table
      (suc (length (listed ext turn everything (pos 1) table)))
      ""
    ≡ listed ext turn everything (pos 1) table
walk-listed_example = walk-listed ext turn everything (pos 1) table refl refl ext-IsCodec (
  (λ h. absurd (omega arith), (λ h. absurd (omega arith), tt)),
  ((λ h. absurd (omega arith), tt), (tt, tt)),
)
