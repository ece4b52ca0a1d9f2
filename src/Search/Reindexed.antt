-- ===== src/Search/Reindexed.antt =====
-- What an index holds after a case is indexed anew.
use Prim.Native.Char.{code}
use Prim.Native.String.{[] as end_of_text, ◌∷◌ as letter, ◌++◌ as append}
use vault_keeper.Prelude.{
  true, not, ◌&&◌, nat_eq, String, ◌≡◌, Bool, false, List, [], ◌∷◌, Option, none, some, ◌==◌,
  string_eq, if◌then◌else◌,
}
use vault_keeper.Search.Index.{Payload, Server, Value, text, field}

abbrev is_text : String → Option Value → Bool
is_text s (some (text t)) = t == s
is_text s _ = false

-- A document's field has this text.
abbrev pub has_text : String → String → Payload → Bool
has_text key s p = is_text s (field key p)

abbrev pub with_text : String → String → Option Payload → Bool
with_text key s none = false
with_text key s (some p) = has_text key s p

-- The last of the documents that has this id, or else what was there.
abbrev pub put_all : List Payload → String → Option Payload → Option Payload
put_all [] id before = before
put_all (p ∷ ps) id before = put_all ps id (if has_text "id" id p then some p else before)

abbrev pub quote_free : String → Bool
quote_free end_of_text = true
quote_free (letter c s) = let rest = quote_free s in not (code c == 39) && rest

-- What the server documents of its calls, by the document that an index has for an id: the documents
-- that are added replace those of their ids, and what is deleted by the filter case_id = '…' is what
-- has that text there, for one without a quote.
pub record IsIndex {S : Type 0} (server : Server S) (document : String → S → Option Payload)
    (case_id : String) : Type 0 where
  pub adds :
      (ps : List Payload) (s t : S)
      → server.add_documents ps s ≡ some t
      → (id : String) → document id t ≡ put_all ps id (document id s)
  pub deletes :
      (s t : S)
      → server.delete_by_filter (append "case_id = " (append "'" (append case_id "'"))) s ≡ some t
      → (id : String)
      → document id t
        ≡ (if with_text "case_id" case_id (document id s) then none else document id s)
