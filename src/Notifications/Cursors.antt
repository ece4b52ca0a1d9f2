-- ===== src/Notifications/Cursors.antt =====
-- The cursor of a page of notifications, written and read back.
use Prim.Native.Char.{Char}
use Prim.Native.String.{String, [] as end_of_text, ◌∷◌ as letter, ◌++◌ as append}
use Prim.Native.String.append.{nil as append_nil, cons as append_cons}
use Prim.Native.String.compare.{cons-nil}
use text.Mathlib.Text.{is_eq}
use vault_keeper.Prelude.{
  ℕ, ◌<◌, ◌≡◌, refl, sym, ap, ◌∙◌, Bool, true, false, List, [], ◌∷◌, none, some, ok, arith, ltb,
  ◌==◌, nat_eq, string_eq, if◌then◌else◌, length, Bool-cases, inl, inr,
}
use vault_keeper.Custody.{Uuid, Time}
use vault_keeper.Notifications.Unread.{Notification}
use vault_keeper.Notifications.Pages.{
  Ext, Cursor, split_at, last_bar, parts_of, split_cursor, last_cursor, encode_cursor, read_parts,
  decode_cursor, decoded, read_cursor, next_of, paged,
}

-- The code's inverses, and a text of an id that has no bar.
pub record IsCodec (ext : Ext) : Type 0 where
  pub base64 : (text : String) → ext.decode_base64 (ext.encode_base64 text) ≡ some text
  pub time : (ts : Time) → ext.parse_time (ext.format_time ts) ≡ some ts
  pub uuid : (id : Uuid) → ext.parse_uuid (ext.uuid_string id) ≡ some id
  pub filled : (text : String) → (text == "") ≡ false → (ext.encode_base64 text == "") ≡ false
  pub no_bar : (id : Uuid) → last_bar (ext.uuid_string id) ≡ none

last_bar-append :
    (a b : String) → last_bar b ≡ none → last_bar (append a (append "|" b)) ≡ some (a, b)
last_bar-append end_of_text b h =
    ap last_bar (append_nil (append "|" b))
    ∙ ap last_bar (append_cons "|" "" b)
    ∙ ap (λ t. last_bar (letter "|" t)) (append_nil b)
    ∙ ap (split_at "|" b) h
last_bar-append (letter c a) b h =
    ap last_bar (append_cons c a (append "|" b)) ∙ ap (split_at c _) (last_bar-append a b h)

pub decode-encode_cursor :
    (ext : Ext)
    → IsCodec ext
    → (ts : Time) (id : Uuid) → decode_cursor ext (encode_cursor ext ts id) ≡ some (ts, id)
unfolding decode_cursor encode_cursor split_cursor
decode-encode_cursor ext codec ts id =
    let text = append (ext.format_time ts) (append "|" (ext.uuid_string id)) in
    let parts = last_bar-append (ext.format_time ts) (ext.uuid_string id) (codec.no_bar id) in
    rw (codec.base64 text, decode_cursor)
      (ap (λ o. read_parts ext (parts_of text o)) parts ∙ rw (codec.time ts, codec.uuid id) refl)

last_cursor-some :
    (n : Notification) (ns : List Notification) → (k : Cursor) × (last_cursor (n ∷ ns) ≡ some k)
last_cursor-some n [] = ((n.created_at, n.id), refl)
last_cursor-some n (m ∷ ns) = last_cursor-some m ns

abbrev is_empty : String → Bool
is_empty t = t == ""

letter_filled : (c : Char) (t : String) → is_empty (letter c t) ≡ false
letter_filled c t = ap is_eq (cons-nil c t)

append_filled : (a b : String) → (append a (append "|" b) == "") ≡ false
append_filled end_of_text b =
    ap is_empty (append_nil (append "|" b))
    ∙ ap is_empty (append_cons "|" "" b)
    ∙ letter_filled "|" (append "" b)
append_filled (letter c a) b =
    ap is_empty (append_cons c a (append "|" b)) ∙ letter_filled c (append a (append "|" b))

module _ (ext : Ext) (codec : IsCodec ext) where
  read-encode_cursor : (k : Cursor) → read_cursor ext (next_of ext (some k)) ≡ ok (some k)
  unfolding encode_cursor
  read-encode_cursor (ts, id) =
      let text = append (ext.format_time ts) (append "|" (ext.uuid_string id)) in
      let filled = codec.filled text (append_filled (ext.format_time ts) (ext.uuid_string id)) in
      let back = decode-encode_cursor ext codec ts id in rw filled (ap (decoded ext) back)

  -- The cursor of a page reads back as the place of its last item, and as the start where none is.
  pub read-next_cursor :
      (n total : ℕ) (items : List Notification)
      → 0 < n
      → read_cursor ext (paged ext n (items, total)).next_cursor
        ≡ ok (if length items == n then last_cursor items else none)
  read-next_cursor n total [] h =
      let other : (length {A = Notification} [] == n) ≡ false = ground arith in rw other refl
  read-next_cursor n total (m ∷ ms) h = elim (Bool-cases (length (m ∷ ms) == n)) [
    | inr differs ↦ rw differs refl
    | inl same ↦
        let (k, last) = last_cursor-some m ms in
        let some_left : ltb 0 (length (m ∷ ms)) ≡ true = ground arith in
        rw (same, some_left)
          (ap (λ o. read_cursor ext (next_of ext o)) last ∙ read-encode_cursor k ∙ ap ok (sym last))
  ]
