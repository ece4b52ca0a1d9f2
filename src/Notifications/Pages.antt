-- ===== src/Notifications/Pages.antt =====
-- `ListByUser` and the cursor of repository.go, `GetUserNotifications` of service.go, and `List` of
-- handler.go.
use Prim.Native.Char.{Char, code}
use Prim.Native.String.{String, [] as end_of_text, ◌∷◌ as letter, ◌++◌ as append}
use vault_keeper.Prelude.{
  ℕ, zero, suc, ◌+◌, Bool, true, ◌&&◌, ◌||◌, List, [], ◌∷◌, Option, none, some, Result, ok, err,
  ltb, ◌==◌, nat_eq, string_eq, if◌then◌else◌, filter, take, length, ◌>>=◌,
}
use vault_keeper.Prelude.Int.{ℤ, pos, clamp}
use vault_keeper.Prelude.Sort.{sort_by}
use vault_keeper.Custody.{Uuid, Time}
use vault_keeper.Notifications.Unread.{Notification, Error, failed}

-- base64, RFC 3339 with nanoseconds, the text of an id, each with its inverse, and `Atoi`.
pub record Ext : Type 0 where
  pub encode_base64 : String → String
  pub decode_base64 : String → Option String
  pub format_time : Time → String
  pub parse_time : String → Option Time
  pub uuid_string : Uuid → String
  pub parse_uuid : String → Option Uuid
  pub atoi : String → Option ℤ

abbrev pub Cursor : Type 0
Cursor = Time × Uuid

abbrev pub is_bar : Char → Bool
is_bar c = code c == 124

abbrev pub split_at : Char → String → Option (String × String) → Option (String × String)
split_at c s (some (a, b)) = some (letter c a, b)
split_at c s none = if is_bar c then some ("", s) else none

-- The search from the end, as the last bar of what follows, or else the letter itself.
abbrev pub last_bar : String → Option (String × String)
last_bar end_of_text = none
last_bar (letter c s) = split_at c s (last_bar s)

abbrev pub parts_of : String → Option (String × String) → List String
parts_of s none = s ∷ []
parts_of s (some (a, b)) = a ∷ b ∷ []

unfoldable pub split_cursor : String → List String
split_cursor s = parts_of s (last_bar s)

-- The row comparison of the cursor, created_at first.
abbrev pub before : Cursor → Notification → Bool
before (ts, id) n = ltb n.created_at ts || (n.created_at == ts && ltb n.id id)

abbrev pub past : Option Cursor → Notification → Bool
past none n = true
past (some cursor) n = before cursor n

-- ORDER BY created_at DESC, id DESC
abbrev pub newest : Notification → Notification → Bool
newest a b = before (a.created_at, a.id) b

abbrev pub of_user : String → Notification → Bool
of_user user n = n.user_id == user

abbrev pub page_limit : ℕ → ℕ
page_limit limit = clamp 25 100 (pos limit)

-- What is left for a user after the cursor.
abbrev pub remaining : String → List Notification → Option Cursor → List Notification
remaining user rows cursor = sort_by newest (filter (λ n. of_user user n && past cursor n) rows)

pub record Faults : Type 0 where
  pub count_fails : Bool
  pub query_fails : Bool

pub record Page : Type 0 where
  pub items : List Notification
  pub total : ℕ
  pub next_cursor : String
  pub has_more : Bool

abbrev pub last_cursor : List Notification → Option Cursor
last_cursor [] = none
last_cursor (n ∷ []) = some (n.created_at, n.id)
last_cursor (n ∷ m ∷ ns) = last_cursor (m ∷ ns)

module _ (ext : Ext) where
  unfoldable pub encode_cursor : Time → Uuid → String
  encode_cursor ts id =
      ext.encode_base64 (append (ext.format_time ts) (append "|" (ext.uuid_string id)))

  abbrev pub read_parts : List String → Option Cursor
  read_parts (time ∷ (id ∷ [])) = elim (ext.parse_time time) [
    | none ↦ none
    | some ts ↦ elim (ext.parse_uuid id) [ none ↦ none | some uid ↦ some (ts, uid) ]
  ]
  read_parts _ = none

  unfoldable pub decode_cursor : String → Option Cursor
  decode_cursor cursor = elim (ext.decode_base64 cursor) [
    | none ↦ none
    | some raw ↦ read_parts (split_cursor raw)
  ]

  abbrev pub decoded : Option Cursor → Result Error (Option Cursor)
  decoded none = err failed
  decoded (some cursor) = ok (some cursor)

  abbrev pub read_cursor : String → Result Error (Option Cursor)
  read_cursor cursor = if cursor == "" then ok none else decoded (decode_cursor cursor)

  abbrev pub queries :
      Faults → String → ℕ → List Notification → Option Cursor → Result Error (List Notification × ℕ)
  queries f user limit rows cursor =
      if f.count_fails
      then err failed
      else if f.query_fails
      then err failed
      else ok (
        take limit (take (limit + 1) (remaining user rows cursor)),
        length (filter (of_user user) rows),
      )

  unfoldable pub list_by_user :
      Faults → String → ℕ → String → List Notification → Result Error (List Notification × ℕ)
  list_by_user f user limit cursor rows =
      read_cursor cursor >>= queries f user (page_limit limit) rows

  -- The parameter `limit`, where it is a positive number.
  abbrev pub positive : Option ℤ → ℕ
  positive none = 25
  positive (some (ℤ.negsuc n)) = 25
  positive (some (pos zero)) = 25
  positive (some (pos (suc n))) = suc n

  unfoldable pub read_limit : String → ℕ
  read_limit text = if text == "" then 25 else positive (ext.atoi text)

  abbrev pub next_of : Option Cursor → String
  next_of none = ""
  next_of (some (ts, id)) = encode_cursor ts id

  abbrev pub paged : ℕ → List Notification × ℕ → Page
  paged limit (items, total) = record {
    items = items;
    total = total;
    next_cursor =
        if length items == limit && ltb 0 (length items) then next_of (last_cursor items) else "";
    has_more = length items == limit;
  }

  abbrev pub replied : ℕ → Result Error (List Notification × ℕ) → Result ℕ Page
  replied limit (err e) = err 500
  replied limit (ok found) = ok (paged limit found)

  -- An error is the status 500; `user` is the one of the request.
  unfoldable pub list : Faults → Option String → String → String → List Notification → Result ℕ Page
  list f none limit cursor rows = err 500
  list f (some user) limit cursor rows =
      replied (read_limit limit) (list_by_user f user (read_limit limit) cursor rows)
