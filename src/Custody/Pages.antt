-- ===== src/Custody/Pages.antt =====
-- The cursor pages of `list`, `ListByCase` and `ListByEvidence` of repository.go.
use vault_keeper.Prelude.{
  ℕ, ◌+◌, ◌≤◌, ◌<◌, String, ◌≡◌, refl, Bool, true, not, ◌&&◌, List, [], ◌∷◌, Option, none, some,
  Result, ok, err, arith, ltb, ◌==◌, nat_eq, string_eq, if◌then◌else◌, filter, take, length,
  length-take, ◌>>=◌,
}
use vault_keeper.Prelude.Int.{ℤ, pos, clamp}
use vault_keeper.Prelude.Sort.{sort_by}
use vault_keeper.Custody.{Event, Uuid}
use vault_keeper.Custody.Log.{
  Error, invalid_filter, invalid_cursor, count_query, list_query, descending,
}

-- `base64.RawURLEncoding.DecodeString`, then `uuid.Parse`.
pub record CursorCodec : Type 0 where
  pub decode_base64 : String → Option String
  pub parse_uuid : String → Option Uuid

pub record Page : Type 0 where
  pub items : List Event
  pub total : ℕ

-- `WHERE case_id = $1` or `WHERE evidence_id = $1`
abbrev pub column_is : String → Uuid → Event → Bool
column_is col id e = if col == "case_id" then e.case_id == id else e.evidence_id == id

-- `AND id < $2`, where a cursor was given.
abbrev pub below : Option Uuid → Event → Bool
below none e = true
below (some c) e = ltb e.id c

-- The rows and the count of one page; `LIMIT` takes one row more than the page.
unfoldable pub page_of : String → Uuid → ℕ → List Event → Option Uuid → Page
page_of col id limit rows cursor = record {
  items = take limit (
      take (limit + 1)
        (sort_by descending (filter (λ e. column_is col id e && below cursor e) rows)));
  total = length (filter (column_is col id) rows);
}

module _ (codec : CursorCodec) where
  open codec use {decode_base64, parse_uuid}

  parsed : Option Uuid → Result Error (Option Uuid)
  parsed none = err invalid_cursor
  parsed (some id) = ok (some id)

  decoded : Option String → Result Error (Option Uuid)
  unfolding parsed
  decoded none = err invalid_cursor
  decoded (some text) = parsed (parse_uuid text)

  unfoldable pub read_cursor : String → Result Error (Option Uuid)
  unfolding decoded
  read_cursor cursor = if cursor == "" then ok none else decoded (decode_base64 cursor)

  -- The two queries.
  queries : Bool → Bool → String → Uuid → ℕ → List Event → Option Uuid → Result Error Page
  queries count_fails query_fails col id limit rows cursor =
      if count_fails
      then err count_query
      else if query_fails
      then err list_query
      else ok (page_of col id limit rows cursor)

  unfoldable pub list : Bool → Bool → String → Uuid → ℤ → String → List Event → Result Error Page
  unfolding queries
  list count_fails query_fails col id limit cursor rows =
      if not (col == "case_id") && not (col == "evidence_id")
      then err invalid_filter
      else (read_cursor cursor >>= queries count_fails query_fails col id (clamp 50 200 limit) rows)

  clamp-le : (limit : ℤ) → clamp 50 200 limit ≤ 200
  unfolding clamp
  clamp-le (ℤ.negsuc n) = omega arith
  clamp-le (pos n) = ground arith

  list-inv :
      (cf qf : Bool) (col : String) (id : Uuid) (n : ℕ) (rows : List Event)
      (r : Result Error (Option Uuid)) {p : Page}
      → (r >>= queries cf qf col id n rows) ≡ ok p
      → (c : Option Uuid) × (r ≡ ok c) × (p ≡ page_of col id n rows c)
  unfolding queries
  list-inv cf qf col id n rows (err e) h = cc
  list-inv cf qf col id n rows (ok c) h = (c, refl, ground arith)

  list-queries :
      (cf qf : Bool) (col : String) (id : Uuid) (limit : ℤ) (cursor : String) (rows : List Event)
      {p : Page}
      → list cf qf col id limit cursor rows ≡ ok p
      → (read_cursor cursor >>= queries cf qf col id (clamp 50 200 limit) rows) ≡ ok p
  unfolding list
  list-queries cf qf col id limit cursor rows h = ground arith

  length-page_of :
      (col : String) (id : Uuid) (limit : ℤ) (rows : List Event) (c : Option Uuid)
      → length (page_of col id (clamp 50 200 limit) rows c).items ≤ 200
  unfolding page_of
  length-page_of col id limit rows c = omega (
    arith,
    length-take (clamp 50 200 limit) (
        take (clamp 50 200 limit + 1)
          (sort_by descending (filter (λ e. column_is col id e && below c e) rows))),
    clamp-le limit,
  )

  total-page_of :
      (col : String) (id : Uuid) (n : ℕ) (rows : List Event) (c : Option Uuid)
      → (page_of col id n rows c).total ≡ length (filter (column_is col id) rows)
  unfolding page_of
  total-page_of col id n rows c = refl

  -- A successful page is the one that its column, its limit and its cursor ask for; it holds at most
  -- 200 entries, whatever limit was asked for, and its total ignores the cursor.
  pub list_page :
      (cf qf : Bool) (col : String) (id : Uuid) (limit : ℤ) (cursor : String) (rows : List Event)
      {p : Page}
      → list cf qf col id limit cursor rows ≡ ok p
      → (length p.items ≤ 200)
        × (p.total ≡ length (filter (column_is col id) rows))
        × ((c : Option Uuid) × (read_cursor cursor ≡ ok c)
            × (p ≡ page_of col id (clamp 50 200 limit) rows c))
  unfolding list
  list_page cf qf col id limit cursor rows h =
      let (c, read, same) =
        list-inv cf qf col id (clamp 50 200 limit) rows (read_cursor cursor)
          (list-queries cf qf col id limit cursor rows h) in
      (
        rw same (length-page_of col id limit rows c),
        rw same (total-page_of col id _ rows c),
        (c, read, same),
      )

-- Entries are sorted by time and the cursor compares ids: with two entries of which the newer has
-- the smaller id, a walk in pages of one never returns the older, though both are counted.
cursor_skips :
    (a b : Event) (col : String) (id : Uuid)
    → column_is col id a ≡ true
    → column_is col id b ≡ true
    → b.timestamp < a.timestamp
    → a.id < b.id
    → (page_of col id 1 (a ∷ b ∷ []) none ≡ record { items = a ∷ []; total = 2 })
      × (page_of col id 1 (a ∷ b ∷ []) (some a.id) ≡ record { items = []; total = 2 })
unfolding page_of sort_by descending
cursor_skips a b col id ha hb t u = rw (ha, hb) (ground arith, ground arith)
