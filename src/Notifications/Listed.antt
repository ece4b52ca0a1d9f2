-- ===== src/Notifications/Listed.antt =====
-- What `List` of handler.go answers: the limits of handler and repository, and the pages.
use Prim.Native.String.{String}
use vault_keeper.Prelude.{
  ℕ, zero, suc, ◌+◌, ◌≤◌, ◌<◌, ◌≡◌, refl, ap, ◌∙◌, true, false, List, Option, none, some, ok, arith,
  ltb, ◌==◌, nat_eq, string_eq, if◌then◌else◌, filter, take, length, length-take, length-take_full,
  take-take, take_short, ◌>>=◌, Bool-cases, inl, inr, ◌↔◌, ◌⊎◌,
}
use vault_keeper.Prelude.Int.{ℤ, pos, clamp}
use vault_keeper.Notifications.Unread.{Notification}
use vault_keeper.Notifications.Pages.{
  Ext, Cursor, of_user, page_limit, remaining, Faults, Page, last_cursor, read_cursor, queries,
  list_by_user, positive, read_limit, paged, replied, list,
}
use vault_keeper.Notifications.Cursors.{IsCodec, read-next_cursor}

positive-some : (ext : Ext) (n : Option ℤ) → 0 < positive ext n
positive-some ext none = omega arith
positive-some ext (some (ℤ.negsuc n)) = omega arith
positive-some ext (some (pos zero)) = omega arith
positive-some ext (some (pos (suc n))) = omega arith

read_limit-positive : (ext : Ext) (text : String) → 0 < read_limit ext text
unfolding read_limit
read_limit-positive ext text = elim (Bool-cases (text == "")) [
  | inl y ↦ rw y (omega arith)
  | inr n ↦ rw n (positive-some ext (ext.atoi text))
]

page_limit-cases :
    (n : ℕ) → 0 < n → ((page_limit n ≡ n) × (n ≤ 100)) ⊎ ((page_limit n ≡ 100) × (100 < n))
unfolding clamp
page_limit-cases n h = elim (Bool-cases (ltb 100 n)) [
  | inl y ↦ inr (ground arith, ground arith)
  | inr m ↦ inl (ground arith, ground arith)
]

length-take_iff :
    (n : ℕ) (l : ℕ) (rest : List Notification)
    → ((l ≡ n) × (n ≤ 100)) ⊎ ((l ≡ 100) × (100 < n))
    → ((length (take l rest) == n) ≡ true) ↔ ((n ≤ 100) × (n ≤ length rest))
length-take_iff n l rest (inr big) =
    let short = length-take l rest in
    ((λ y. absurd (ground (arith, short, big, y))), (λ h. absurd (omega (arith, big.1, h.0))))
length-take_iff n l rest (inl fits) = elim (Bool-cases (ltb (length rest) n)) [
  | inl less ↦
      let size = ap length (take_short l rest (ground (arith, fits.0))) in
      ((λ y. absurd (ground (arith, size, y))), (λ h. absurd (ground (arith, h.1))))
  | inr enough ↦
      let size = length-take_full l rest (ground (arith, fits.0)) in
      ((λ y. (fits.1, ground arith)), (λ h. ground (arith, size, fits.0)))
]

module _ (ext : Ext) (f : Faults) (counts : f.count_fails ≡ false)
    (answers : f.query_fails ≡ false) where
  queries-found :
      (user : String) (limit : ℕ) (rows : List Notification) (c : Option Cursor)
      → queries ext f user limit rows c
        ≡ ok (take limit (remaining user rows c), length (filter (of_user user) rows))
  queries-found user limit rows c =
      rw (counts, answers)
        (ap (λ items. ok (items, length (filter (of_user user) rows)))
          (take-take limit (limit + 1) (remaining user rows c) (omega arith)))

  list-found :
      (user limit cursor : String) (c : Option Cursor) (rows : List Notification)
      → read_cursor ext cursor ≡ ok c
      → list ext f (some user) limit cursor rows
        ≡ ok (
            paged ext (read_limit ext limit) (
              take (page_limit (read_limit ext limit)) (remaining user rows c),
              length (filter (of_user user) rows),
            ))
  unfolding list list_by_user
  list-found user limit cursor c rows r =
      let n = read_limit ext limit in
      ap (λ b. replied ext n (b >>= queries ext f user (page_limit n) rows)) r
      ∙ ap (replied ext n) (queries-found user (page_limit n) rows c)

  -- Where no query fails, the codec reads back what it writes, and the cursor is one that reads, the
  -- answer is a page: the first notifications that are left for the user after the cursor, as many
  -- as the limit says, 100 at most; it says that there are more just where the limit is 100 at most
  -- and that many are left; and its cursor reads as the place of its last notification where it says
  -- so, and as the start where not.
  list-page :
      (user limit cursor : String) (c : Option Cursor) (rows : List Notification)
      → IsCodec ext
      → read_cursor ext cursor ≡ ok c
      → (p : Page) × ((list ext f (some user) limit cursor rows ≡ ok p)
          × ((p.items ≡ take (page_limit (read_limit ext limit)) (remaining user rows c))
              × (((p.has_more ≡ true) ↔ (
                    (read_limit ext limit ≤ 100)
                    × (read_limit ext limit ≤ length (remaining user rows c))))
                  × (read_cursor ext p.next_cursor
                      ≡ ok (if p.has_more then last_cursor p.items else none)))))
  list-page user limit cursor c rows codec r =
      let n = read_limit ext limit in
      let positive_limit = read_limit-positive ext limit in
      let items = take (page_limit n) (remaining user rows c) in
      let total = length (filter (of_user user) rows) in
      (
        paged ext n (items, total),
        (
          list-found user limit cursor c rows r,
          (
            refl,
            (
              length-take_iff n (page_limit n) (remaining user rows c)
                  (page_limit-cases n positive_limit),
              read-next_cursor ext codec n total items positive_limit,
            ),
          ),
        ),
      )
