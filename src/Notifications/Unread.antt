-- ===== src/Notifications/Unread.antt =====
-- The table notifications: the statements of repository.go on what is read.
use vault_keeper.Prelude.{
  ℕ, String, ◌≡◌, refl, sym, ap, inl, inr, Bool-cases, Bool, true, false, not, ◌&&◌, List, [], ◌∷◌,
  Option, Result, ok, err, arith, ◌==◌, nat_eq, string_eq, eq_iff, if◌then◌else◌, length, filter,
  any, update_where,
}
use vault_keeper.Custody.{Uuid, Time}

pub record Notification : Type 0 where
  pub id : Uuid
  pub case_id : Option Uuid
  pub user_id : String
  pub kind : String
  pub title : String
  pub body : String
  pub read : Bool
  pub created_at : Time

pub data Error : Type 0 where
  not_found failed : Error

abbrev pub unread_of : String → Notification → Bool
unread_of user n = n.user_id == user && not n.read

abbrev pub is_read : Notification → Notification
is_read n = record n { read = true }

unfoldable pub get_unread_count : Bool → String → List Notification → Result Error ℕ
get_unread_count fails user rows =
    if fails then err failed else ok (length (filter (unread_of user) rows))

-- A notification of another user is not found.
unfoldable pub mark_read :
    Bool → Uuid → String → List Notification → Result Error (Unit {0}) × List Notification
mark_read fails id user rows =
    if fails
    then (err failed, rows)
    else if any (λ n. n.id == id && n.user_id == user) rows
    then (ok tt, update_where (λ n. n.id == id && n.user_id == user) is_read rows)
    else (err not_found, rows)

unfoldable pub mark_all_read :
    Bool → String → List Notification → Result Error (Unit {0}) × List Notification
mark_all_read fails user rows =
    if fails then (err failed, rows) else (ok tt, update_where (unread_of user) is_read rows)

all_read-none :
    (user : String) (rows : List Notification)
    → length (filter (unread_of user) (update_where (unread_of user) is_read rows)) ≡ 0
all_read-none user [] = refl
all_read-none user (n ∷ rows) = ground (arith, all_read-none user rows)

all_read-others :
    (user other : String) (rows : List Notification)
    → (user == other) ≡ false
    → length (filter (unread_of other) (update_where (unread_of user) is_read rows))
      ≡ length (filter (unread_of other) rows)
all_read-others user other [] h = refl
all_read-others user other (n ∷ rows) h = ground (
  arith,
  eq_iff n.user_id user,
  eq_iff n.user_id other,
  eq_iff user other,
  all_read-others user other rows h,
)

-- After a successful call for a user, that user has nothing unread, and the count of any other user
-- is as before.
mark_all_read-count :
    (user other : String) (rows : List Notification)
    → get_unread_count false other (mark_all_read false user rows).1
      ≡ (if user == other then ok 0 else get_unread_count false other rows)
unfolding mark_all_read get_unread_count
mark_all_read-count user other rows = elim (Bool-cases (user == other)) [
  | inl y ↦
      let none_left =
        ap (λ u. length (filter (unread_of u) (update_where (unread_of user) is_read rows)))
          (sym ((eq_iff user other).0 y)) in
      rw (y, none_left, all_read-none user rows) refl
  | inr n ↦ rw (n, all_read-others user other rows n) refl
]
