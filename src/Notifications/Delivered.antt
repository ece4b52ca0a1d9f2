-- ===== src/Notifications/Delivered.antt =====
-- Whom `Notify` of service.go reaches: the unread notifications that an event adds.
use vault_keeper.Prelude.{ℕ, String, ◌≡◌, List, Option, some, string_eq, nat_eq, length, filter}
use vault_keeper.Custody.{Uuid}
use vault_keeper.Notifications.Recipients.{Error}
use vault_keeper.Notifications.Unread.{Notification, Error as StoreError, unread_of}

abbrev pub unread : String → List Notification → ℕ
unread x rows = length (filter (unread_of x) rows)

module _ (parse_uuid : String → Option Uuid) (uuid_string : Uuid → String) where
  -- The text of an id that parses is the one that the id is written as.
  abbrev pub Canonical : String → Type 0
  Canonical user = (uid : Uuid) → parse_uuid user ≡ some uid → uuid_string uid ≡ user
