-- ===== src/Notifications/Notify.antt =====
-- `Notify` of service.go and `Create` of repository.go: the rows and the mail of an event.
use vault_keeper.Prelude.{
  ℕ, suc, String, Bool, false, List, [], ◌∷◌, ◌++◌, Option, none, some, Result, ok, err, ◌==◌,
  string_eq, nat_eq, if◌then◌else◌,
}
use vault_keeper.Custody.{Uuid, Time}
use vault_keeper.Notifications.Recipients.{Error, NotificationEvent, resolve_recipients}
use vault_keeper.Notifications.Unread.{Notification, Error as StoreError, failed as store_failed}

-- What a recipient's turn meets: the new id, the clock, and whether the statement fails.
pub record Turn : Type 0 where
  pub id : Uuid
  pub now : Time
  pub create_fails : Bool

-- A call of `Send`.
pub record Mail : Type 0 where
  pub to : String
  pub subject : String
  pub html_body : String
  pub text_body : String

unfoldable pub create :
    Bool → Notification → List Notification → Result StoreError (Unit {0}) × List Notification
create fails n rows = if fails then (err store_failed, rows) else (ok tt, rows ++ (n ∷ []))

-- `uuid.Nil` is 0.
abbrev pub case_of : Uuid → Option Uuid
case_of id = if id == 0 then none else some id

-- Without a resolver no mail is sent.
abbrev pub mails : Option (String → Option String) → NotificationEvent → String → List Mail
mails none event user = []
mails (some get_user_email) event user = elim (get_user_email user) [
  | none ↦ []
  | some email ↦
      record { to = email; subject = event.title; html_body = event.body; text_body = event.body }
      ∷ []
]

-- Mail is sent for a row that is stored.
abbrev pub mailed :
    List Mail → Result StoreError (Unit {0}) × List Notification → List Notification × List Mail
mailed mail (err e, rows) = (rows, [])
mailed mail (ok _, rows) = (rows, mail)

module _ (parse_uuid : String → Option Uuid) (uuid_string : Uuid → String) where
  abbrev pub row : Turn → NotificationEvent → Uuid → Notification
  row turn event user = record {
    id = turn.id;
    case_id = case_of event.case_id;
    user_id = uuid_string user;
    kind = event.kind;
    title = event.title;
    body = event.body;
    read = false;
    created_at = turn.now;
  }

  -- One turn of the loop; `continue` on each error.
  unfoldable pub notify_one :
      Turn
      → Option (String → Option String)
      → NotificationEvent
      → String
      → List Notification
      → List Notification × List Mail
  notify_one turn resolver event user rows = elim (parse_uuid user) [
    | none ↦ (rows, [])
    | some uid ↦
        mailed (mails resolver event user) (create turn.create_fails (row turn event uid) rows)
  ]

  unfoldable pub notify_each :
      (ℕ → String → Turn)
      → ℕ
      → Option (String → Option String)
      → NotificationEvent
      → List String
      → List Notification
      → List Notification × List Mail
  notify_each turns i resolver event [] rows = (rows, [])
  notify_each turns i resolver event (user ∷ users) rows =
      let one = notify_one (turns i user) resolver event user rows in
      let rest = notify_each turns (suc i) resolver event users one.0 in (rest.0, one.1 ++ rest.1)

  -- Without recipients a line is logged, and nothing is done.
  unfoldable pub notify :
      (ℕ → String → Turn)
      → Option (String → Option String)
      → List String
      → (Uuid → Result Error (List String))
      → NotificationEvent
      → List Notification
      → Result Error (Unit {0}) × (List Notification × List Mail)
  notify turns resolver admins case_users event rows =
      elim (resolve_recipients admins case_users event) [
        | err e ↦ (err e, (rows, []))
        | ok users ↦ (ok tt, notify_each turns 0 resolver event users rows)
      ]
