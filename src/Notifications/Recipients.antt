-- ===== src/Notifications/Recipients.antt =====
-- Whom an event reaches: `resolveRecipients` and `deduplicateStrings` of service.go.
use vault_keeper.Prelude.{
  ℕ, ◌+◌, String, ◌≡◌, refl, Bool, ◌||◌, List, [], ◌∷◌, ◌++◌, Result, ok, err, arith, ◌==◌,
  string_eq, eq_iff, if◌then◌else◌, any, map, filter, nat_eq,
}
use vault_keeper.Custody.{Uuid}
use vault_keeper.Access.Gates.{CaseRole}

pub data Error : Type 0 where
  missing_target : Error
  failed : String → Error

pub record NotificationEvent : Type 0 where
  pub kind : String
  pub case_id : Uuid
  pub title : String
  pub body : String
  pub target_user_id : String

-- The map `seen`, as the list of what is in it.
unfoldable pub unseen : List String → List String → List String
unseen seen [] = []
unseen seen (s ∷ ss) =
    let skipped = unseen seen ss in
    let kept = s ∷ unseen (s ∷ seen) ss in if any (λ t. t == s) seen then skipped else kept

unfoldable pub deduplicate_strings : List String → List String
deduplicate_strings ss = unseen [] ss

-- `arrange` is the order that the query of the DISTINCT users leaves open.
unfoldable pub get_case_user_ids :
    Bool → (List String → List String) → List CaseRole → Uuid → Result Error (List String)
get_case_user_ids fails arrange roles case_id =
    if fails
    then err (failed "get case user IDs")
    else ok (
        arrange (
          deduplicate_strings (
            map (λ (r : CaseRole). r.user_id)
              (filter (λ (r : CaseRole). r.case_id == case_id) roles))))

-- `users` are the DISTINCT users of the case's roles, or the error of that query.
abbrev warned : List String → Result Error (List String) → Result Error (List String)
warned admins (err _) = err (failed "get case users for integrity warning")
warned admins (ok users) = ok (deduplicate_strings (admins ++ users))

-- An event of no known kind reaches nobody.
unfoldable pub resolve_recipients :
    List String
    → (Uuid → Result Error (List String))
    → NotificationEvent
    → Result Error (List String)
resolve_recipients admins case_users event =
    if event.kind == "evidence_uploaded" || event.kind == "legal_hold_changed"
    then case_users event.case_id
    else if event.kind == "user_added_to_case"
    then (if event.target_user_id == "" then err missing_target else ok (event.target_user_id ∷ []))
    else if event.kind == "integrity_warning"
    then warned admins (case_users event.case_id)
    else if event.kind == "retention_expiring" || event.kind == "backup_failed"
    then ok admins
    else ok []

abbrev pub has : String → List String → Bool
has x ss = any (λ t. t == x) ss

abbrev pub count : String → List String → ℕ
count x [] = 0
count x (s ∷ ss) = (if s == x then 1 else 0) + count x ss

unseen-count :
    (x : String) (seen ss : List String)
    → count x (unseen seen ss) ≡ (if has x seen then 0 else if has x ss then 1 else 0)
unfolding unseen
unseen-count x seen [] = ground arith
unseen-count x seen (s ∷ ss) =
    let skipped = unseen-count x seen ss in
    let kept = unseen-count x (s ∷ seen) ss in ground (arith, skipped, kept, eq_iff s x)

pub deduplicate_strings-count :
    (x : String) (ss : List String) → count x (deduplicate_strings ss) ≡ (if has x ss then 1 else 0)
unfolding deduplicate_strings
deduplicate_strings-count x ss = unseen-count x [] ss

pub resolve_recipients-warned :
    (admins users : List String) (case_users : Uuid → Result Error (List String))
    (event : NotificationEvent)
    → event.kind ≡ "integrity_warning"
    → case_users event.case_id ≡ ok users
    → resolve_recipients admins case_users event ≡ ok (deduplicate_strings (admins ++ users))
unfolding resolve_recipients
resolve_recipients-warned admins users case_users event k u = rw (k, u) refl

-- An integrity warning reaches every administrator of the system and every user of the case exactly
-- once, and nobody else.
resolve_recipients-once :
    (admins users : List String) (case_users : Uuid → Result Error (List String))
    (event : NotificationEvent) (x : String)
    → event.kind ≡ "integrity_warning"
    → case_users event.case_id ≡ ok users
    → (recipients : List String) × ((resolve_recipients admins case_users event ≡ ok recipients)
        × (count x recipients ≡ (if has x (admins ++ users) then 1 else 0)))
resolve_recipients-once admins users case_users event x k u = (
  deduplicate_strings (admins ++ users),
  (
    resolve_recipients-warned admins users case_users event k u,
    deduplicate_strings-count x (admins ++ users),
  ),
)
