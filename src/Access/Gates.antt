-- ===== src/Access/Gates.antt =====
-- The guards of permissions.go, and the table case_roles with its handlers (cases/roles.go).
use vault_keeper.Prelude.{
  ℕ, zero, suc, String, Bool, not, ◌&&◌, ◌||◌, List, [], ◌∷◌, Option, none, some, Result, ok, err,
  ◌==◌, nat_eq, string_eq, if◌then◌else◌, ltb, leb, any, filter, find,
}
use vault_keeper.Prelude.Sort.{sort_by}
use vault_keeper.Custody.{Uuid, Time}
use vault_keeper.Access.Roles.{SystemRole, level, role_system_admin}

pub record CaseRole : Type 0 where
  pub id : Uuid
  pub case_id : Uuid
  pub user_id : String
  pub role : String
  pub granted_by : String
  pub granted_at : Time

pub data Error : Type 0 where
  not_found no_case_role role_already_assigned failed : Error

abbrev pub of_user : Uuid → String → CaseRole → Bool
of_user case_id user r = r.case_id == case_id && r.user_id == user

abbrev pub valid_case_role : String → Bool
valid_case_role r =
    r == "investigator"
    || (r == "prosecutor"
        || (r == "defence" || (r == "judge" || (r == "observer" || r == "victim_representative"))))

-- The CHECK on the role comes first. A clash of ids or of the triple is a "duplicate key".
-- UNIQUE (case_id, user_id, role): a user may have several roles in a case.
abbrev pub clashes : Uuid → String → String → CaseRole → Bool
clashes case_id user role r = of_user case_id user r && r.role == role

unfoldable pub assign_role :
    Bool
    → Uuid
    → Time
    → Uuid
    → String
    → String
    → String
    → List CaseRole
    → Result Error CaseRole × List CaseRole
assign_role fails fresh now case_id user role by roles =
    let r : CaseRole = record {
      id = fresh;
      case_id = case_id;
      user_id = user;
      role = role;
      granted_by = by;
      granted_at = now;
    } in
    if fails || not (valid_case_role role)
    then (err failed, roles)
    else if any (λ (q : CaseRole). q.id == fresh) roles || any (clashes case_id user role) roles
    then (err role_already_assigned, roles)
    else (ok r, r ∷ roles)

-- DELETE … WHERE case_id = $1 AND user_id = $2: every role of the user in the case goes.
unfoldable pub revoke_role :
    Bool → Uuid → String → List CaseRole → Result Error (Unit {0}) × List CaseRole
revoke_role fails case_id user roles =
    if fails
    then (err failed, roles)
    else if any (of_user case_id user) roles
    then (ok tt, filter (λ r. not (of_user case_id user r)) roles)
    else (err not_found, roles)

abbrev pub by_grant : CaseRole → CaseRole → Bool
by_grant a b = leb a.granted_at b.granted_at

unfoldable pub list_roles : Bool → Uuid → List CaseRole → Result Error (List CaseRole)
list_roles fails case_id roles =
    if fails then err failed else ok (sort_by by_grant (filter (λ r. r.case_id == case_id) roles))

-- `LIMIT 1` with no ORDER BY: which of the user's rows comes is the database's choice, a number of
-- rows that it skips, as long as others are left.
abbrev pub choose : ℕ → List CaseRole → Option CaseRole
choose n [] = none
choose zero (r ∷ roles) = some r
choose (suc n) (r ∷ []) = some r
choose (suc n) (r ∷ q ∷ roles) = choose n (q ∷ roles)

abbrev loaded : Option CaseRole → Result Error String
loaded none = err no_case_role
loaded (some r) = ok r.role

unfoldable pub load_case_role : Bool → ℕ → Uuid → String → List CaseRole → Result Error String
load_case_role fails n case_id user roles =
    if fails then err failed else loaded (choose n (filter (of_user case_id user) roles))

-- What a guard does with a request: pass it on, with the case role it put into the context, or
-- answer with a status; a refusal for want of permission also goes to the audit log.
pub data Outcome : Type 0 where
  pass : Option String → Outcome
  refuse : ℕ → Outcome
  deny : Outcome

-- Who asks, `none` where the request was not authenticated.
pub record Caller : Type 0 where
  pub user_id : String
  pub system_role : SystemRole

unfoldable pub require_system_role : SystemRole → Option Caller → Outcome
require_system_role minimum none = refuse 500
require_system_role minimum (some c) =
    if ltb (level c.system_role) (level minimum) then deny else pass none

role_checked : List String → Result Error String → Outcome
role_checked allowed (err no_case_role) = deny
role_checked allowed (err _) = refuse 500
role_checked allowed (ok role) = if any (λ a. a == role) allowed then pass (some role) else deny

-- `case_id` is what the route gives, `none` an empty parameter; `load` is `LoadCaseRole`.
unfoldable pub require_case_role :
    (Uuid → String → Result Error String) → List String → Option Caller → Option Uuid → Outcome
unfolding role_checked
require_case_role load allowed none case_id = refuse 500
require_case_role load allowed (some c) case_id =
    if leb (level role_system_admin) (level c.system_role)
    then pass none
    else elim case_id [ none ↦ refuse 400 | some id ↦ role_checked allowed (load id c.user_id) ]

-- A custody event of the handlers: the action, the user and the role.
pub record RoleEvent : Type 0 where
  pub action : String
  pub case_id : Uuid
  pub user_id : String
  pub role : String
  pub by : String

pub record Store : Type 0 where
  pub roles : List CaseRole
  pub custody : List RoleEvent

-- The recorder is optional, and its error is dropped.
abbrev record_event : Bool → RoleEvent → Store → Store
record_event works e s = if works then record s { custody = e ∷ s.custody } else s

status_of : Error → ℕ
status_of role_already_assigned = 409
status_of not_found = 404
status_of _ = 500

-- `Assign` of the handler, from the parsed request on; the answer is a status.
unfoldable pub handle_assign :
    Bool → Bool → Uuid → Time → String → Uuid → String → String → Store → ℕ × Store
unfolding status_of
handle_assign fails recorder fresh now by case_id user role s =
    if not (valid_case_role role)
    then (400, s)
    else if user == ""
    then (400, s)
    else (let (r, roles) = assign_role fails fresh now case_id user role by s.roles in
        elim r [
          | err e ↦ (status_of e, s)
          | ok _ ↦ (
            201,
            record_event recorder
                (record {
                  action = "role_granted";
                  case_id = case_id;
                  user_id = user;
                  role = role;
                  by = by;
                })
                (record s { roles = roles }),
          )
        ])

-- The role that the event names: the first of the list that is the user's, empty where none is.
first_role : String → List CaseRole → String
first_role user roles = elim (find (λ r. r.user_id == user) roles) [ none ↦ "" | some r ↦ r.role ]

unfoldable pub handle_revoke : Bool → Bool → Bool → String → Uuid → String → Store → ℕ × Store
unfolding status_of first_role
handle_revoke list_fails fails recorder by case_id user s =
    if user == by then (403, s) else elim (list_roles list_fails case_id s.roles) [
      | err _ ↦ (500, s)
      | ok listed ↦
          let (r, roles) = revoke_role fails case_id user s.roles in
          elim r [
            | err e ↦ (status_of e, s)
            | ok _ ↦ (
              200,
              record_event recorder
                  (record {
                    action = "role_revoked";
                    case_id = case_id;
                    user_id = user;
                    role = first_role user listed;
                    by = by;
                  })
                  (record s { roles = roles }),
            )
          ]
    ]
