-- ===== src/Cases/Model.antt =====
-- models.go, and the statements of repository.go on the table cases.
use mathlib.Core.Option.{get_or}
use vault_keeper.Prelude.{
  String, Bool, true, false, ◌&&◌, ◌||◌, List, ◌∷◌, Option, none, some, Result, ok, err, ◌==◌,
  nat_eq, string_eq, if◌then◌else◌, any, is_none,
}
use vault_keeper.Prelude.Table.{row, set_row}
use vault_keeper.Custody.{Uuid, Time}

pub record Case : Type 0 where
  pub id : Uuid
  pub reference_code : String
  pub title : String
  pub description : String
  pub jurisdiction : String
  pub status : String
  pub legal_hold : Bool
  pub created_by : String
  pub created_by_name : String
  pub created_at : Time
  pub updated_at : Time

pub record CreateCaseInput : Type 0 where
  pub reference_code : String
  pub title : String
  pub description : String
  pub jurisdiction : String

pub record UpdateCaseInput : Type 0 where
  pub title : Option String
  pub description : Option String
  pub jurisdiction : Option String
  pub status : Option String

-- `ErrNotFound`, a `*ValidationError`, the unique reference code, or a wrapped database error.
pub data Error : Type 0 where
  not_found : Error
  reference_code_exists : Error
  validation : String → String → Error
  database : String → Error

abbrev pub status_active : String
status_active = "active"

abbrev pub status_closed : String
status_closed = "closed"

abbrev pub status_archived : String
status_archived = "archived"

-- The map `validStatusTransitions`.
abbrev pub transition_from : String → Option String
transition_from from =
    if from == status_active
    then some status_closed
    else if from == status_closed
    then some status_archived
    else none

unfoldable pub is_valid_status_transition : String → String → Bool
is_valid_status_transition from to = elim (transition_from from) [
  | none ↦ false
  | some allowed ↦ allowed == to
]

-- An event that the custody recorder was asked to write for a case.
pub record CaseEvent : Type 0 where
  pub case_id : Uuid
  pub action : String
  pub actor_user_id : String
  pub detail : List (String × String)

pub record Store : Type 0 where
  pub cases : List Case
  pub custody : List CaseEvent

-- Which statements the database refuses, and whether there is a recorder and it works.
pub record Faults : Type 0 where
  pub find_fails : Bool
  pub find_again_fails : Bool
  pub write_fails : Bool
  pub has_recorder : Bool
  pub record_fails : Bool

abbrev pub no_faults : Faults
no_faults = record {
  find_fails = false;
  find_again_fails = false;
  write_fails = false;
  has_recorder = true;
  record_fails = false;
}

abbrev pub case_row : Uuid → List Case → Option Case
case_row = row (λ c. c.id)

found : Option Case → Result Error Case
found none = err not_found
found (some c) = ok c

unfoldable pub find_by_id : Bool → Uuid → List Case → Result Error Case
unfolding found
find_by_id fails id cases =
    if fails then err (database "find case by id") else found (case_row id cases)

-- INSERT … RETURNING, under the primary key and the unique index on reference_code. The row gets its
-- id and its times from the column defaults.
unfoldable pub create : Bool → Uuid → Time → Case → List Case → Result Error Case × List Case
create fails fresh now c cases =
    if fails || any (λ (d : Case). d.id == fresh) cases
    then (err (database "insert case"), cases)
    else if any (λ (d : Case). d.reference_code == c.reference_code) cases
    then (err reference_code_exists, cases)
    else (let c₁ = record c { id = fresh; created_at = now; updated_at = now } in
        (ok c₁, c₁ ∷ cases))

-- The SET list: one assignment for each field that is given, and the time.
unfoldable pub assign : Time → UpdateCaseInput → Case → Case
assign now u c = record c {
  title = get_or u.title c.title;
  description = get_or u.description c.description;
  jurisdiction = get_or u.jurisdiction c.jurisdiction;
  status = get_or u.status c.status;
  updated_at = now;
}

abbrev pub nothing_given : UpdateCaseInput → Bool
nothing_given u =
    is_none u.title && (is_none u.description && (is_none u.jurisdiction && is_none u.status))

-- `RETURNING` of an UPDATE that met no row is `ErrNoRows`.
unfoldable pub update :
    Bool → Time → Uuid → UpdateCaseInput → List Case → Result Error Case × List Case
unfolding found
update fails now id u cases =
    if nothing_given u
    then (find_by_id fails id cases, cases)
    else if fails
    then (err (database "update case"), cases)
    else (let cases₁ = set_row (λ c. c.id) id (assign now u) cases in
        (found (case_row id cases₁), cases₁))

affected : Option Case → Result Error (Unit {0})
affected none = err not_found
affected (some c) = ok tt

-- UPDATE cases SET status = 'archived'
unfoldable pub archive : Bool → Time → Uuid → List Case → Result Error (Unit {0}) × List Case
unfolding affected
archive fails now id cases = if fails then (err (database "archive case"), cases) else (
  affected (case_row id cases),
  set_row (λ c. c.id) id (λ c. record c { status = status_archived; updated_at = now }) cases,
)

-- UPDATE cases SET legal_hold = $1
unfoldable pub set_hold :
    Bool → Time → Uuid → Bool → List Case → Result Error (Unit {0}) × List Case
unfolding affected
set_hold fails now id hold cases = if fails then (err (database "set legal hold"), cases) else (
  affected (case_row id cases),
  set_row (λ c. c.id) id (λ c. record c { legal_hold = hold; updated_at = now }) cases,
)
