-- ===== src/Tests/Notifications.antt =====
-- An integrity warning, and the pages of two notifications. The texts of times and ids are unary.
use vault_keeper.Prelude.{
  ℕ, zero, suc, String, ◌≡◌, refl, false, List, [], ◌∷◌, Option, none, some, ◌==◌, string_eq, not,
  nat_eq, if◌then◌else◌,
}
use vault_keeper.Prelude.Int.{pos}
use vault_keeper.Custody.{Uuid}
use vault_keeper.Notifications.Recipients.{NotificationEvent}
use vault_keeper.Access.Gates.{CaseRole}
use vault_keeper.Notifications.Unread.{Notification}
use vault_keeper.Notifications.Notify.{Turn}
use vault_keeper.Notifications.Pages.{Ext, Faults, last_bar}
use vault_keeper.Notifications.Cursors.{IsCodec}
use vault_keeper.Tests.Walk.{encode, decode, decode-encode}

abbrev warning : NotificationEvent
warning = record {
  kind = "integrity_warning";
  case_id = 4;
  title = "";
  body = "";
  target_user_id = "";
}

abbrev note : Notification
note = record {
  id = 1;
  case_id = none;
  user_id = "u";
  kind = "backup_failed";
  title = "";
  body = "";
  read = false;
  created_at = 3;
}

abbrev parse_name : String → Option Uuid
parse_name s = if s == "a" then some 1 else if s == "b" then some 2 else none

abbrev name : Uuid → String
name id = if id == 1 then "a" else "b"

-- The first turn fails.
abbrev turns : ℕ → String → Turn
turns i user = record { id = i; now = 5; create_fails = not (user == "b") }

abbrev members : List CaseRole
members =
    record { id = 1; case_id = 4; user_id = "b"; role = "judge"; granted_by = "a"; granted_at = 0 }
    ∷ record {
      id = 2;
      case_id = 5;
      user_id = "c";
      role = "judge";
      granted_by = "a";
      granted_at = 0;
    }
    ∷ record {
      id = 3;
      case_id = 4;
      user_id = "a";
      role = "judge";
      granted_by = "a";
      granted_at = 0;
    }
    ∷ record {
      id = 4;
      case_id = 4;
      user_id = "b";
      role = "defence";
      granted_by = "a";
      granted_at = 0;
    }
    ∷ []

abbrev ext : Ext
ext = record {
  encode_base64 = λ s. s;
  decode_base64 = λ s. some s;
  format_time = encode;
  parse_time = decode;
  uuid_string = encode;
  parse_uuid = decode;
  atoi = λ s. some (pos 1);
}

encode_no_bar : (id : Uuid) → last_bar (encode id) ≡ none
encode_no_bar zero = refl
encode_no_bar (suc n) = rw (encode_no_bar n) refl

ext-IsCodec : IsCodec ext
ext-IsCodec = record {
  base64 = λ text. refl;
  time = decode-encode;
  uuid = decode-encode;
  filled = λ text h. h;
  no_bar = encode_no_bar;
}

abbrev faultless : Faults
faultless = record { count_fails = false; query_fails = false }

abbrev notes : List Notification
notes = note ∷ record note { id = 2 } ∷ record note { id = 3; created_at = 1 } ∷ []
