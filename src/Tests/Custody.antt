-- ===== src/Tests/Custody.antt =====
-- The custody chain on small histories. The digest keeps its text, and the column keeps thousands.
use Prim.Native.Nat.{◌*◌, ◌/◌}
use mathlib.Core.Bool.{false≢true}
use vault_keeper.Prelude.{
  ℕ, String, ◌≡◌, refl, true, false, List, [], ◌∷◌, none, some, arith, eq_iff, ◌==◌, nat_eq,
  string_eq, if◌then◌else◌, length, map, ok, ◌↔◌,
}
use vault_keeper.Prelude.Int.{pos, clamp}
use vault_keeper.Custody.{Ext, Event, ChainVerification, uuid_nil}
use vault_keeper.Custody.Hash.{compute_log_hash, entry_text}
use vault_keeper.Custody.Verify.{verify_events, verify_events_iff, IsChain}
use vault_keeper.Custody.Log.{
  Request, Faults, no_faults, insert, list_all_by_case, verify_case_chain, record_all,
}
use vault_keeper.Custody.Append.{record_all-valid}
use vault_keeper.Custody.Refines.{fact, log_of, list_all_by_case-log}
use vault_keeper.Custody.Breaks.{late_insert_breaks}
use vault_keeper.Custody.Binding.{verified_same_texts}
use vault_keeper.Custody.Pages.{CursorCodec, Page, list, page_of, read_cursor}

abbrev pub toy : Ext
toy = record {
  sha256_hex = λ s. s;
  uuid_string = λ n. "u";
  rfc3339_nano = λ t. if t == 1000 then "1000" else "other";
  Json = Unit;
  unmarshal = λ s. none;
  marshal = λ j. none;
  marshal_map = λ m. "{}";
  column_time = λ t. t / 1000 * 1000;
  actor_column = λ a. if a == "" then none else some a;
}

-- Every digest has one length.
abbrev flat : Ext
flat = record toy { sha256_hex = λ s. "d" }

abbrev pub entry_at : ℕ → ℕ → Event
entry_at id time = record {
  id = id;
  case_id = 7;
  evidence_id = uuid_nil;
  action = "case_created";
  actor_user_id = "a";
  detail = "{}";
  hash_value = "h";
  previous_hash = "";
  timestamp = time;
}

abbrev broken : Faults
broken = record no_faults { commit_fails = true }

abbrev pub history : List (Request toy)
history =
    (record { faults = no_faults; fresh = 1; event = entry_at 0 1000 })
    ∷ (record { faults = broken; fresh = 2; event = entry_at 0 2000 })
    ∷ (record { faults = no_faults; fresh = 3; event = entry_at 0 3000 })
    ∷ []

record_all-valid_example :
    (v : ChainVerification) × (verify_case_chain toy false 5000 7 (record_all toy history [])
      ≡ ok v)
    × (v.valid ≡ true)
record_all-valid_example =
    record_all-valid toy history 0 5000 7
      (omega arith, (refl, refl), (omega arith, (refl, refl), (omega arith, (refl, refl), tt)))

list_all_by_case-log_example :
    map fact (list_all_by_case 7 (record_all toy history [])) ≡ log_of toy 7 history
list_all_by_case-log_example =
    list_all_by_case-log toy 7 history 0
      (omega arith, (refl, refl), (omega arith, (refl, refl), (omega arith, (refl, refl), tt)))

history_entries : length (record_all toy history []) ≡ 2
unfolding record_all insert
history_entries = refl

verify_events_iff_example :
    ((verify_events toy 0 (entry_at 1 5 ∷ [])).valid ≡ true) ↔ IsChain toy "" (entry_at 1 5 ∷ [])
verify_events_iff_example = verify_events_iff toy 0 (entry_at 1 5 ∷ [])

late_insert_breaks_example :
    (verify_events toy 0 (
      list_all_by_case 7 (insert toy no_faults 2 (entry_at 0 1000) (entry_at 1 2000 ∷ [])).1)).valid
    ≡ false
late_insert_breaks_example =
    late_insert_breaks toy 2 (entry_at 0 1000) (entry_at 1 2000) [] (entry_at 1 2000 ∷ []) 0 refl
      (tt, tt) refl (omega arith) (λ e. false≢true ((eq_iff "" "h").1 e)) tt

abbrev flat_entry : String → Event
flat_entry prev = record (entry_at 1 5) { hash_value = "d"; previous_hash = prev }

abbrev two_entries : List Event
two_entries = flat_entry "" ∷ flat_entry "d" ∷ []

verified_two_entries : (verify_events flat 0 two_entries).valid ≡ true
unfolding compute_log_hash
verified_two_entries =
    (verify_events_iff flat 0 two_entries).1
      (record { hashed = refl; linked = refl }, (record { hashed = refl; linked = refl }, tt))

verified_same_texts_example : map (entry_text flat) two_entries ≡ map (entry_text flat) two_entries
verified_same_texts_example =
    verified_same_texts flat 0 0 two_entries two_entries (λ s t. refl) (λ e. refl, (λ e. refl, tt))
      refl verified_two_entries verified_two_entries refl

abbrev plain : CursorCodec
plain = record {
  decode_base64 = λ s. some s;
  parse_uuid = λ s. if s == "five" then some 5 else none;
}

abbrev two_rows : List Event
two_rows = entry_at 5 3000 ∷ entry_at 9 1000 ∷ []

abbrev second_page : Page
second_page = page_of "case_id" 7 200 two_rows (some 5)

second_page_read : list plain false false "case_id" 7 (pos 10000) "five" two_rows ≡ ok second_page
unfolding list clamp read_cursor
second_page_read = refl
