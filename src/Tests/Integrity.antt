-- ===== src/Tests/Integrity.antt =====
-- Hexadecimal digits, a verification run and a run of the retry.
use vault_keeper.Prelude.{◌+◌, ◌≡◌, refl, false, [], ◌∷◌, none, some, ok, ltb, nat_eq}
use vault_keeper.Prelude.Sort.{sort_by}
use vault_keeper.Evidence.Repository.{list_for_verification, day}
use vault_keeper.Evidence.Store.{no_faults}
use vault_keeper.Evidence.Service.{upload, unavailable}
use vault_keeper.Integrity.Hex.{hex_to_bytes}
use vault_keeper.Integrity.Retry
use vault_keeper.Integrity.Retry.{Turn, acquired, run_once, retry_item}
use vault_keeper.Integrity.Check.{
  Ext, ItemFaults, World, new_job, run_verification, verify_file_hash,
}
use vault_keeper.Integrity.Counts.{run_verification-counts, verify_file_hash-upload}
use vault_keeper.Tests.Evidence.{plain, input, active, item, uploaded, store_of, case_in}

abbrev checker : Ext
checker = record {
  sha256_hex = λ b. "e3b0";
  error_text = λ e. "";
  mismatch_body = λ i h. "";
  missing_body = λ i e. "";
}

abbrev fine : ItemFaults
fine = record {
  get_fails = false;
  hash_fails = false;
  token_rejected = false;
  flag_fails = false;
  notify_fails = false;
  recorder = no_faults;
}

-- The file is not in the storage.
abbrev lost : World
lost = record { store = store_of (case_in "active" false) (item ∷ []); notified = [] }

listed : list_for_verification false 4 lost.store.items ≡ ok (item ∷ [])
unfolding list_for_verification sort_by
listed = refl

run_verification-counts_example :
    let j = (run_verification checker false (λ i. fine) "u" (new_job 2 4 5) lost).0 in
    (j.status ≡ "completed")
    × (j.total ≡ 1)
    × (j.verified + j.mismatches + j.missing ≡ 1)
    × (j.verified ≡ 0)
run_verification-counts_example =
    run_verification-counts checker (λ i. fine) "u" 2 4 5 lost (item ∷ []) listed

verify_file_hash-upload_example :
    verify_file_hash checker fine "a.txt" "e3b0"
      (upload plain 10 no_faults 1 9 5 unavailable input active).1.objects
    ≡ ("e3b0", none)
verify_file_hash-upload_example =
    verify_file_hash-upload checker plain 10 no_faults fine 1 9 5 unavailable input active
      {e = item} (λ b. refl) uploaded refl refl

abbrev texts : Retry.Ext
texts = record { bytes = λ s. []; decimal = λ n. "1" }

abbrev turn : Turn
turn = record { cancelled = false; now = 90000000000000; faults = no_faults; issue = λ d. none }

day_passed : ltb 90000000000000 (5 + day) ≡ false
unfolding day
day_passed = refl

abbrev disabled : Turn
disabled = record {
  cancelled = false;
  now = 10;
  faults = no_faults;
  issue = λ d. some (none, "", 0);
}

in_time : ltb (5 + day) 10 ≡ false
unfolding day
in_time = refl

empty_digest : hex_to_bytes [] ≡ ok []
unfolding hex_to_bytes
empty_digest = refl
