-- ===== src/Backup/Failures.antt =====
-- The count of failures in a row, and what the notifier is told, over any sequence of runs.
use vault_keeper.Prelude.{
  ℕ, ◌+◌, ◌≡◌, refl, Bool, true, false, ◌&&◌, List, [], ◌∷◌, Option, none, some, arith, leb, ap,
  ◌∙◌, nat_eq, if◌then◌else◌, inl, inr, Bool-cases, Option-cases, Result-cases,
}
use vault_keeper.Custody.{Uuid}
use vault_keeper.Backup.Format.{Bytes}
use vault_keeper.Backup.Crypt.{Crypto, encrypt}
use vault_keeper.Backup.Runs.{
  BackupResult, RunError, insert_failed, dump_failed, encrypt_failed, write_failed, Notice, Store,
  Ext, Runner, Turn, warning, critical, archive, insert_log, notify_failed, update_log_failed,
  update_log_completed, fail_backup, write_to_file, finish_backup, write_backup, save_dump,
  run_backup, begun,
}

abbrev Reply : Type 0
Reply = BackupResult × Option RunError

-- The count after a run, by the error that it returned: one of the first statement leaves it.
abbrev counts : RunError → Bool
counts insert_failed = false
counts _ = true

abbrev counted : ℕ → Option RunError → ℕ
counted n none = 0
counted n (some e) = if counts e then n + 1 else n

abbrev notice : ℕ → Uuid → RunError → Notice
notice n id e = record {
  level = if leb (n + 1) 2 then warning else critical;
  id = id;
  failures = n + 1;
  error = e;
}

-- The calls of the notifier after a run, newest first.
abbrev told : Bool → ℕ → Reply → List Notice → List Notice
told notifies n (result, none) ns = ns
told notifies n (result, some e) ns = if counts e && notifies then notice n result.id e ∷ ns else ns

-- A run with its reply keeps the account.
abbrev Accounts : Runner → Store → Reply × Store → Type 0
Accounts br s (reply, s') =
    (s'.consecutive_failures ≡ counted s.consecutive_failures reply.1)
    × (s'.notices ≡ told br.has_notifier s.consecutive_failures reply s.notices)

module _ (ext : Ext) (c : Crypto) (br : Runner) (t : Turn) where
  fail_backup-Accounts :
      (e : RunError) (s : Store)
      → counts e ≡ true
      → Accounts br s (fail_backup br t (begun ext c br t) e s)
  unfolding fail_backup notify_failed update_log_failed
  fail_backup-Accounts e s n = ground arith

  finish_backup-Accounts : (n : ℕ) (s : Store) → Accounts br s (finish_backup ext c br t n s)
  unfolding finish_backup update_log_completed
  finish_backup-Accounts n s = ground arith

  write_backup-Accounts : (out : Bytes) (s : Store) → Accounts br s (write_backup ext c br t out s)
  unfolding write_backup
  write_backup-Accounts out s =
      let path = ext.backup_path br.destination t.id in
      let filed : Store = record s { files = (write_to_file t.disk path out s.files).1 } in
      elim (Result-cases (write_to_file t.disk path out s.files).0) [
        | inl (n, y) ↦ rw (y, write_backup) (finish_backup-Accounts n filed)
        | inr (e, y) ↦ rw (y, write_backup) (fail_backup-Accounts (write_failed e) filed refl)
      ]

  save_dump-Accounts : (dump : Bytes) (s : Store) → Accounts br s (save_dump ext c br t dump s)
  unfolding save_dump
  save_dump-Accounts dump s =
      elim (Result-cases
        (encrypt c t.rand (record { bytes = archive ext c br t dump; fails = false }) br.enc_key)) [
          | inl (out, y) ↦ rw (y, save_dump) (write_backup-Accounts out s)
          | inr (e, y) ↦ rw (y, save_dump) (fail_backup-Accounts (encrypt_failed e) s refl)
        ]

  insert_log_keeps :
      (s : Store)
      → ((insert_log t.insert_fails br t.id t.started_at s).1.consecutive_failures
          ≡ s.consecutive_failures)
        × ((insert_log t.insert_fails br t.id t.started_at s).1.notices ≡ s.notices)
  unfolding insert_log
  insert_log_keeps s = ground arith

  run_backup-Accounts : (s : Store) → Accounts br s (run_backup ext c br t s)
  unfolding run_backup
  run_backup-Accounts s =
      let logged = (insert_log t.insert_fails br t.id t.started_at s).1 in
      elim (Bool-cases (insert_log t.insert_fails br t.id t.started_at s).0) [
        | inl y ↦ elim (Option-cases t.dump) [
          | inl d ↦ ground (arith, insert_log_keeps s, fail_backup-Accounts dump_failed logged refl)
          | inr (dump, d) ↦ ground (arith, insert_log_keeps s, save_dump-Accounts dump logged)
        ]
        | inr y ↦ ground (arith, insert_log_keeps s)
      ]

module _ (ext : Ext) (c : Crypto) (br : Runner) where
  -- One run after another, with the replies.
  unfoldable pub run_all : List Turn → Store → List Reply × Store
  run_all [] s = ([], s)
  run_all (t ∷ ts) s =
      let (reply, after) = run_backup ext c br t s in
      let (replies, last) = run_all ts after in (reply ∷ replies, last)

  abbrev pub count_after : ℕ → List Reply → ℕ
  count_after n [] = n
  count_after n (r ∷ rs) = count_after (counted n r.1) rs

  abbrev pub told_after : ℕ → List Reply → List Notice → List Notice
  told_after n [] ns = ns
  told_after n (r ∷ rs) ns = told_after (counted n r.1) rs (told br.has_notifier n r ns)

  -- After any sequence of runs the count of failures in a row and the calls of the notifier are
  -- those that the replies of the runs account for: a success sets the count to 0, an error adds 1
  -- and is told, with the count, as critical from 3 on; the error of the first statement does
  -- neither.
  pub run_all-count :
      (ts : List Turn) (s : Store)
      → ((run_all ts s).1.consecutive_failures
          ≡ count_after s.consecutive_failures (run_all ts s).0)
        × ((run_all ts s).1.notices ≡ told_after s.consecutive_failures (run_all ts s).0 s.notices)
  unfolding run_all
  run_all-count [] s = (refl, refl)
  run_all-count (t ∷ ts) s =
      let after = (run_backup ext c br t s).1 in
      let (counts_here, told_here) = run_backup-Accounts ext c br t s in
      let (counts_then, told_then) = run_all-count ts after in
      (
        counts_then ∙ ap (λ n. count_after n (run_all ts after).0) counts_here,
        told_then
            ∙ ap (λ n. told_after n (run_all ts after).0 after.notices) counts_here
            ∙ ap
                (λ ns.
                  told_after (counted s.consecutive_failures (run_backup ext c br t s).0.1)
                    (run_all ts after).0 ns)
                told_here,
      )
