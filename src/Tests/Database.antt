-- ===== src/Tests/Database.antt =====
-- Runs of the migrations.
use vault_keeper.Prelude.{◌≡◌, refl, true, false, [], ◌∷◌, some, ok}
use vault_keeper.Database.Migrate.{
  connection, advisory_lock, handle, runner, took, released, migrated, Faults, changed, failed,
  do_migrate,
}
use vault_keeper.Database.Released.{held, do_migrate-released}

abbrev failing : Faults
failing = record {
  acquire_fails = false;
  lock_fails = false;
  unlock_fails = false;
  factory_fails = false;
  up = failed;
}

do_migrate-released_example : held [] (do_migrate failing).1 ≡ some []
do_migrate-released_example = do_migrate-released failing refl

-- The lock cannot be given back: the run answers success, and its connection goes back with the lock.
lock_kept : do_migrate (record failing { unlock_fails = true; up = changed }) ≡ (
  ok tt,
  took connection
      ∷ took advisory_lock
      ∷ took handle
      ∷ took runner
      ∷ migrated
      ∷ released runner
      ∷ released handle
      ∷ released connection
      ∷ [],
)
unfolding do_migrate
lock_kept = refl
