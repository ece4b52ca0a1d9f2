-- ===== src/Database/Migrate.antt =====
-- `doMigrate` of migrate.go, with what it takes and gives back in its order. The migration library is
-- a parameter: what a call of its runner answers.
use vault_keeper.Prelude.{Bool, List, [], ◌∷◌, ◌++◌, Result, ok, err, if◌then◌else◌}

-- What a run holds: a connection of the pool, the advisory lock, a database handle, and the runner.
pub data Resource : Type 0 where
  connection advisory_lock handle runner : Resource

pub data Event : Type 0 where
  took released : Resource → Event
  migrated : Event

pub data Error : Type 0 where
  acquire_connection acquire_lock create_runner run_migrations : Error

-- What `Up` answers: success, `ErrNoChange`, or another error.
pub data Up : Type 0 where
  changed no_change failed : Up

-- Which calls fail. A database handle is always opened; the errors of the closing calls are dropped.
pub record Faults : Type 0 where
  pub acquire_fails : Bool
  pub lock_fails : Bool
  pub unlock_fails : Bool
  pub factory_fails : Bool
  pub up : Up

abbrev pub Traced : Type 0
Traced = Result Error (Unit {0}) × List Event

-- What runs between a resource being taken and its deferred release.
abbrev pub holding : Resource → Traced → Traced
holding r (result, events) = (result, took r ∷ (events ++ (released r ∷ [])))

-- The same for the lock, whose release may fail without a word.
abbrev pub holding_lock : Bool → Traced → Traced
holding_lock unlock_fails (result, events) =
    if unlock_fails
    then (result, took advisory_lock ∷ events)
    else (result, took advisory_lock ∷ (events ++ (released advisory_lock ∷ [])))

abbrev pub ran : Up → Traced
ran changed = (ok tt, migrated ∷ [])
ran no_change = (ok tt, migrated ∷ [])
ran failed = (err run_migrations, migrated ∷ [])

-- From the handle on.
abbrev pub with_handle : Faults → Traced
with_handle f =
    holding handle (if f.factory_fails then (err create_runner, []) else holding runner (ran f.up))

unfoldable pub do_migrate : Faults → Traced
do_migrate f =
    if f.acquire_fails
    then (err acquire_connection, [])
    else holding connection (
        if f.lock_fails
        then (err acquire_lock, [])
        else holding_lock f.unlock_fails (with_handle f))
