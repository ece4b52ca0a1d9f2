-- ===== src/Database/Released.antt =====
-- What a run of the migrations holds, and when.
use vault_keeper.Prelude.{
  ◌≡◌, refl, sym, ap, subst, Bool, true, false, List, [], ◌∷◌, Option, none, some, any,
  if◌then◌else◌,
}
use vault_keeper.Database.Migrate.{
  Resource, connection, advisory_lock, handle, runner, Event, took, released, migrated, Faults, Up,
  changed, no_change, failed, do_migrate,
}

abbrev pub same : Resource → Resource → Bool
same connection connection = true
same advisory_lock advisory_lock = true
same handle handle = true
same runner runner = true
same _ _ = false

-- What is held after the events, the last one taken first. Nothing, where a resource is given back
-- that is not the last one taken, or a migration runs without the lock.
abbrev pub held : List Resource → List Event → Option (List Resource)
held rs [] = some rs
held rs (took r ∷ es) = held (r ∷ rs) es
held [] (released r ∷ es) = none
held (h ∷ rs) (released r ∷ es) = if same h r then held rs es else none
held rs (migrated ∷ es) = if any (same advisory_lock) rs then held rs es else none

-- The same by the calls that fail.
released_cases :
    (acquire_fails lock_fails factory_fails : Bool) (up : Up)
    → held []
        (do_migrate (record {
          acquire_fails = acquire_fails;
          lock_fails = lock_fails;
          unlock_fails = false;
          factory_fails = factory_fails;
          up = up;
        })).1
      ≡ some []
unfolding do_migrate
released_cases true lock factory up = refl
released_cases false true factory up = refl
released_cases false false true up = refl
released_cases false false false changed = refl
released_cases false false false no_change = refl
released_cases false false false failed = refl

-- Whatever else fails, where the lock can be given back, a run gives back all that it took, the last
-- one first, and migrations run only under the lock.
pub do_migrate-released : (f : Faults) → f.unlock_fails ≡ false → held [] (do_migrate f).1 ≡ some []
do_migrate-released f h =
    subst (λ g. held [] (do_migrate g).1 ≡ some [])
      (sym (ap (λ u. record f { unlock_fails = u }) h))
      (released_cases f.acquire_fails f.lock_fails f.factory_fails f.up)
