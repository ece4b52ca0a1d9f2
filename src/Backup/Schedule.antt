-- ===== src/Backup/Schedule.antt =====
-- The scheduler of runner.go: the time of the next backup, and its loop.
use vault_keeper.Prelude.{
  ℕ, ◌+◌, ◌-◌, ◌*◌, ◌%◌, ◌≤◌, ◌<◌, ◌≡◌, List, [], ◌∷◌, arith, ltb, if◌then◌else◌,
}
use vault_keeper.Custody.{Time}
use vault_keeper.Backup.Crypt.{Crypto}
use vault_keeper.Backup.Runs.{Store, Ext, Runner, Turn, run_backup}

-- In nanoseconds.
abbrev pub minute : ℕ
minute = 60000000000

abbrev pub hour : ℕ
hour = 3600000000000

abbrev pub day : ℕ
day = 86400000000000

-- `time.Date` of today's date, in UTC, where every day has 24 hours.
abbrev today_at : Time → ℕ → ℕ → Time
today_at now target_hour target_minute =
    now - now % day + (target_hour * hour + target_minute * minute)

unfoldable pub next_backup : Time → ℕ → ℕ → Time
next_backup now target_hour target_minute =
    let next = today_at now target_hour target_minute in if ltb now next then next else next + day

-- What ends a wait: the timer, with the run that follows, or the end of the context.
pub data Wake : Type 0 where
  timer : Turn → Wake
  done : Wake

-- The loop; the error of a run is logged, and the loop goes on.
unfoldable pub start_scheduler : Ext → Crypto → Runner → List Wake → Store → Store
start_scheduler ext c br [] s = s
start_scheduler ext c br (done ∷ wakes) s = s
start_scheduler ext c br (timer t ∷ wakes) s =
    start_scheduler ext c br wakes (run_backup ext c br t s).1

today_at_bounds :
    (now h m : ℕ)
    → h < 24
    → m < 60
    → (today_at now h m % day ≡ h * hour + m * minute)
      × (now < today_at now h m + day)
      × (today_at now h m ≤ now + day)
today_at_bounds now h m a b = (omega arith, omega arith, omega arith)

-- For a target below 24:00 the next backup is later than now, at most a day later, and at the target
-- time of its day; the one after it is a day later.
next_backup_bounds :
    (now h m : ℕ)
    → h < 24
    → m < 60
    → (now < next_backup now h m)
      × (next_backup now h m ≤ now + day)
      × (next_backup now h m % day ≡ h * hour + m * minute)
      × (next_backup (next_backup now h m) h m ≡ next_backup now h m + day)
unfolding next_backup
next_backup_bounds now h m a b = (ground arith, ground arith, ground arith, ground arith)
