-- ===== src/Scheduler/Lock.antt =====
-- scheduler/lock.py: the lock file of a run. Writing the file is taken to succeed.
use investing_agents.Prelude.{⊤, String, str_eq, not, ◌||◌, ◌==◌, if◌then◌else◌}
use investing_agents.Result.{ok, err, Action, schedule_lock_error}
use investing_agents.Domain.Types.{Uuid, Instant}

pub record LockLease : Type 0 where
  pub token : Uuid
  pub run_id : String
  pub acquired_at : Instant

-- The file is missing, not readable as JSON, or holds the token and run of a lease.
pub data LockFile : Type 0 where
  missing : LockFile
  corrupt : LockFile
  held : Uuid → String → LockFile

unfoldable pub acquire : Uuid → String → Instant → Action LockFile LockLease
acquire token run_id now missing =
    (ok (record { token = token; run_id = run_id; acquired_at = now }), held token run_id)
acquire token run_id now corrupt = (err (schedule_lock_error "scheduler lock exists"), corrupt)
acquire token run_id now (held other owner) =
    (err (schedule_lock_error "scheduler lock exists"), held other owner)

unfoldable pub release : LockLease → Action LockFile ⊤
release lease missing = (err (schedule_lock_error "scheduler lock is missing or corrupt"), missing)
release lease corrupt = (err (schedule_lock_error "scheduler lock is missing or corrupt"), corrupt)
release lease (held token run_id) =
    if not (token == lease.token) || not (str_eq run_id lease.run_id)
    then (err (schedule_lock_error "scheduler lock ownership mismatch"), held token run_id)
    else (ok tt, missing)
