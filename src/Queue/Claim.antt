-- ===== src/Queue/Claim.antt =====
-- `RuntimeQueue.claim_job` and `start_claimed_job` (queue/jobs.py).
pub mod Exclusive
use agent_v.Prelude.{
  ℕ, ◌+◌, String, Bool, true, false, not, ◌&&◌, Option, none, some, ltb, str_eq, if◌then◌else◌,
}
use agent_v.Json.{str, end, field}
use agent_v.Env.{Env}
use agent_v.Events.{queue_job_claimed, queue_job_started}
use agent_v.Events
use agent_v.World.{World}
use agent_v.World.Rows.{QueueJobRecord, JobStatus}
use agent_v.Table
use agent_v.Exec.{Exec, job_claim_error, return, read, modify, require, ◌>>=◌, ◌>>◌}
use agent_v.Queue.Settings.{QueueSettings, is_closed, is_held, is_claimed}
use agent_v.Queue.Publish.{save_job, publish_queue_event}
use agent_v.Queue.Transport.{RedisPush, publish_job}

-- `not claimed_at or claimed_at > now - visibility_timeout`: somebody else's claim still stands. The
-- timeout stands on the other side of the order, since subtraction on ℕ stops at 0.
abbrev pub is_claim_live : QueueSettings → ℕ → Option ℕ → Bool
is_claim_live settings now none = true
is_claim_live settings now (some at) = ltb now (at + settings.visibility_timeout_seconds)

-- the row as `claim_job` leaves it
abbrev pub claimed_row : String → ℕ → QueueJobRecord → QueueJobRecord
claimed_row worker_id now row = record row {
  status = JobStatus.claimed;
  claimed_by = some worker_id;
  claimed_at = some now;
  updated_at = now;
}

-- the row as `start_claimed_job` leaves it
abbrev pub started_row : ℕ → QueueJobRecord → QueueJobRecord
started_row now row = record row {
  status = JobStatus.running;
  attempt_count = row.attempt_count + 1;
  updated_at = now;
}

-- `job.claimed_by == worker_id`
abbrev pub is_claimed_by : Option String → String → Bool
is_claimed_by none worker_id = false
is_claimed_by (some owner) worker_id = str_eq owner worker_id

-- `_get_job_for_update`: a row that another transaction has locked is skipped.
abbrev pub get_job_for_update : Bool → ℕ → World → Option QueueJobRecord
get_job_for_update locked id world = if locked then none else Table.find world.jobs id

module _ (env : Env) (settings : QueueSettings) (redis : RedisPush) (now : ℕ) where
  -- the guards after the row is found, in the order of the code
  unfoldable pub claim_row : String → QueueJobRecord → Exec World (Option QueueJobRecord)
  unfolding publish_queue_event publish_job
  claim_row worker_id row =
      if is_closed row.status
      then return none
      else if is_held row.status && is_claim_live settings now row.claimed_at
      then return none
      else if ltb now row.available_at
      then (do publish_job settings redis row; return none)
      else (do
        modify (save_job (claimed_row worker_id now row))
        publish_queue_event env (claimed_row worker_id now row) queue_job_claimed Events.info
            (field "worker_id" (str worker_id) end)
        return (some (claimed_row worker_id now row)))

  claim_found : String → Option QueueJobRecord → Exec World (Option QueueJobRecord)
  unfolding claim_row
  claim_found worker_id none = return none
  claim_found worker_id (some row) = claim_row worker_id row

  unfoldable pub claim_job : Bool → ℕ → String → Exec World (Option QueueJobRecord)
  unfolding claim_found
  claim_job locked queue_job_id worker_id = do
    row ← read (get_job_for_update locked queue_job_id)
    claim_found worker_id row

module _ (env : Env) (now : ℕ) where
  unfoldable pub start_claimed_job : QueueJobRecord → String → Exec World QueueJobRecord
  unfolding publish_queue_event
  start_claimed_job job worker_id = do
    require (is_claimed job.status && is_claimed_by job.claimed_by worker_id) job_claim_error
    modify (save_job (started_row now job))
    publish_queue_event env (started_row now job) queue_job_started Events.info
        (field "worker_id" (str worker_id) end)
    return (started_row now job)
