-- ===== src/Queue/Finish.antt =====
-- `RuntimeQueue.complete_job` and `fail_job` (queue/jobs.py). The changed row is returned beside the
-- result, for the worker that holds it.
use agent_v.Prelude.{ℕ, ◌+◌, String, Bool, true, false, none, some, leb, if◌then◌else◌}
use agent_v.Json.{str, Fields, end, field}
use agent_v.Env.{Env}
use agent_v.Redaction.{redact_text}
use agent_v.Events.{
  queue_job_completed, queue_job_failed, queue_job_dead_lettered, queue_job_retry_scheduled,
}
use agent_v.Events
use agent_v.World.{World}
use agent_v.World.Rows.{QueueJobRecord, JobStatus}
use agent_v.Exec.{Exec, return, modify, ◌>>◌}
use agent_v.Queue.Settings.{QueueSettings, is_completed}
use agent_v.Queue.Claim.{is_claimed_by}
use agent_v.Queue.Publish.{save_job, flush_columns, publish_queue_event}

abbrev pub completed_row : String → ℕ → QueueJobRecord → QueueJobRecord
completed_row worker_id now job = record job {
  status = JobStatus.completed;
  completed_at = some now;
  updated_at = now;
  claimed_by = some worker_id;
}

-- what the UPDATE of a completion makes of the stored row: a column whose loaded value is already
-- the new one is not written (the times are new)
abbrev pub completed_columns : String → ℕ → QueueJobRecord → QueueJobRecord → QueueJobRecord
completed_columns worker_id now loaded stored = record stored {
  status = if is_completed loaded.status then stored.status else JobStatus.completed;
  completed_at = some now;
  updated_at = now;
  claimed_by =
      if is_claimed_by loaded.claimed_by worker_id then stored.claimed_by else some worker_id;
}

-- the columns that every failure sets
abbrev pub failed_row : String → ℕ → String → QueueJobRecord → QueueJobRecord
failed_row worker_id now error job = record job {
  last_error = some error;
  failed_at = some now;
  updated_at = now;
  claimed_by = some worker_id;
}

abbrev pub dead_row : QueueJobRecord → QueueJobRecord
dead_row job = record job { status = JobStatus.dead_letter }

abbrev pub requeued_row : QueueSettings → ℕ → QueueJobRecord → QueueJobRecord
requeued_row settings now job = record job {
  status = JobStatus.queued;
  claimed_at = none;
  available_at = now + settings.retry_backoff_seconds;
}

-- `job.attempt_count >= job.max_attempts`
abbrev pub is_exhausted : QueueJobRecord → Bool
is_exhausted job = leb job.max_attempts job.attempt_count

module _ (env : Env) (now : ℕ) where
  unfoldable pub complete_job : QueueJobRecord → String → Exec World QueueJobRecord
  unfolding publish_queue_event flush_columns
  complete_job job worker_id = do
    modify (flush_columns job.id (completed_columns worker_id now job))
    publish_queue_event env (completed_row worker_id now job) queue_job_completed Events.info
        (field "worker_id" (str worker_id) end)
    return (completed_row worker_id now job)

  abbrev worker_error : String → String → Fields → Fields
  worker_error worker_id error rest =
      field "worker_id" (str worker_id) (field "error" (str error) rest)

  -- what `fail_job` does once the failure is recorded on the row
  dead_letter_or_retry :
      QueueSettings → QueueJobRecord → String → String → Exec World (Bool × QueueJobRecord)
  unfolding publish_queue_event
  dead_letter_or_retry settings job worker_id safe_error =
      if is_exhausted job
      then (do
        modify (save_job (dead_row job))
        publish_queue_event env (dead_row job) queue_job_dead_lettered Events.error
            (worker_error worker_id safe_error end)
        return (false, dead_row job))
      else (do
        modify (save_job (requeued_row settings now job))
        publish_queue_event env (requeued_row settings now job) queue_job_retry_scheduled
            Events.warning
            (worker_error worker_id safe_error (
              field "available_at" (str (env.time_text (now + settings.retry_backoff_seconds)))
                end))
        return (true, requeued_row settings now job))

  -- The result says whether the job goes back to the queue.
  unfoldable pub fail_job :
      QueueSettings → QueueJobRecord → String → String → Exec World (Bool × QueueJobRecord)
  unfolding publish_queue_event dead_letter_or_retry
  fail_job settings job worker_id error =
      let safe_error = redact_text env error in
      let failed = failed_row worker_id now safe_error job in
      do
        publish_queue_event env failed queue_job_failed Events.error
            (worker_error worker_id safe_error end)
        dead_letter_or_retry settings failed worker_id safe_error
