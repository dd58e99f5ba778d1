-- ===== src/Queue/Manual.antt =====
-- `retry_job` and `cancel_job` (queue/jobs.py): what an operator asks for through the API.
use agent_v.Prelude.{ℕ, ◌+◌, String, Bool, true, not, ◌||◌, ◌&&◌, Option, none, some, leb}
use agent_v.Json.{str, obj, end, field}
use agent_v.Env.{Env}
use agent_v.Events.{
  EventType, warning, queue_job_retry_requested, queue_job_cancel_requested, queue_job_cancelled,
}
use agent_v.World.{World}
use agent_v.World.Rows.{QueueJobRecord, JobStatus}
use agent_v.Table
use agent_v.Exec.{
  Exec, key_error, queue_job_state_error, return, raise, read, modify, require, ◌>>=◌, ◌>>◌,
}
use agent_v.EventBus.{publish}
use agent_v.Queue.Settings.{
  QueueSettings, is_retryable, is_completed, is_running, is_claimed, is_queued, job_type_text,
  status_text,
}
use agent_v.Queue.Publish.{save_job}

abbrev pub retried_row : ℕ → QueueJobRecord → QueueJobRecord
retried_row now job = record job {
  status = JobStatus.queued;
  attempt_count = 0;
  claimed_by = none;
  claimed_at = none;
  available_at = now;
  completed_at = none;
  failed_at = none;
  last_error = none;
  updated_at = now;
}

abbrev pub cancelled_row : ℕ → QueueJobRecord → QueueJobRecord
cancelled_row now job = record job {
  status = JobStatus.cancelled;
  claimed_at = none;
  claimed_by = none;
  updated_at = now;
}

-- `_job_claim_is_stale`
unfoldable pub job_claim_is_stale : QueueSettings → ℕ → Option ℕ → Bool
job_claim_is_stale settings now none = true
job_claim_is_stale settings now (some at) = leb (at + settings.visibility_timeout_seconds) now

abbrev pub found_job : Option QueueJobRecord → Exec World QueueJobRecord
found_job none = raise key_error
found_job (some job) = return job

module _ (env : Env) (now : ℕ) where
  -- the events of both operations name the job, its status before, and the reason
  publish_manual : EventType → QueueJobRecord → JobStatus → String → Exec World Unit
  unfolding publish
  publish_manual event_type job previous_status reason = publish env (record {
    tenant = none;
    session_id = job.session_id;
    agent_run_id = job.run_id;
    tool_call_id = none;
    event_type = event_type;
    severity = warning;
    payload = obj (
        field "queue_job_id" (str (env.uuid_text job.id)) (
          field "job_type" (str (job_type_text job.job_type)) (
            field "previous_status" (str (status_text previous_status))
              (field "reason" (str reason) end))));
  })

  unfoldable pub retry_job : ℕ → String → Exec World QueueJobRecord
  unfolding publish_manual
  retry_job queue_job_id reason = do
    found ← read (λ world. Table.find world.jobs queue_job_id)
    job ← found_job found
    require (is_retryable job.status) queue_job_state_error
    modify (save_job (retried_row now job))
    publish_manual queue_job_retry_requested job job.status reason
    return (retried_row now job)

  unfoldable pub cancel_job : QueueSettings → ℕ → String → Exec World QueueJobRecord
  unfolding publish_manual job_claim_is_stale
  cancel_job settings queue_job_id reason = do
    found ← read (λ world. Table.find world.jobs queue_job_id)
    job ← found_job found
    require (not (is_completed job.status)) queue_job_state_error
    require (not (is_running job.status)) queue_job_state_error
    require (not (is_claimed job.status && not (job_claim_is_stale settings now job.claimed_at)))
        queue_job_state_error
    require (is_queued job.status || is_claimed job.status) queue_job_state_error
    publish_manual queue_job_cancel_requested job job.status reason
    modify (save_job (cancelled_row now job))
    publish_manual queue_job_cancelled job job.status reason
    return (cancelled_row now job)
