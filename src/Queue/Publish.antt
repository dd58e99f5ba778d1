-- ===== src/Queue/Publish.antt =====
-- `RuntimeQueue._publish_queue_event`, and storing a job row (queue/jobs.py).
use agent_v.Prelude.{ℕ, Option, none, some}
use agent_v.Json.{Json, num, str, obj, Fields, field}
use agent_v.Env.{Env}
use agent_v.Events.{EventType, Severity}
use agent_v.World.{World}
use agent_v.World.Rows.{QueueJobRecord}
use agent_v.Exec.{Exec}
use agent_v.EventBus.{publish}
use agent_v.Table
use agent_v.Queue.Settings.{job_type_text, status_text}

-- a changed row, as `await db.flush()` leaves it
abbrev pub save_job : QueueJobRecord → World → World
save_job job world = record world { jobs = Table.put world.jobs job.id job }

change_found : ℕ → (QueueJobRecord → QueueJobRecord) → Option QueueJobRecord → World → World
change_found id change none world = world
change_found id change (some stored) world = record world {
  jobs = Table.put world.jobs id (change stored);
}

-- The columns that `db.flush()` writes for a row that was loaded earlier: the other columns stay as
-- they are stored by now. No code deletes a job.
unfoldable pub flush_columns : ℕ → (QueueJobRecord → QueueJobRecord) → World → World
unfolding change_found
flush_columns id change world = change_found id change (Table.find world.jobs id) world

module _ (env : Env) where
  abbrev pub job_payload : QueueJobRecord → Fields → Json
  job_payload job payload = obj (
      field "queue_job_id" (str (env.uuid_text job.id)) (
        field "job_type" (str (job_type_text job.job_type)) (
          field "status" (str (status_text job.status)) (
            field "attempt_count" (num job.attempt_count)
              (field "max_attempts" (num job.max_attempts) payload)))))

  unfoldable pub publish_queue_event :
      QueueJobRecord → EventType → Severity → Fields → Exec World Unit
  unfolding publish
  publish_queue_event job event_type severity payload = publish env (record {
    tenant = none;
    session_id = job.session_id;
    agent_run_id = job.run_id;
    tool_call_id = none;
    event_type = event_type;
    severity = severity;
    payload = job_payload job payload;
  })
