-- ===== src/Queue/Abandon.antt =====
-- `mark_job_failed`, `_job_run` and `_job_session` (queue/jobs.py): what a failed job does to its
-- run and its session.
use agent_v.Prelude.{ℕ, String, Bool, Option, none, some, if◌then◌else◌}
use agent_v.Json.{bool, num, str, obj, end, field}
use agent_v.Env.{Env}
use agent_v.Redaction.{redact_text}
use agent_v.Events
use agent_v.Events.{worker_job_dead_lettered, worker_job_failed}
use agent_v.World.{World}
use agent_v.World.Rows.{QueueJobRecord, AgentRun, RunStatus, Session, SessionStatus}
use agent_v.Table
use agent_v.Table.{find_optional}
use agent_v.Exec.{Exec, read, modify, ◌>>=◌, ◌>>◌}
use agent_v.EventBus.{publish}
use agent_v.Queue.Settings.{job_type_text}

abbrev pub job_run : QueueJobRecord → World → Option AgentRun
job_run job world = find_optional world.runs job.run_id

abbrev pub job_session : QueueJobRecord → Option AgentRun → World → Option Session
job_session job none world = find_optional world.sessions job.session_id
job_session job (some run) world = Table.find world.sessions run.session_id

abbrev pub failed_run : ℕ → String → AgentRun → AgentRun
failed_run now error run = record run {
  status = RunStatus.failed;
  error = some error;
  completed_at = some now;
}

unfoldable pub fail_run : ℕ → String → Option AgentRun → World → World
fail_run now error none world = world
fail_run now error (some run) world = record world {
  runs = Table.put world.runs run.id (failed_run now error run);
}

unfoldable pub fail_session : Option Session → World → World
fail_session none world = world
fail_session (some session) world = record world {
  sessions = Table.put world.sessions session.id (record session { status = SessionStatus.failed });
}

abbrev session_id_of : Option Session → Option ℕ → Option ℕ
session_id_of none id = id
session_id_of (some session) id = some session.id

abbrev run_id_of : Option AgentRun → Option ℕ → Option ℕ
run_id_of none id = id
run_id_of (some run) id = some run.id

module _ (env : Env) (now : ℕ) where
  unfoldable pub mark_job_failed : QueueJobRecord → String → Bool → Exec World Unit
  unfolding publish fail_run fail_session
  mark_job_failed job error final = do
    run ← read (job_run job)
    session ← read (job_session job run)
    modify (λ world.
        if final
        then fail_session session (fail_run now (redact_text env error) run world)
        else world)
    publish env (record {
      tenant = none;
      session_id = session_id_of session job.session_id;
      agent_run_id = run_id_of run job.run_id;
      tool_call_id = none;
      event_type = if final then worker_job_dead_lettered else worker_job_failed;
      severity = if final then Events.error else Events.warning;
      payload = obj (
          field "queue_job_id" (str (env.uuid_text job.id)) (
            field "job_type" (str (job_type_text job.job_type)) (
              field "attempt_count" (num job.attempt_count) (
                field "max_attempts" (num job.max_attempts) (
                  field "final" (bool final) (field "error" (str (redact_text env error)) end))))));
    })
