-- ===== src/Tests/Worker.antt =====
-- The worker and `get_or_create_job` of backend/app/queue at concrete inputs.
use agent_v.Prelude.{arith, ◌+◌, ℕ, String, false, ◌≡◌, refl, none, some, Option}
use agent_v.Json.{end}
use agent_v.World.{World}
use agent_v.World.Rows.{QueueJobRecord, JobStatus, agent_run}
use agent_v.Table
use agent_v.Exec.{Error, Exec, ok, raised, raise, value_error}
use agent_v.Queue.Transport.{accepts}
use agent_v.Queue.Claim.Exclusive.{is_claimable}
use agent_v.Queue.Worker.{WorkerRuntimeState, healthy, process_message}
use agent_v.Queue.Worker.Outcome.{begun_row, begun_world, ended_row, find-process_message}
use agent_v.Queue.Worker.Retry.{process_message-claim_job}
use agent_v.Queue.Transport.Order.{waiting}
use agent_v.Queue.Claim.{claim_job}
use agent_v.Redaction.{redact_text}
use agent_v.Queue.Enqueue.{JobRequest, concurrent_commit, get_or_create_job}
use agent_v.Queue.Enqueue.Once.{get_or_create_job_once}
use agent_v.Tests.Data.{env, settings, job, world}

abbrev state : WorkerRuntimeState
state = record {
  status = healthy;
  current_queue_job_id = none;
  current_run_id = none;
  claimed_jobs_count = 0;
  completed_jobs_count = 0;
  failed_jobs_count = 0;
  last_error = none;
}

abbrev error_text : Error → String
error_text _ = "boom"

-- work that raises
abbrev execute_job : QueueJobRecord → Exec World Unit
execute_job _ = raise value_error

find-process_message_example :
    let started = begun_world env settings accepts 200 "w1" error_text execute_job 7 job world in
    (Table.find started.jobs 7
      ≡ some (begun_row env settings accepts 200 "w1" error_text execute_job job))
    × (Table.find
          (process_message env settings accepts 200 "w1" error_text execute_job false 7 world
            state).0.jobs
          7
        ≡ ended_row env settings accepts 200 "w1" error_text execute_job
            (raised value_error)
            job
            (some (begun_row env settings accepts 200 "w1" error_text execute_job job)))
unfolding Table.find is_claimable
find-process_message_example =
    find-process_message env settings accepts 200 "w1" error_text execute_job 7 job world state refl
      refl refl refl

process_message-claim_job_example :
    let started = begun_world env settings accepts 200 "w1" error_text execute_job 7 job world in
    let after =
      (process_message env settings accepts 200 "w1" error_text execute_job false 7 world
        state).0 in
    (waiting 7 after ≡ waiting 7 started + 1)
    × ((claim_job env settings accepts 900 false 7 "w2" after).0
        ≡ ok (
            some (record job {
              status = JobStatus.claimed;
              attempt_count = 1;
              claimed_by = some "w2";
              claimed_at = some 900;
              available_at = 200 + settings.retry_backoff_seconds;
              failed_at = some 200;
              last_error = some (redact_text env "boom");
              updated_at = 900;
            })))
unfolding Table.find is_claimable
process_message-claim_job_example =
    process_message-claim_job env settings accepts 200 "w1" error_text execute_job 7 900 "w2"
      value_error job world state refl refl refl refl refl (omega arith) (omega arith)

abbrev request : JobRequest
request = record {
  job_type = agent_run;
  idempotency_key = "agent_run:message:5";
  payload = end;
  run_id = some 20;
  session_id = some 10;
  permission_request_id = none;
  human_input_request_id = none;
  user_message_id = some 5;
}

free : Table.find (concurrent_commit none world).jobs (concurrent_commit none world).fresh ≡ none
unfolding Table.find concurrent_commit
free = refl

get_or_create_job_once_example :
    (created : QueueJobRecord) × ((get_or_create_job env settings 100 request none world).0
      ≡ ok created)
    × (created.idempotency_key ≡ "agent_run:message:5")
    × ((later : ℕ) (request' : JobRequest) (concurrent' : Option QueueJobRecord)
        → request'.idempotency_key ≡ "agent_run:message:5"
        → let after = (get_or_create_job env settings 100 request none world).1 in
          get_or_create_job env settings later request' concurrent' after ≡ (ok created, after))
get_or_create_job_once_example = get_or_create_job_once env settings 100 request none world free
