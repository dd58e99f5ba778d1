-- ===== src/Queue/Worker.antt =====
-- `QueueWorker` (queue/worker.py): one round of the loop of `run`, from the message to the row's
-- end. What the job does (`execute_job`) is a parameter that may change the database and may raise;
-- so is the text of an exception.
-- The heartbeats written between the steps and logging are left out.
pub mod Outcome
pub mod Retry
use agent_v.Prelude.{ℕ, ◌+◌, String, Bool, true, false, not, Option, none, some, if◌then◌else◌}
use agent_v.Env.{Env}
use agent_v.World.{World}
use agent_v.World.Rows.{QueueJobRecord}
use agent_v.Table
use agent_v.Exec.{Result, ok, raised, Error, Exec, return}
use agent_v.Queue.Settings.{QueueSettings}
use agent_v.Queue.Transport.{RedisPush, publish_job}
use agent_v.Queue.Claim.{claim_job, start_claimed_job}
use agent_v.Queue.Finish.{complete_job, fail_job}
use agent_v.Queue.Abandon.{mark_job_failed}

pub data WorkerStatus : Type 0 where
  starting healthy busy failed stopped : WorkerStatus

pub record WorkerRuntimeState : Type 0 where
  pub status : WorkerStatus
  pub current_queue_job_id : Option ℕ
  pub current_run_id : Option ℕ
  pub claimed_jobs_count : ℕ
  pub completed_jobs_count : ℕ
  pub failed_jobs_count : ℕ
  pub last_error : Option String

-- `await db.rollback()`: the tables go back to the last commit. What was sent to sockets, the
-- files and the queue's lists do not.
unfoldable pub rollback : World → World → World
rollback committed world = record committed {
  bus = world.bus;
  files = world.files;
  broadcasts = world.broadcasts;
  redis_items = world.redis_items;
  local_items = world.local_items;
}

-- the three calls of `_set_state` in the loop
abbrev pub set_busy : QueueJobRecord → ℕ → WorkerRuntimeState → WorkerRuntimeState
set_busy job claimed_jobs_delta state = record state {
  status = busy;
  current_queue_job_id = some job.id;
  current_run_id = job.run_id;
  claimed_jobs_count = state.claimed_jobs_count + claimed_jobs_delta;
}

abbrev pub set_failed : String → WorkerRuntimeState → WorkerRuntimeState
set_failed error state = record state {
  status = healthy;
  current_queue_job_id = none;
  current_run_id = none;
  failed_jobs_count = state.failed_jobs_count + 1;
  last_error = some error;
}

abbrev pub set_completed : WorkerRuntimeState → WorkerRuntimeState
set_completed state = record state {
  status = healthy;
  current_queue_job_id = none;
  current_run_id = none;
  completed_jobs_count = state.completed_jobs_count + 1;
  last_error = none;
}

module _ (env : Env) (settings : QueueSettings) (redis : RedisPush) (now : ℕ) (worker_id : String)
    (error_text : Error → String) (execute_job : QueueJobRecord → Exec World Unit) where
  -- `if requeued: await self.queue.publish_job(failure_job)`
  publish_again : Bool × QueueJobRecord → World → World
  unfolding publish_job
  publish_again (true, job) world = (publish_job settings redis job world).1
  publish_again (false, job) world = world

  -- the rest of the failure session: the run and the session are marked, and the message is sent
  -- again if the job may be tried again
  after_failure :
      Error
      → Result (Bool × QueueJobRecord) × World
      → WorkerRuntimeState
      → World × WorkerRuntimeState
  unfolding publish_again
  after_failure e (ok (requeued, failure_job), world) state = (
    publish_again (requeued, failure_job)
        (mark_job_failed env now failure_job (error_text e) (not requeued) world).1,
    set_failed (error_text e) state,
  )
  after_failure e (raised e', world) state = (world, state)

  -- the row is loaded again, in a session of its own
  fail_found :
      Error → Option QueueJobRecord → World → WorkerRuntimeState → World × WorkerRuntimeState
  unfolding after_failure
  fail_found e none world state = (world, state)
  fail_found e (some job) world state =
      after_failure e (fail_job env now settings job worker_id (error_text e) world) state

  -- after `execute_job`: the `else` and the `except` of the loop
  pub finish :
      QueueJobRecord
      → World
      → Result (Unit {0}) × World
      → WorkerRuntimeState
      → World × WorkerRuntimeState
  unfolding fail_found rollback
  finish job committed (ok done, world) state =
      ((complete_job env now job worker_id world).1, set_completed state)
  finish job committed (raised e, world) state =
      let clean = rollback committed world in
      fail_found e (Table.find clean.jobs job.id) clean state

  -- after `start_claimed_job`, whose changes are committed before the work begins
  run_started :
      QueueJobRecord
      → World
      → Result QueueJobRecord × World
      → WorkerRuntimeState
      → World × WorkerRuntimeState
  unfolding finish fail_found rollback
  run_started job before (ok running_job, committed) state =
      finish running_job committed (execute_job running_job committed) state
  run_started job before (raised e, world) state =
      let clean = rollback before world in fail_found e (Table.find clean.jobs job.id) clean state

  -- after `claim_job`: the message is ignored if there is nothing to claim, or the claim raises
  run_message :
      World
      → Result (Option QueueJobRecord) × World
      → WorkerRuntimeState
      → World × WorkerRuntimeState
  unfolding run_started rollback
  run_message before (ok (some job), world) state =
      run_started job before (start_claimed_job env now job worker_id world) (set_busy job 1 state)
  run_message before (ok none, world) state = (rollback before world, state)
  run_message before (raised e, world) state = (rollback before world, state)

  -- one message of the loop
  pub process_message : Bool → ℕ → World → WorkerRuntimeState → World × WorkerRuntimeState
  unfolding run_message
  process_message locked queue_job_id world state =
      run_message world (claim_job env settings redis now locked queue_job_id worker_id world) state
