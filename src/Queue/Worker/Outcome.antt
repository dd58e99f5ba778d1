-- ===== src/Queue/Worker/Outcome.antt =====
-- How a message ends (queue/worker.py): what becomes of the job that it names, and of the worker's
-- counters.
use agent_v.Prelude.{
  ℕ, ◌+◌, leb, none, Option, String, Bool, true, false, not, ◌≡◌, refl, some, arith, str_eq_refl,
  if◌then◌else◌,
}
use agent_v.Env.{Env}
use agent_v.Redaction.{redact_text}
use agent_v.World.{World}
use agent_v.World.Rows.{QueueJobRecord, JobStatus}
use agent_v.Table
use agent_v.Table.{find-put, find-put_same}
use agent_v.Exec.{Result, ok, raised, Error, Exec}
use agent_v.Queue.Settings.{QueueSettings}
use agent_v.Queue.Transport.{RedisPush}
use agent_v.Queue.Claim.{claimed_row, claim_job, start_claimed_job}
use agent_v.Queue.Claim.Exclusive.{is_claimable, claim_job_exact}
use agent_v.Queue.Finish.{is_exhausted}
use agent_v.Queue.Worker.{
  WorkerRuntimeState, process_message, fail_found, finish, publish_again, rollback, set_busy,
}
use mathlib.Core.Path.{subst}
use mathlib.Core.Option
use agent_v.Queue.Publish.{flush_columns}
use agent_v.Queue.Finish.{complete_job, fail_job}
use agent_v.Queue.Abandon.{mark_job_failed}

module _ (env : Env) (settings : QueueSettings) (redis : RedisPush) (now : ℕ) (worker_id : String)
    (error_text : Error → String) (execute_job : QueueJobRecord → Exec World Unit) where
  -- the row with which the work begins: running, the worker's, and with one more attempt
  abbrev pub begun_row : QueueJobRecord → QueueJobRecord
  begun_row row = record row {
    status = JobStatus.running;
    attempt_count = row.attempt_count + 1;
    claimed_by = some worker_id;
    claimed_at = some now;
    updated_at = now;
  }

  -- the row of a job whose work returned: as the work left it, but completed
  abbrev completed_end : QueueJobRecord → QueueJobRecord
  completed_end row = record row {
    status = JobStatus.completed;
    completed_at = some now;
    updated_at = now;
  }

  -- the row of a job whose work raised in its last attempt
  abbrev dead_end : Error → QueueJobRecord → QueueJobRecord
  dead_end e row = record row {
    status = JobStatus.dead_letter;
    attempt_count = row.attempt_count + 1;
    claimed_by = some worker_id;
    claimed_at = some now;
    failed_at = some now;
    last_error = some (redact_text env (error_text e));
    updated_at = now;
  }

  -- the row of a job whose work raised in an earlier attempt
  abbrev pub requeued_end : Error → QueueJobRecord → QueueJobRecord
  requeued_end e row = record row {
    status = JobStatus.queued;
    attempt_count = row.attempt_count + 1;
    claimed_by = some worker_id;
    claimed_at = none;
    available_at = now + settings.retry_backoff_seconds;
    failed_at = some now;
    last_error = some (redact_text env (error_text e));
    updated_at = now;
  }

  abbrev pub failed_end : Error → QueueJobRecord → QueueJobRecord
  failed_end e row =
      if leb row.max_attempts (row.attempt_count + 1) then dead_end e row else requeued_end e row

  -- the row that a round leaves, by the result of the job's work, from the row as it was before the
  -- round and the one that the work left
  abbrev pub ended_row :
      Result (Unit {0}) → QueueJobRecord → Option QueueJobRecord → Option QueueJobRecord
  ended_row (ok done) row left = Option.map completed_end left
  ended_row (raised e) row left = some (failed_end e row)

  pub begins :
      (row : QueueJobRecord) (world : World)
      → ((start_claimed_job env now (claimed_row worker_id now row) worker_id world).0
          ≡ ok (begun_row row))
        × ((start_claimed_job env now (claimed_row worker_id now row) worker_id world).1.jobs
            ≡ Table.put world.jobs row.id (begun_row row))
  unfolding start_claimed_job
  begins row world = rw str_eq_refl (refl, refl)

  pub fails :
      (row : QueueJobRecord) (e : Error) (world : World)
      → ((fail_job env now settings (begun_row row) worker_id (error_text e) world).0
          ≡ ok (not (is_exhausted (begun_row row)), failed_end e row))
        × ((fail_job env now settings (begun_row row) worker_id (error_text e) world).1.jobs
            ≡ Table.put world.jobs row.id (failed_end e row))
  unfolding fail_job
  fails row e world = ground arith

  jobs-mark_job_failed :
      (job : QueueJobRecord) (error : String) (final : Bool) (world : World)
      → (mark_job_failed env now job error final world).1.jobs ≡ world.jobs
  unfolding mark_job_failed
  jobs-mark_job_failed job error final world = ground arith

  jobs-publish_again :
      (again : Bool × QueueJobRecord) (world : World)
      → (publish_again env settings redis now worker_id error_text execute_job again world).jobs
        ≡ world.jobs
  unfolding publish_again
  jobs-publish_again (true, job) world = ground arith
  jobs-publish_again (false, job) world = refl

  jobs-fail_found :
      (e : Error) (row : QueueJobRecord) (world : World) (state : WorkerRuntimeState)
      → (fail_found env settings redis now worker_id error_text execute_job e
          (some (begun_row row))
          world
          state).0.jobs
        ≡ Table.put world.jobs row.id (failed_end e row)
  unfolding fail_found
  jobs-fail_found e row world state =
      let (result, rows) = fails row e world in
      rw result (rw (jobs-publish_again, jobs-mark_job_failed) rows)

  find-completed :
      (row : QueueJobRecord) (world : World) (left : Option QueueJobRecord)
      → Table.find world.jobs row.id ≡ left
      → Table.find (complete_job env now (begun_row row) worker_id world).1.jobs row.id
        ≡ Option.map completed_end left
  unfolding complete_job flush_columns
  find-completed row world none gone = rw gone gone
  find-completed row world (some stored) there =
      rw (there, str_eq_refl worker_id) (find-put_same world.jobs row.id (completed_end stored))

  find-finish :
      (row : QueueJobRecord) (committed : World) (result : Result (Unit {0})) (world : World)
      (state : WorkerRuntimeState)
      → Table.find committed.jobs row.id ≡ some (begun_row row)
      → Table.find
          (finish env settings redis now worker_id error_text execute_job
            (begun_row row)
            committed
            (result, world)
            state).0.jobs
          row.id
        ≡ ended_row result row (Table.find world.jobs row.id)
  unfolding finish
  find-finish row committed (ok done) world state found =
      find-completed row world (Table.find world.jobs row.id) refl
  find-finish row committed (raised e) world state found =
      rw found
        (rw (jobs-fail_found e row (rollback committed world) state) (rw find-put (ground arith)))

  -- the state of the database when the work begins
  abbrev pub begun_world : ℕ → QueueJobRecord → World → World
  begun_world id row world =
      (start_claimed_job env now (claimed_row worker_id now row) worker_id
        (claim_job env settings redis now false id worker_id world).1).1

  -- A round whose job is claimed and started ends with `finish`.
  pub process_message-finish :
      (id : ℕ) (row : QueueJobRecord) (world : World) (state : WorkerRuntimeState)
      → settings.enabled ≡ true
      → Table.find world.jobs id ≡ some row
      → row.id ≡ id
      → is_claimable settings now row ≡ true
      → let committed = begun_world id row world in
        (Table.find committed.jobs row.id ≡ some (begun_row row))
        × (process_message env settings redis now worker_id error_text execute_job false id world
              state
            ≡ finish env settings redis now worker_id error_text execute_job
                (begun_row row)
                committed
                (execute_job (begun_row row) committed)
                (set_busy (claimed_row worker_id now row) 1 state))
  unfolding process_message
  process_message-finish id row world state on found same free =
      let (result, rows) =
        claim_job_exact env settings redis now id worker_id row world on found same in
      let claimed = (claim_job env settings redis now false id worker_id world).1 in
      let claims : (claim_job env settings redis now false id worker_id world).0
          ≡ ok (some (claimed_row worker_id now row)) =
        rw result (rw free) in
      let (started, saved) = begins row claimed in
      (rw saved (rw find-put (ground arith)), rw claims (rw started refl))

  -- With the queue enabled, the work of a message for a stored and unlocked job that can be claimed
  -- begins with the row running, claimed by the worker, and with one more attempt counted. If the
  -- work returns, the row ends as the work left it, but completed. If it raises, the row ends with
  -- the one more attempt and the error, in the dead letters if its attempts are used up and
  -- otherwise queued for a retry after the backoff, whatever the work had done to it.
  pub find-process_message :
      (id : ℕ) (row : QueueJobRecord) (world : World) (state : WorkerRuntimeState)
      → settings.enabled ≡ true
      → Table.find world.jobs id ≡ some row
      → row.id ≡ id
      → is_claimable settings now row ≡ true
      → let work = execute_job (begun_row row) (begun_world id row world) in
        (Table.find (begun_world id row world).jobs id ≡ some (begun_row row))
        × (Table.find
              (process_message env settings redis now worker_id error_text execute_job false id
                world state).0.jobs
              id
            ≡ ended_row work.0 row (Table.find work.1.jobs id))
  find-process_message id row world state on found same free =
      let (held, runs) = process_message-finish id row world state on found same free in
      let committed = begun_world id row world in
      let work = execute_job (begun_row row) committed in
      let busy_state = set_busy (claimed_row worker_id now row) 1 state in
      rw runs (
        subst
          (λ k.
            (Table.find committed.jobs k ≡ some (begun_row row))
            × (Table.find
                  (finish env settings redis now worker_id error_text execute_job (begun_row row)
                    committed work busy_state).0.jobs
                  k
                ≡ ended_row work.0 row (Table.find work.1.jobs k)))
          same (held, find-finish row committed work.0 work.1 busy_state held))
