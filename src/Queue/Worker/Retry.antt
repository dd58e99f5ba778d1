-- ===== src/Queue/Worker/Retry.antt =====
-- A job whose attempt failed comes back (queue/worker.py with queue/jobs.py): its id waits in the queue
-- again, and its row can be claimed after the backoff.
use agent_v.Prelude.{ℕ, ◌+◌, ◌≤◌, ◌<◌, String, Bool, true, false, ◌≡◌, refl, ◌∙◌, some, arith, leb}
use agent_v.Env.{Env}
use agent_v.Redaction.{redact_text}
use agent_v.World.{World}
use agent_v.World.Rows.{QueueJobRecord, JobStatus}
use agent_v.Table
use agent_v.Exec.{ok, raised, Error, Exec}
use agent_v.Queue.Settings.{QueueSettings}
use agent_v.Queue.Transport.{RedisPush}
use agent_v.Queue.Transport.Order.{waiting, copies, waiting-publish_job}
use agent_v.Queue.Claim.{claimed_row, claim_job}
use agent_v.Queue.Claim.Exclusive.{is_claimable, claim_job_exact}
use agent_v.Queue.Finish.{fail_job}
use agent_v.Queue.Abandon.{mark_job_failed}
use agent_v.Queue.Worker.{
  WorkerRuntimeState, process_message, fail_found, finish, publish_again, rollback, set_busy,
}
use agent_v.Queue.Worker.Outcome.{
  begun_row, begun_world, requeued_end, process_message-finish, fails, find-process_message,
}

module _ (env : Env) (settings : QueueSettings) (redis : RedisPush) (now : ℕ) (worker_id : String)
    (error_text : Error → String) (execute_job : QueueJobRecord → Exec World Unit) where
  waiting-mark_job_failed :
      (id : ℕ) (job : QueueJobRecord) (error : String) (final : Bool) (world : World)
      → waiting id (mark_job_failed env now job error final world).1 ≡ waiting id world
  unfolding mark_job_failed waiting
  waiting-mark_job_failed id job error final world = ground arith

  waiting-fail_job :
      (id : ℕ) (job : QueueJobRecord) (error : String) (world : World)
      → waiting id (fail_job env now settings job worker_id error world).1 ≡ waiting id world
  unfolding fail_job waiting
  waiting-fail_job id job error world = ground arith

  waiting-rollback :
      (id : ℕ) (committed world : World) → waiting id (rollback committed world) ≡ waiting id world
  unfolding rollback waiting
  waiting-rollback id committed world = refl

  waiting-publish_again :
      (id : ℕ) (job : QueueJobRecord) (world : World)
      → settings.enabled ≡ true
      → job.id ≡ id
      → waiting id
          (publish_again env settings redis now worker_id error_text execute_job (true, job) world)
        ≡ waiting id world + copies redis
  unfolding publish_again
  waiting-publish_again id job world on same =
      let (result, count) = waiting-publish_job settings redis job world id on in
      count ∙ (rw same (ground arith))

  waiting-fail_found :
      (id : ℕ) (e : Error) (row : QueueJobRecord) (world : World) (state : WorkerRuntimeState)
      → settings.enabled ≡ true
      → row.id ≡ id
      → leb row.max_attempts (row.attempt_count + 1) ≡ false
      → waiting id
          (fail_found env settings redis now worker_id error_text execute_job e
            (some (begun_row env settings redis now worker_id error_text execute_job row))
            world
            state).0
        ≡ waiting id world + copies redis
  unfolding fail_found
  waiting-fail_found id e row world state on same more =
      let begun = begun_row env settings redis now worker_id error_text execute_job row in
      let (result, rows) =
        fails env settings redis now worker_id error_text execute_job row e world in
      let failed = requeued_end env settings redis now worker_id error_text execute_job e row in
      let left = (fail_job env now settings begun worker_id (error_text e) world).1 in
      let marked = (mark_job_failed env now failed (error_text e) false left).1 in
      rw result (
        rw more (
          waiting-publish_again id failed marked on same
          ∙ (rw (waiting-mark_job_failed id failed (error_text e) false left)
              (rw (waiting-fail_job id begun (error_text e) world) refl))))

  waiting-finish :
      (id : ℕ) (e : Error) (row : QueueJobRecord) (committed world : World)
      (state : WorkerRuntimeState)
      → settings.enabled ≡ true
      → row.id ≡ id
      → leb row.max_attempts (row.attempt_count + 1) ≡ false
      → Table.find committed.jobs row.id
        ≡ some (begun_row env settings redis now worker_id error_text execute_job row)
      → waiting id
          (finish env settings redis now worker_id error_text execute_job
            (begun_row env settings redis now worker_id error_text execute_job row)
            committed
            (raised e, world)
            state).0
        ≡ waiting id world + copies redis
  unfolding finish
  waiting-finish id e row committed world state on same more held = rw held (
      waiting-fail_found id e row (rollback committed world) state on same more
      ∙ (rw (waiting-rollback id committed world) refl))

  claimable-requeued_end :
      (later : ℕ) (e : Error) (row : QueueJobRecord)
      → now + settings.retry_backoff_seconds ≤ later
      → is_claimable settings later
          (requeued_end env settings redis now worker_id error_text execute_job e row)
        ≡ true
  unfolding is_claimable
  claimable-requeued_end later e row due = ground arith

  -- A message for a stored, unlocked and claimable job, with the queue enabled, whose work raises
  -- before the last attempt: the job's id then waits in the queue again, beside what the work left
  -- there, and once the backoff has passed any worker that asks for the job gets it, with the
  -- attempt counted and the error noted.
  pub process_message-claim_job :
      (id later : ℕ) (worker_id' : String) (e : Error) (row : QueueJobRecord) (world : World)
      (state : WorkerRuntimeState)
      → settings.enabled ≡ true
      → Table.find world.jobs id ≡ some row
      → row.id ≡ id
      → is_claimable settings now row ≡ true
      → (execute_job
          (begun_row env settings redis now worker_id error_text execute_job row)
          (begun_world env settings redis now worker_id error_text execute_job id row world)).0
        ≡ raised e
      → row.attempt_count + 1 < row.max_attempts
      → now + settings.retry_backoff_seconds ≤ later
      → let work =
          execute_job
            (begun_row env settings redis now worker_id error_text execute_job row)
            (begun_world env settings redis now worker_id error_text execute_job id row world) in
        let after =
          (process_message env settings redis now worker_id error_text execute_job false id world
            state).0 in
        (waiting id after ≡ waiting id work.1 + copies redis)
        × ((claim_job env settings redis later false id worker_id' after).0
            ≡ ok (
                some (record row {
                  status = JobStatus.claimed;
                  attempt_count = row.attempt_count + 1;
                  claimed_by = some worker_id';
                  claimed_at = some later;
                  available_at = now + settings.retry_backoff_seconds;
                  failed_at = some now;
                  last_error = some (redact_text env (error_text e));
                  updated_at = later;
                })))
  process_message-claim_job id later worker_id' e row world state on found same free raises more
        due =
      let fewer : leb row.max_attempts (row.attempt_count + 1) ≡ false = ground arith in
      let (held, runs) =
        process_message-finish env settings redis now worker_id error_text execute_job id row world
          state on found same free in
      let committed =
        begun_world env settings redis now worker_id error_text execute_job id row world in
      let work =
        execute_job (begun_row env settings redis now worker_id error_text execute_job row)
          committed in
      let after =
        (process_message env settings redis now worker_id error_text execute_job false id world
          state).0 in
      let left = requeued_end env settings redis now worker_id error_text execute_job e row in
      let (started, ended) =
        find-process_message env settings redis now worker_id error_text execute_job id row world
          state on found same free in
      let stored : Table.find after.jobs id ≡ some left = ended ∙ (rw raises (rw fewer refl)) in
      let (result, rows) =
        claim_job_exact env settings redis later id worker_id' left after on stored same in
      (
        rw runs (
            rw raises (
              waiting-finish id e row committed work.1
                (set_busy (claimed_row worker_id now row) 1 state) on same fewer held)),
        result ∙ (rw (claimable-requeued_end later e row due) refl),
      )
