-- ===== src/Queue/Lifecycle.antt =====
-- The life of a job row under the operations of queue/jobs.py: the steps that a row can make, and
-- the operations as they are called by the worker and by the API.
pub mod Steps
pub mod Transitions
pub mod Invariant
pub mod Attempts
use agent_v.Prelude.{ℕ, String, Bool, true, false, ◌≡◌, ◌&&◌, Option, none, some, List, [], ◌∷◌}
use agent_v.Env.{Env}
use agent_v.World.{World}
use agent_v.World.Rows.{QueueJobRecord}
use agent_v.Table
use agent_v.Exec.{Exec, modify, return, read, ◌>>=◌, ◌>>◌}
use agent_v.Queue.Settings.{QueueSettings, is_claimed, is_retryable, is_queued}
use agent_v.Queue.Transport.{RedisPush}
use agent_v.Queue.Claim.{claimed_row, started_row, is_claimed_by, claim_job, start_claimed_job}
use agent_v.Queue.Claim.Exclusive.{is_claimable}
use agent_v.Queue.Finish.{
  completed_row, failed_row, dead_row, requeued_row, is_exhausted, complete_job, fail_job,
}
use agent_v.Queue.Manual.{
  retried_row, cancelled_row, job_claim_is_stale, found_job, retry_job, cancel_job,
}
use agent_v.Prelude.{◌||◌}

-- One step of a row, with the guards of the operation that makes it. `complete` and the failures
-- have no guard in the code.
pub data JobStep (settings : QueueSettings) : QueueJobRecord → QueueJobRecord → Type 0 where
  claim :
      (now : ℕ) (worker_id : String) (row : QueueJobRecord)
      → is_claimable settings now row ≡ true
      → JobStep settings row (claimed_row worker_id now row)
  start :
      (now : ℕ) (worker_id : String) (row : QueueJobRecord)
      → is_claimed row.status ≡ true
      → is_claimed_by row.claimed_by worker_id ≡ true
      → JobStep settings row (started_row now row)
  complete :
      (now : ℕ) (worker_id : String) (row : QueueJobRecord)
      → JobStep settings row (completed_row worker_id now row)
  die :
      (now : ℕ) (worker_id error : String) (row : QueueJobRecord)
      → is_exhausted row ≡ true
      → JobStep settings row (dead_row (failed_row worker_id now error row))
  requeue :
      (now : ℕ) (worker_id error : String) (row : QueueJobRecord)
      → is_exhausted row ≡ false
      → JobStep settings row (requeued_row settings now (failed_row worker_id now error row))
  retry :
      (now : ℕ) (row : QueueJobRecord)
      → is_retryable row.status ≡ true
      → JobStep settings row (retried_row now row)
  cancel :
      (now : ℕ) (row : QueueJobRecord)
      → is_queued row.status
          || (is_claimed row.status && job_claim_is_stale settings now row.claimed_at)
        ≡ true
      → JobStep settings row (cancelled_row now row)

-- what the worker and the API ask for, about one job
pub data Operation : Type 0 where
  claim_op : Bool → String → Operation
  start_op complete_op : String → Operation
  fail_op : String → String → Operation
  retry_op cancel_op : String → Operation

module _ (env : Env) (settings : QueueSettings) (redis : RedisPush) where
  -- an operation on a row loads it first
  with_job : {A : Type 0} → ℕ → (QueueJobRecord → Exec World A) → Exec World A
  with_job id use_job = do
    found ← read (λ world. Table.find world.jobs id)
    job ← found_job found
    use_job job

  unfoldable pub perform : ℕ → ℕ → Operation → World → World
  unfolding with_job
  perform now id (claim_op locked worker_id) world =
      (claim_job env settings redis now locked id worker_id world).1
  perform now id (start_op worker_id) world =
      (with_job id (λ job. start_claimed_job env now job worker_id) world).1
  perform now id (complete_op worker_id) world =
      (with_job id (λ job. complete_job env now job worker_id) world).1
  perform now id (fail_op worker_id error) world =
      (with_job id (λ job. fail_job env now settings job worker_id error) world).1
  perform now id (retry_op reason) world = (retry_job env now id reason world).1
  perform now id (cancel_op reason) world = (cancel_job env now settings id reason world).1

  -- a history: each operation with its time and its job
  unfoldable pub perform_all : List (ℕ × ℕ × Operation) → World → World
  perform_all [] world = world
  perform_all ((now, id, op) ∷ rest) world = perform_all rest (perform now id op world)
