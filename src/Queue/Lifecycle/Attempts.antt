-- ===== src/Queue/Lifecycle/Attempts.antt =====
-- How often a failing job is tried (`claim_job`, `start_claimed_job` and `fail_job` of
-- queue/jobs.py, one after the other).
use agent_v.Prelude.{ℕ, zero, suc, ◌+◌, ◌<◌, String, false, ◌≡◌, arith, str_eq_refl}
use agent_v.Env.{Env}
use agent_v.World.Rows.{QueueJobRecord, JobStatus, dead_letter}
use agent_v.Queue.Settings.{QueueSettings}
use agent_v.Queue.Claim.Exclusive.{is_claimable}
use agent_v.Queue.Lifecycle.{claim_op, start_op, fail_op}
use agent_v.Queue.Lifecycle.Steps.{next_row}

module _ (env : Env) (settings : QueueSettings) (worker_id error : String) where
  -- one attempt that fails, made as soon as the job is due
  unfoldable pub failed_attempt : QueueJobRecord → QueueJobRecord
  failed_attempt row =
      let now = row.available_at in
      next_row env settings now (fail_op worker_id error) (
        next_row env settings now (start_op worker_id)
          (next_row env settings now (claim_op false worker_id) row))

  unfoldable pub failed_attempts : ℕ → QueueJobRecord → QueueJobRecord
  failed_attempts zero row = row
  failed_attempts (suc k) row = failed_attempts k (failed_attempt row)

  requeued :
      (row : QueueJobRecord)
      → row.status ≡ JobStatus.queued
      → row.attempt_count + 1 < row.max_attempts
      → ((failed_attempt row).status ≡ JobStatus.queued)
        × ((failed_attempt row).attempt_count ≡ row.attempt_count + 1)
        × ((failed_attempt row).max_attempts ≡ row.max_attempts)
  unfolding failed_attempt next_row is_claimable
  requeued row queued more = ground (arith, str_eq_refl worker_id)

  buried :
      (row : QueueJobRecord)
      → row.status ≡ JobStatus.queued
      → row.attempt_count + 1 ≡ row.max_attempts
      → ((failed_attempt row).status ≡ dead_letter)
        × ((failed_attempt row).attempt_count ≡ row.max_attempts)
  unfolding failed_attempt next_row is_claimable
  buried row queued last = ground (arith, str_eq_refl worker_id)

  -- A queued job with k + 1 attempts left, each of which is claimed, started and failed, is still
  -- queued after k of them, with k more attempts counted, and is in the dead letters after the last,
  -- with max_attempts counted.
  pub dead_letter_after :
      (k : ℕ) (row : QueueJobRecord)
      → row.status ≡ JobStatus.queued
      → row.attempt_count + suc k ≡ row.max_attempts
      → ((failed_attempts k row).status ≡ JobStatus.queued)
        × ((failed_attempts k row).attempt_count ≡ row.attempt_count + k)
        × ((failed_attempts (suc k) row).status ≡ dead_letter)
        × ((failed_attempts (suc k) row).attempt_count ≡ row.max_attempts)
  unfolding failed_attempts
  dead_letter_after zero row queued left =
      let (dead, counted) = buried row queued (omega arith) in (queued, omega arith, dead, counted)
  dead_letter_after (suc k) row queued left =
      let (again, one_more, limit) = requeued row queued (omega arith) in
      let (still, count, dead, total) =
        dead_letter_after k (failed_attempt row) again (omega arith) in
      (still, omega arith, dead, omega arith)
