-- ===== src/Queue/Lifecycle/Transitions.antt =====
-- The table of the statuses of a job (queue/jobs.py): what each operation does to a stored job in each
-- status, column by column.
use agent_v.Prelude.{
  ℕ, ◌+◌, String, Bool, true, false, ◌&&◌, ◌≡◌, refl, Option, none, some, leb, str_eq, arith, ◌==◌,
  if◌then◌else◌,
}
use agent_v.Env.{Env}
use agent_v.Redaction.{redact_text}
use agent_v.World.{World}
use agent_v.World.Rows.{
  QueueJobRecord, JobStatus, queued, claimed, running, completed, failed, dead_letter, cancelled,
}
use agent_v.Table
use agent_v.Queue.Settings.{QueueSettings}
use agent_v.Queue.Transport.{RedisPush}
use agent_v.Queue.Claim.Exclusive.{is_claimable}
use agent_v.Queue.Manual.{job_claim_is_stale}
use agent_v.Queue.Lifecycle.{
  Operation, claim_op, start_op, complete_op, fail_op, retry_op, cancel_op, perform,
}
use agent_v.Queue.Lifecycle.Steps.{next_row, find-perform}

module _ (env : Env) (settings : QueueSettings) (now : ℕ) where
  -- The claim was made a visibility timeout ago. Without the time of a claim the answer differs
  -- between a claim and a cancellation.
  abbrev lapsed : Bool → Option ℕ → Bool
  lapsed undated none = undated
  lapsed undated (some at) = leb (at + settings.visibility_timeout_seconds) now

  abbrev may_claim : JobStatus → Option ℕ → Bool
  may_claim queued at = true
  may_claim failed at = true
  may_claim claimed at = lapsed false at
  may_claim running at = lapsed false at
  may_claim completed at = false
  may_claim dead_letter at = false
  may_claim cancelled at = false

  abbrev may_start : JobStatus → Option String → String → Bool
  may_start claimed (some owner) worker_id = str_eq owner worker_id
  may_start _ _ worker_id = false

  abbrev may_retry : JobStatus → Bool
  may_retry failed = true
  may_retry dead_letter = true
  may_retry cancelled = true
  may_retry queued = false
  may_retry claimed = false
  may_retry running = false
  may_retry completed = false

  abbrev may_cancel : JobStatus → Option ℕ → Bool
  may_cancel queued at = true
  may_cancel claimed at = lapsed true at
  may_cancel _ at = false

  -- the columns after each operation; a refused operation leaves the row
  abbrev pub expected_row : Operation → QueueJobRecord → QueueJobRecord
  expected_row (claim_op locked worker_id) row =
      if locked
      then row
      else if may_claim row.status row.claimed_at && leb row.available_at now
      then record row {
        status = claimed;
        claimed_by = some worker_id;
        claimed_at = some now;
        updated_at = now;
      }
      else row
  expected_row (start_op worker_id) row =
      if may_start row.status row.claimed_by worker_id
      then record row { status = running; attempt_count = row.attempt_count + 1; updated_at = now }
      else row
  expected_row (complete_op worker_id) row = record row {
    status = completed;
    completed_at = some now;
    claimed_by = some worker_id;
    updated_at = now;
  }
  expected_row (fail_op worker_id error) row =
      if leb row.max_attempts row.attempt_count
      then record row {
        status = dead_letter;
        claimed_by = some worker_id;
        failed_at = some now;
        last_error = some (redact_text env error);
        updated_at = now;
      }
      else record row {
        status = queued;
        claimed_by = some worker_id;
        claimed_at = none;
        available_at = now + settings.retry_backoff_seconds;
        failed_at = some now;
        last_error = some (redact_text env error);
        updated_at = now;
      }
  expected_row (retry_op reason) row =
      if may_retry row.status
      then record row {
        status = queued;
        attempt_count = 0;
        claimed_by = none;
        claimed_at = none;
        available_at = now;
        completed_at = none;
        failed_at = none;
        last_error = none;
        updated_at = now;
      }
      else row
  expected_row (cancel_op reason) row =
      if may_cancel row.status row.claimed_at
      then record row { status = cancelled; claimed_by = none; claimed_at = none; updated_at = now }
      else row

  next_row-expected :
      (op : Operation) (row : QueueJobRecord)
      → next_row env settings now op row ≡ expected_row op row
  unfolding next_row is_claimable job_claim_is_stale
  next_row-expected (claim_op locked worker_id) row = ground arith
  next_row-expected (start_op worker_id) row = ground arith
  next_row-expected (complete_op worker_id) row = refl
  next_row-expected (fail_op worker_id error) row = ground arith
  next_row-expected (retry_op reason) row = ground arith
  next_row-expected (cancel_op reason) row = ground arith

  -- Each operation on a job that is stored under its id leaves the columns of the table and every
  -- other job. A free or lapsed job that is due is claimed; a job that its worker claimed is started;
  -- any job is completed or failed, the last into the dead letters if its attempts are used up; only
  -- a failed, dead or cancelled job is reset by a retry, and only a queued one or one with a lapsed
  -- or undated claim is cancelled.
  pub find-perform_expected :
      (redis : RedisPush) (id j : ℕ) (row : QueueJobRecord) (world : World) (op : Operation)
      → Table.find world.jobs id ≡ some row
      → row.id ≡ id
      → Table.find (perform env settings redis now id op world).jobs j
        ≡ (if id == j then some (expected_row op row) else Table.find world.jobs j)
  find-perform_expected redis id j row world op found same =
      rw (find-perform env settings redis now id j row world found same op)
        (rw (next_row-expected op row) refl)
