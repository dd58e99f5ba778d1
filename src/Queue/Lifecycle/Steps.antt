-- ===== src/Queue/Lifecycle/Steps.antt =====
-- Each operation on a job makes a step of its row or leaves it, and leaves every other row.
use agent_v.Prelude.{
  ℕ, String, Option, str_eq_iff, ◌≡◌, refl, ◌⊎◌, inl, inr, not, ◌&&◌, ◌||◌, none, some, Bool-cases,
  arith, ◌==◌, if◌then◌else◌,
}
use agent_v.Env.{Env}
use agent_v.World.{World}
use agent_v.World.Rows.{QueueJobRecord, JobStatus}
use agent_v.Table
use agent_v.Table.{find-put}
use agent_v.Redaction.{redact_text}
use agent_v.Queue.Settings.{QueueSettings, is_claimed, is_retryable, is_queued, is_completed}
use agent_v.Queue.Transport.{RedisPush}
use agent_v.Queue.Claim.{claim_job, start_claimed_job, claimed_row, started_row, is_claimed_by}
use agent_v.Queue.Claim.Exclusive.{is_claimable}
use agent_v.Queue.Finish.{
  complete_job, fail_job, completed_columns, completed_row, failed_row, dead_row, requeued_row,
  is_exhausted,
}
use agent_v.Queue.Manual.{retry_job, cancel_job, job_claim_is_stale, retried_row, cancelled_row}
use agent_v.Queue.Lifecycle.{
  JobStep, claim, start, complete, die, requeue, retry, cancel, Operation, claim_op, start_op,
  complete_op, fail_op, retry_op, cancel_op, perform,
}

same_status :
    (status : JobStatus)
    → (if is_completed status then status else JobStatus.completed) ≡ JobStatus.completed
same_status status = ground arith

same_owner :
    (worker_id : String) (owner : Option String)
    → (if is_claimed_by owner worker_id then owner else some worker_id) ≡ some worker_id
same_owner worker_id none = refl
same_owner worker_id (some owner) = ground (arith, str_eq_iff owner worker_id)

-- what each operation makes of the row, as a function of the row alone
unfoldable pub next_row : Env → QueueSettings → ℕ → Operation → QueueJobRecord → QueueJobRecord
next_row env settings now (claim_op locked worker_id) row =
    if not locked && is_claimable settings now row then claimed_row worker_id now row else row
next_row env settings now (start_op worker_id) row =
    if is_claimed row.status && is_claimed_by row.claimed_by worker_id
    then started_row now row
    else row
next_row env settings now (complete_op worker_id) row = completed_row worker_id now row
next_row env settings now (fail_op worker_id error) row =
    let failed = failed_row worker_id now (redact_text env error) row in
    if is_exhausted row then dead_row failed else requeued_row settings now failed
next_row env settings now (retry_op reason) row =
    if is_retryable row.status then retried_row now row else row
next_row env settings now (cancel_op reason) row =
    if is_queued row.status
      || (is_claimed row.status && job_claim_is_stale settings now row.claimed_at)
    then cancelled_row now row
    else row

-- Whatever an operation does to a row, it is one of the guarded steps, or nothing.
pub next_row-Step :
    (env : Env) (settings : QueueSettings) (now : ℕ) (op : Operation) (row : QueueJobRecord)
    → (next_row env settings now op row ≡ row)
      ⊎ JobStep settings row (next_row env settings now op row)
unfolding next_row
next_row-Step env settings now (claim_op locked worker_id) row =
    elim (Bool-cases (not locked && is_claimable settings now row)) [
      | inl passed ↦ rw passed (inr (claim now worker_id row (ground arith)))
      | inr refused ↦ rw refused (inl refl)
    ]
next_row-Step env settings now (start_op worker_id) row =
    elim (Bool-cases (is_claimed row.status && is_claimed_by row.claimed_by worker_id)) [
      | inl passed ↦ rw passed (inr (start now worker_id row (ground arith) (ground arith)))
      | inr refused ↦ rw refused (inl refl)
    ]
next_row-Step env settings now (complete_op worker_id) row = inr (complete now worker_id row)
next_row-Step env settings now (fail_op worker_id error) row =
    elim (Bool-cases (is_exhausted row)) [
      | inl dead ↦ rw dead (inr (die now worker_id (redact_text env error) row dead))
      | inr again ↦ rw again (inr (requeue now worker_id (redact_text env error) row again))
    ]
next_row-Step env settings now (retry_op reason) row = elim (Bool-cases (is_retryable row.status)) [
  | inl passed ↦ rw passed (inr (retry now row passed))
  | inr refused ↦ rw refused (inl refl)
]
next_row-Step env settings now (cancel_op reason) row =
    elim (Bool-cases (
      is_queued row.status
      || (is_claimed row.status && job_claim_is_stale settings now row.claimed_at))) [
        | inl passed ↦ rw passed (inr (cancel now row passed))
        | inr refused ↦ rw refused (inl refl)
      ]

-- Completing a row that nobody changed since it was loaded sets all four columns.
completed_columns-same :
    (worker_id : String) (now : ℕ) (row : QueueJobRecord)
    → completed_columns worker_id now row row ≡ completed_row worker_id now row
completed_columns-same worker_id now row =
    rw (same_status row.status, same_owner worker_id row.claimed_by) refl

module _ (env : Env) (settings : QueueSettings) (redis : RedisPush) (now id j : ℕ)
    (row : QueueJobRecord) (world : World) (found : Table.find world.jobs id ≡ some row)
    (same : row.id ≡ id) where
  put_laws :
      (changed : QueueJobRecord)
      → Table.find (Table.put world.jobs id changed) j
        ≡ (if id == j then some changed else Table.find world.jobs j)
  put_laws changed = find-put world.jobs id j changed

  -- An operation on a job that is stored under its id leaves the row that `next_row` says, and every
  -- other row as it was.
  pub find-perform :
      (op : Operation)
      → Table.find (perform env settings redis now id op world).jobs j
        ≡ (if id == j then some (next_row env settings now op row) else Table.find world.jobs j)
  unfolding perform next_row is_claimable claim_job start_claimed_job complete_job fail_job
      retry_job cancel_job
  find-perform (claim_op locked worker_id) =
      ground (arith, put_laws (claimed_row worker_id now row))
  find-perform (start_op worker_id) = ground (arith, put_laws (started_row now row))
  find-perform (complete_op worker_id) =
      ground (
        arith,
        completed_columns-same worker_id now row,
        put_laws (completed_row worker_id now row),
      )
  find-perform (fail_op worker_id error) =
      let failed = failed_row worker_id now (redact_text env error) row in
      ground (arith, put_laws (dead_row failed), put_laws (requeued_row settings now failed))
  find-perform (retry_op reason) = ground (arith, put_laws (retried_row now row))
  find-perform (cancel_op reason) = ground (arith, put_laws (cancelled_row now row))

-- An operation on a job that is not stored changes no row.
pub find-perform_missing :
    (env : Env) (settings : QueueSettings) (redis : RedisPush) (now id j : ℕ) (world : World)
    (op : Operation)
    → Table.find world.jobs id ≡ none
    → Table.find (perform env settings redis now id op world).jobs j ≡ Table.find world.jobs j
unfolding perform claim_job retry_job cancel_job
find-perform_missing env settings redis now id j world (claim_op locked worker_id) missing =
    ground arith
find-perform_missing env settings redis now id j world op missing = ground arith
