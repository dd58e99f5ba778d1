-- ===== src/Queue/Lifecycle/Invariant.antt =====
-- What holds of every job row between two operations (queue/jobs.py).
use agent_v.Prelude.{
  ℕ, ◌≤◌, true, false, ◌≡◌, refl, inl, inr, none, some, List, [], ◌∷◌, Option-cases, arith, ◌∙◌,
  is_none,
}
use agent_v.Env.{Env}
use agent_v.World.{World}
use agent_v.World.Rows.{QueueJobRecord, JobStatus, dead_letter}
use agent_v.Table
use agent_v.Table.{at-put}
use agent_v.Queue.Settings.{QueueSettings, is_held}
use agent_v.Queue.Transport.{RedisPush}
use agent_v.Queue.Claim.Exclusive.{is_claimable}
use agent_v.Queue.Lifecycle.{
  JobStep, claim, start, complete, die, requeue, retry, cancel, Operation, perform, perform_all,
}
use agent_v.Queue.Lifecycle.Steps.{next_row, next_row-Step, find-perform, find-perform_missing}

pub record IsWellFormed (row : QueueJobRecord) : Type 0 where
  -- a claimed or running job has an owner and the time of its claim
  pub held_owned :
      is_held row.status ≡ true
      → (is_none row.claimed_at ≡ false) × (is_none row.claimed_by ≡ false)
  -- a queued job is claimed by nobody
  pub queued_free : row.status ≡ JobStatus.queued → row.claimed_at ≡ none
  pub completed_dated : row.status ≡ JobStatus.completed → is_none row.completed_at ≡ false
  -- a job is given up only with its attempts used up, and with the error
  pub dead_exhausted :
      row.status ≡ dead_letter
      → (row.max_attempts ≤ row.attempt_count)
        × (is_none row.failed_at ≡ false)
        × (is_none row.last_error ≡ false)
  pub cancelled_free :
      row.status ≡ JobStatus.cancelled → (row.claimed_at ≡ none) × (row.claimed_by ≡ none)

pub JobStep-IsWellFormed :
    (settings : QueueSettings) {a b : QueueJobRecord}
    → JobStep settings a b
    → IsWellFormed a
    → IsWellFormed b
unfolding is_claimable
JobStep-IsWellFormed settings (claim now worker_id row guard) h = ground arith
JobStep-IsWellFormed settings (start now worker_id row guard owner) h = ground arith
JobStep-IsWellFormed settings (complete now worker_id row) h = ground arith
JobStep-IsWellFormed settings (die now worker_id error row guard) h = ground arith
JobStep-IsWellFormed settings (requeue now worker_id error row guard) h = ground arith
JobStep-IsWellFormed settings (retry now row guard) h = ground arith
JobStep-IsWellFormed settings (cancel now row guard) h = ground arith

JobStep-id : (settings : QueueSettings) {a b : QueueJobRecord} → JobStep settings a b → b.id ≡ a.id
JobStep-id settings (claim now worker_id row guard) = refl
JobStep-id settings (start now worker_id row guard owner) = refl
JobStep-id settings (complete now worker_id row) = refl
JobStep-id settings (die now worker_id error row guard) = refl
JobStep-id settings (requeue now worker_id error row guard) = refl
JobStep-id settings (retry now row guard) = refl
JobStep-id settings (cancel now row guard) = refl

-- Every stored row stands under its own id and is well formed.
pub record AreJobsValid (world : World) : Type 0 where
  pub at_id :
      (id : ℕ) (row : QueueJobRecord)
      → Table.find world.jobs id ≡ some row
      → (row.id ≡ id) × IsWellFormed row

module _ (env : Env) (settings : QueueSettings) (redis : RedisPush) where
  next_row-valid :
      (now id : ℕ) (op : Operation) (row : QueueJobRecord)
      → (row.id ≡ id) × IsWellFormed row
      → ((next_row env settings now op row).id ≡ id)
        × IsWellFormed (next_row env settings now op row)
  next_row-valid now id op row (same, formed) = elim (next_row-Step env settings now op row) [
    | inl kept ↦ rw kept (same, formed)
    | inr step ↦ (JobStep-id settings step ∙ same, JobStep-IsWellFormed settings step formed)
  ]

  perform-valid :
      (now id : ℕ) (op : Operation) (world : World)
      → AreJobsValid world
      → AreJobsValid (perform env settings redis now id op world)
  perform-valid now id op world valid = elim (Option-cases (Table.find world.jobs id)) [
    | inl missing ↦ record {
      at_id = λ j after h.
          valid.at_id j after
            (rw (find-perform_missing env settings redis now id j world op missing) at h);
    }
    | inr (row, found) ↦ record {
      at_id = λ j after h.
          let formed = next_row-valid now id op row (valid.at_id id row found) in
          let rows =
            find-perform env settings redis now id j row world found (valid.at_id id row found).0
              op in
          at-put (λ k r. (r.id ≡ k) × IsWellFormed r) world.jobs id j
            (next_row env settings now op row) after rows h formed valid.at_id;
    }
  ]

  -- Through any history of claims, starts, completions, failures, retries and cancellations, at any
  -- times and on any jobs, stored or not, every stored job row keeps its id and stays well formed.
  pub perform_all-valid :
      (history : List (ℕ × ℕ × Operation)) (world : World)
      → AreJobsValid world
      → AreJobsValid (perform_all env settings redis history world)
  unfolding perform_all
  perform_all-valid [] world valid = valid
  perform_all-valid ((now, id, op) ∷ rest) world valid =
      perform_all-valid rest (perform env settings redis now id op world)
        (perform-valid now id op world valid)
