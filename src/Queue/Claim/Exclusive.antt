-- ===== src/Queue/Claim/Exclusive.antt =====
-- When a worker gets a job, and that no other worker gets it at the same time (queue/jobs.py).
use agent_v.Prelude.{
  ℕ, ◌+◌, ◌≤◌, ◌<◌, String, ◌≡◌, Bool, true, false, not, ◌&&◌, none, some, arith, ltb, ◌==◌,
  if◌then◌else◌, str_eq_refl,
}
use agent_v.Env.{Env}
use agent_v.World.{World}
use agent_v.World.Rows.{QueueJobRecord}
use agent_v.Table
use agent_v.Table.{Table, find-put}
use agent_v.Exec.{ok}
use agent_v.Queue.Settings.{QueueSettings, is_closed, is_held}
use agent_v.Queue.Transport.{RedisPush}
use agent_v.Queue.Claim.{is_claim_live, claimed_row, started_row, claim_job, start_claimed_job}

-- what `claim_job` asks of a row before it takes it
unfoldable pub is_claimable : QueueSettings → ℕ → QueueJobRecord → Bool
is_claimable settings now row =
    not (is_closed row.status)
    && (not (is_held row.status && is_claim_live settings now row.claimed_at)
        && not (ltb now row.available_at))

module _ (env : Env) (settings : QueueSettings) (redis : RedisPush) where
  -- With the queue enabled, `claim_job` on a stored row that no transaction holds returns the row,
  -- marked as the worker's, exactly if the row is open, has no live claim and is due; else it
  -- returns None. Only a row that it returns is changed, and no other row is.
  pub claim_job_exact :
      (now id : ℕ) (worker_id : String) (row : QueueJobRecord) (world : World)
      → settings.enabled ≡ true
      → Table.find world.jobs id ≡ some row
      → row.id ≡ id
      → ((claim_job env settings redis now false id worker_id world).0
          ≡ ok (
              if is_claimable settings now row then some (claimed_row worker_id now row) else none))
        × ((j : ℕ)
            → Table.find (claim_job env settings redis now false id worker_id world).1.jobs j ≡ (
                if is_claimable settings now row && id == j
                then some (claimed_row worker_id now row)
                else Table.find world.jobs j))
  unfolding claim_job is_claimable
  claim_job_exact now id worker_id row world on found same =
      (ground arith, λ j. ground (arith, find-put world.jobs id j (claimed_row worker_id now row)))

  refused :
      (now id : ℕ) (worker_id : String) (row : QueueJobRecord) (world : World)
      → settings.enabled ≡ true
      → Table.find world.jobs id ≡ some row
      → row.id ≡ id
      → is_claimable settings now row ≡ false
      → ((claim_job env settings redis now false id worker_id world).0 ≡ ok none)
        × (Table.find (claim_job env settings redis now false id worker_id world).1.jobs id
            ≡ some row)
  refused now id worker_id row world on found same closed =
      let (result, rows) = claim_job_exact now id worker_id row world on found same in
      (ground (arith, result), ground (arith, rows id))

  taken :
      (now id : ℕ) (worker_id : String) (row : QueueJobRecord) (world : World)
      → settings.enabled ≡ true
      → Table.find world.jobs id ≡ some row
      → row.id ≡ id
      → is_claimable settings now row ≡ true
      → Table.find (claim_job env settings redis now false id worker_id world).1.jobs id
        ≡ some (claimed_row worker_id now row)
  taken now id worker_id row world on found same free =
      let (result, rows) = claim_job_exact now id worker_id row world on found same in
      ground (arith, rows id)

  started :
      (now started_at id : ℕ) (worker_id : String) (row : QueueJobRecord) (world : World)
      → row.id ≡ id
      → Table.find
          (start_claimed_job env started_at (claimed_row worker_id now row) worker_id world).1.jobs
          id
        ≡ some (started_row started_at (claimed_row worker_id now row))
  unfolding start_claimed_job
  started now started_at id worker_id row world same = rw (str_eq_refl, find-put) (ground arith)

  -- With the queue enabled, after worker a claimed a stored and claimable job at time `now`, a claim
  -- of it by any worker b before the visibility timeout is over gets None. So does one after a has
  -- started the job, which then keeps its started row.
  pub claim-claim :
      (now started_at later id : ℕ) (a b : String) (row : QueueJobRecord) (world : World)
      → settings.enabled ≡ true
      → Table.find world.jobs id ≡ some row
      → row.id ≡ id
      → is_claimable settings now row ≡ true
      → later < now + settings.visibility_timeout_seconds
      → let claimed = (claim_job env settings redis now false id a world).1 in
        let started = (start_claimed_job env started_at (claimed_row a now row) a claimed).1 in
        ((claim_job env settings redis later false id b claimed).0 ≡ ok none)
        × ((claim_job env settings redis later false id b started).0 ≡ ok none)
        × (Table.find (claim_job env settings redis later false id b started).1.jobs id
            ≡ some (started_row started_at (claimed_row a now row)))
  unfolding is_claimable
  claim-claim now started_at later id a b row world on found same free early =
      let claimed = (claim_job env settings redis now false id a world).1 in
      let found₁ = taken now id a row world on found same free in
      let found₂ = started now started_at id a row claimed same in
      let world₂ = (start_claimed_job env started_at (claimed_row a now row) a claimed).1 in
      let again =
        refused later id b (started_row started_at (claimed_row a now row)) world₂ on found₂ same
          (ground arith) in
      (
        (refused later id b (claimed_row a now row) claimed on found₁ same (ground arith)).0,
        again.0,
        again.1,
      )

stale_is_claimable :
    (settings : QueueSettings) (now at : ℕ) (row : QueueJobRecord)
    → is_held row.status ≡ true
    → row.claimed_at ≡ some at
    → at + settings.visibility_timeout_seconds ≤ now
    → row.available_at ≤ now
    → is_claimable settings now row ≡ true
unfolding is_claimable
stale_is_claimable settings now at row held claimed old due = ground arith
