-- ===== src/Tests/Queue.antt =====
-- backend/app/queue at concrete inputs.
use agent_v.Prelude.{
  ℕ, ◌+◌, false, ◌≡◌, refl, none, some, List, [], ◌∷◌, arith, ◌==◌, if◌then◌else◌,
}
use agent_v.World.{World}
use agent_v.World.Rows.{JobStatus, dead_letter}
use agent_v.Table
use agent_v.Exec.{ok}
use agent_v.Queue.Transport.{accepts, fails_late, publish_job}
use agent_v.Queue.Transport.Order.{waiting, waiting-publish_job}
use agent_v.Queue.Claim.{claimed_row, started_row, claim_job, start_claimed_job}
use agent_v.Queue.Claim.Exclusive.{is_claimable, claim_job_exact, claim-claim}
use agent_v.Queue.Lifecycle.{
  perform, perform_all, claim_op, start_op, complete_op, fail_op, cancel_op, Operation,
}
use agent_v.Queue.Lifecycle.Transitions.{expected_row, find-perform_expected}
use agent_v.Queue.Lifecycle.Invariant.{AreJobsValid, perform_all-valid}
use agent_v.Queue.Lifecycle.Attempts.{failed_attempts, dead_letter_after}
use agent_v.Tests.Data.{env, settings, job, world}

found : Table.find world.jobs 7 ≡ some job
unfolding Table.find
found = refl

claim_job_exact_example :
    ((claim_job env settings accepts 100 false 7 "w1" world).0
      ≡ ok (some (claimed_row "w1" 100 job)))
    × ((j : ℕ)
        → Table.find (claim_job env settings accepts 100 false 7 "w1" world).1.jobs j
          ≡ (if 7 == j then some (claimed_row "w1" 100 job) else Table.find world.jobs j))
unfolding is_claimable
claim_job_exact_example = claim_job_exact env settings accepts 100 7 "w1" job world refl found refl

abbrev claimed : World
claimed = (claim_job env settings accepts 100 false 7 "w1" world).1

abbrev begun : World
begun = (start_claimed_job env 101 (claimed_row "w1" 100 job) "w1" claimed).1

claim-claim_example :
    ((claim_job env settings accepts 500 false 7 "w2" claimed).0 ≡ ok none)
    × ((claim_job env settings accepts 500 false 7 "w2" begun).0 ≡ ok none)
    × (Table.find (claim_job env settings accepts 500 false 7 "w2" begun).1.jobs 7
        ≡ some (started_row 101 (claimed_row "w1" 100 job)))
unfolding is_claimable
claim-claim_example =
    claim-claim env settings accepts 100 101 500 7 "w1" "w2" job world refl found refl refl
      (omega arith)

find-perform_expected_example :
    Table.find (perform env settings accepts 200 7 (cancel_op "stop") world).jobs 7
    ≡ some (expected_row env settings 200 (cancel_op "stop") job)
find-perform_expected_example =
    find-perform_expected env settings 200 accepts 7 7 job world (cancel_op "stop") found refl

cancelled : (expected_row env settings 200 (cancel_op "stop") job).status ≡ JobStatus.cancelled
cancelled = refl

world_valid : AreJobsValid world
unfolding Table.find
world_valid = record { at_id = λ id row h. ground arith }

abbrev history : List (ℕ × ℕ × Operation)
history =
    (100, 7, claim_op false "w1")
    ∷ (101, 7, start_op "w1")
    ∷ (102, 7, fail_op "w1" "boom")
    ∷ (103, 9, complete_op "w1")
    ∷ []

perform_all-valid_example : AreJobsValid (perform_all env settings accepts history world)
perform_all-valid_example = perform_all-valid env settings accepts history world world_valid

dead_letter_after_example :
    ((failed_attempts env settings "w1" "boom" 2 job).status ≡ JobStatus.queued)
    × ((failed_attempts env settings "w1" "boom" 2 job).attempt_count ≡ 2)
    × ((failed_attempts env settings "w1" "boom" 3 job).status ≡ dead_letter)
    × ((failed_attempts env settings "w1" "boom" 3 job).attempt_count ≡ 3)
dead_letter_after_example = dead_letter_after env settings "w1" "boom" 2 job refl (omega arith)

waiting-publish_job_example :
    ((publish_job settings fails_late job world).0 ≡ ok tt)
    × (waiting 7 (publish_job settings fails_late job world).1 ≡ waiting 7 world + 2)
waiting-publish_job_example = waiting-publish_job settings fails_late job world 7 refl

abbrev with_item : World
with_item = record world { redis_items = 7 ∷ [] }
