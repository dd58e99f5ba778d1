-- ===== src/Queue/Enqueue/Once.antt =====
-- Enqueueing is idempotent (`_get_or_create_job` of queue/jobs.py).
use agent_v.Prelude.{
  ℕ, String, ◌≡◌, refl, Option, none, some, List, [], ◌∷◌, ◌++◌, Option-cases, inl, inr, arith,
  str_eq_iff,
}
use agent_v.Env.{Env}
use agent_v.World.{World}
use agent_v.World.Rows.{QueueJobRecord}
use agent_v.Table
use agent_v.Table.{values-put}
use agent_v.Exec.{Result, ok}
use agent_v.Queue.Settings.{QueueSettings}
use agent_v.Queue.Enqueue.{
  JobRequest, first_with, find_job_by_idempotency_key, new_row, concurrent_commit,
  get_or_create_job,
}

key-first_with :
    (key : String) (jobs : List QueueJobRecord) (job : QueueJobRecord)
    → first_with key jobs ≡ some job
    → job.idempotency_key ≡ key
unfolding first_with
key-first_with key [] job found = ground arith
key-first_with key (j ∷ jobs) job found =
    ground (arith, str_eq_iff j.idempotency_key key, key-first_with key jobs job)

first_with-append :
    (key : String) (jobs : List QueueJobRecord) (job : QueueJobRecord)
    → first_with key jobs ≡ none
    → job.idempotency_key ≡ key
    → first_with key (jobs ++ job ∷ []) ≡ some job
unfolding first_with
first_with-append key [] job absent same = ground (arith, str_eq_iff job.idempotency_key key)
first_with-append key (j ∷ jobs) job absent same = ground (arith, first_with-append key jobs job)

module _ (env : Env) (settings : QueueSettings) (now : ℕ) (request : JobRequest)
    (concurrent : Option QueueJobRecord) (world : World) where
  found_at_once :
      (job : QueueJobRecord)
      → find_job_by_idempotency_key request.idempotency_key world ≡ some job
      → get_or_create_job env settings now request concurrent world ≡ (ok job, world)
  unfolding get_or_create_job
  found_at_once job found = ground arith

  found_on_conflict :
      (job : QueueJobRecord)
      → find_job_by_idempotency_key request.idempotency_key world ≡ none
      → find_job_by_idempotency_key request.idempotency_key (concurrent_commit concurrent world)
        ≡ some job
      → get_or_create_job env settings now request concurrent world
        ≡ (ok job, concurrent_commit concurrent world)
  unfolding get_or_create_job
  found_on_conflict job absent found = rw absent (rw found (rw found))

  created :
      find_job_by_idempotency_key request.idempotency_key world ≡ none
      → find_job_by_idempotency_key request.idempotency_key (concurrent_commit concurrent world)
        ≡ none
      → let row = new_row settings now (concurrent_commit concurrent world).fresh request in
        ((get_or_create_job env settings now request concurrent world).0 ≡ ok row)
        × ((get_or_create_job env settings now request concurrent world).1.jobs
            ≡ Table.put
                (concurrent_commit concurrent world).jobs
                (concurrent_commit concurrent world).fresh
                row)
  unfolding get_or_create_job
  created absent free = rw absent (rw free (refl, refl))

-- the result of an enqueue: a job with the key, which the next enqueue finds
record IsOnce (request : JobRequest) (after : Result QueueJobRecord × World) : Type 0 where
  job : QueueJobRecord
  returned : after.0 ≡ ok job
  keyed : job.idempotency_key ≡ request.idempotency_key
  found : find_job_by_idempotency_key request.idempotency_key after.1 ≡ some job

module _ (env : Env) (settings : QueueSettings) (now : ℕ) (request : JobRequest)
    (concurrent : Option QueueJobRecord) (world : World)
    (unique : Table.find
        (concurrent_commit concurrent world).jobs
        (concurrent_commit concurrent world).fresh
      ≡ none) where
  abbrev key : String
  key = request.idempotency_key

  abbrev committed : World
  committed = concurrent_commit concurrent world

  get_or_create_job-IsOnce :
      IsOnce request (get_or_create_job env settings now request concurrent world)
  unfolding find_job_by_idempotency_key
  get_or_create_job-IsOnce = elim (Option-cases (find_job_by_idempotency_key key world)) [
    | inr (job, found) ↦
        rw (found_at_once env settings now request concurrent world job found) (record {
          job = job;
          returned = refl;
          keyed = key-first_with key (Table.values world.jobs) job found;
          found = found;
        })
    | inl absent ↦ elim (Option-cases (find_job_by_idempotency_key key committed)) [
      | inr (job, found) ↦
          rw (found_on_conflict env settings now request concurrent world job absent found)
            (record {
              job = job;
              returned = refl;
              keyed = key-first_with key (Table.values committed.jobs) job found;
              found = found;
            })
      | inl free ↦
          let (returned, rows) = created env settings now request concurrent world absent free in
          let row = new_row settings now committed.fresh request in
          record {
            job = row;
            returned = returned;
            keyed = refl;
            found = rw rows (
                rw (values-put committed.jobs committed.fresh row unique)
                  (first_with-append key (Table.values committed.jobs) row free refl));
          }
    ]
  ]

  -- If the next UUID is free, enqueueing returns a job with the request's key, whether the job was
  -- there, is created, or is committed by another transaction in between. Any later request with
  -- that key gets the same job and changes nothing.
  pub get_or_create_job_once :
      (job : QueueJobRecord) × ((get_or_create_job env settings now request concurrent world).0
        ≡ ok job)
      × (job.idempotency_key ≡ key)
      × ((later : ℕ) (request' : JobRequest) (concurrent' : Option QueueJobRecord)
          → request'.idempotency_key ≡ key
          → let after = (get_or_create_job env settings now request concurrent world).1 in
            get_or_create_job env settings later request' concurrent' after ≡ (ok job, after))
  get_or_create_job_once =
      let once = get_or_create_job-IsOnce in
      (
        once.job,
        once.returned,
        once.keyed,
        λ later request' concurrent' same.
            found_at_once env settings later request' concurrent'
              (get_or_create_job env settings now request concurrent world).1 once.job
              (rw same once.found),
      )
