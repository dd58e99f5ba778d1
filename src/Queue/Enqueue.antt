-- ===== src/Queue/Enqueue.antt =====
-- `RuntimeQueue._get_or_create_job`, the idempotency keys and the four `enqueue_…` methods
-- (queue/jobs.py), on the path of a real database (`INSERT … ON CONFLICT DO NOTHING`).
pub mod Once
use agent_v.Prelude.{
  ℕ, ◌+◌, String, append, Bool, true, false, Option, none, some, List, [], ◌∷◌, str_eq, opt_text,
  if◌then◌else◌,
}
use agent_v.Json.{str, Fields, end, field, opt_str}
use agent_v.Env.{Env}
use agent_v.Events
use agent_v.Events.{queue_job_created}
use agent_v.World.{World}
use agent_v.World.Rows.{
  Tenant, QueueJobRecord, JobType, agent_run, permission_resume, human_input_resume,
  session_compaction, JobStatus,
}
use agent_v.Table
use agent_v.Exec.{Exec, runtime_error, return, raise, read, modify, ◌>>=◌, ◌>>◌}
use agent_v.Queue.Settings.{QueueSettings}
use agent_v.Queue.Publish.{save_job, publish_queue_event}
use agent_v.Queue.Transport.{RedisPush, publish_job}

-- what an enqueue method says of the new job; an id that the method does not pass is None
pub record JobRequest : Type 0 where
  pub job_type : JobType
  pub idempotency_key : String
  pub payload : Fields
  pub run_id : Option ℕ
  pub session_id : Option ℕ
  pub permission_request_id : Option ℕ
  pub human_input_request_id : Option ℕ
  pub user_message_id : Option ℕ

-- `select(QueueJobRecord).where(idempotency_key == key)`
first_with : String → List QueueJobRecord → Option QueueJobRecord
first_with key [] = none
first_with key (job ∷ jobs) =
    if str_eq job.idempotency_key key then some job else first_with key jobs

unfoldable pub find_job_by_idempotency_key : String → World → Option QueueJobRecord
unfolding first_with
find_job_by_idempotency_key key world = first_with key (Table.values world.jobs)

-- the values of the INSERT, with the defaults of the columns that it leaves out
abbrev pub new_row : QueueSettings → ℕ → ℕ → JobRequest → QueueJobRecord
new_row settings now id request = record {
  id = id;
  job_type = request.job_type;
  status = JobStatus.queued;
  run_id = request.run_id;
  session_id = request.session_id;
  permission_request_id = request.permission_request_id;
  human_input_request_id = request.human_input_request_id;
  user_message_id = request.user_message_id;
  payload = request.payload;
  idempotency_key = request.idempotency_key;
  attempt_count = 0;
  max_attempts = settings.max_attempts;
  claimed_by = none;
  claimed_at = none;
  available_at = now;
  completed_at = none;
  failed_at = none;
  last_error = none;
  created_at = now;
  updated_at = now;
}

-- Between the first lookup and the INSERT another transaction may commit a job.
unfoldable pub concurrent_commit : Option QueueJobRecord → World → World
concurrent_commit none world = world
concurrent_commit (some job) world = save_job job world

insert_row : QueueJobRecord → World → World
insert_row row world = save_job row (record world { fresh = world.fresh + 1 })

abbrev or_raise : Option QueueJobRecord → Exec World QueueJobRecord
or_raise none = raise runtime_error
or_raise (some job) = return job

module _ (env : Env) (settings : QueueSettings) (now : ℕ) where
  -- `ON CONFLICT DO NOTHING … RETURNING id`, then the row is loaded: the inserted one, whose
  -- creation is published, or the one that has the key.
  insert_or_load : JobRequest → Option QueueJobRecord → Exec World QueueJobRecord
  unfolding publish_queue_event insert_row
  insert_or_load request (some conflicting) = do
    loaded ← read (find_job_by_idempotency_key request.idempotency_key)
    or_raise loaded
  insert_or_load request none = do
    row ← read (λ world. new_row settings now world.fresh request)
    modify (insert_row row)
    publish_queue_event env row queue_job_created Events.info end
    return row

  create_job : JobRequest → Option QueueJobRecord → Exec World QueueJobRecord
  unfolding insert_or_load concurrent_commit
  create_job request concurrent = do
    modify (concurrent_commit concurrent)
    conflicting ← read (find_job_by_idempotency_key request.idempotency_key)
    insert_or_load request conflicting

  existing_or_create :
      JobRequest → Option QueueJobRecord → Option QueueJobRecord → Exec World QueueJobRecord
  unfolding create_job
  existing_or_create request concurrent (some existing) = return existing
  existing_or_create request concurrent none = create_job request concurrent

  unfoldable pub get_or_create_job : JobRequest → Option QueueJobRecord → Exec World QueueJobRecord
  unfolding existing_or_create
  get_or_create_job request concurrent = do
    existing ← read (find_job_by_idempotency_key request.idempotency_key)
    existing_or_create request concurrent existing

module _ (env : Env) where
  unfoldable pub agent_run_idempotency_key : ℕ → ℕ → String → String
  agent_run_idempotency_key session_id user_message_id agent_id = append "agent_run:" (
      append (env.uuid_text session_id)
        (append ":" (append (env.uuid_text user_message_id) (append ":" agent_id))))

  unfoldable pub permission_resume_idempotency_key : ℕ → String
  permission_resume_idempotency_key id = append "permission_resume:" (env.uuid_text id)

  unfoldable pub human_input_resume_idempotency_key : ℕ → String
  human_input_resume_idempotency_key id = append "human_input_resume:" (env.uuid_text id)

  unfoldable pub session_compaction_idempotency_key : ℕ → Option ℕ → String
  session_compaction_idempotency_key session_id source_message_end_id =
      append "session_compaction:" (
        append (env.uuid_text session_id)
          (append ":" (opt_text env.uuid_text "latest" source_message_end_id)))

  abbrev scope_fields : Tenant → Option ℕ → Fields → Fields
  scope_fields tenant user_id rest = field "user_id" (opt_str env.uuid_text user_id) (
      field "organization_id" (str (env.uuid_text tenant.organization_id)) (
        field "project_id" (str (env.uuid_text tenant.project_id))
          (field "workspace_id" (str (env.uuid_text tenant.workspace_id)) rest)))

  abbrev pub agent_run_request : ℕ → ℕ → ℕ → Option ℕ → Tenant → String → JobRequest
  agent_run_request agent_run_id session_id user_message_id user_id tenant agent_id = record {
    job_type = agent_run;
    idempotency_key = agent_run_idempotency_key session_id user_message_id agent_id;
    payload = field "agent_run_id" (str (env.uuid_text agent_run_id)) (
        field "session_id" (str (env.uuid_text session_id)) (
          field "user_message_id" (str (env.uuid_text user_message_id))
            (scope_fields tenant user_id (field "agent_id" (str agent_id) end))));
    run_id = some agent_run_id;
    session_id = some session_id;
    permission_request_id = none;
    human_input_request_id = none;
    user_message_id = some user_message_id;
  }

  abbrev pub permission_resume_request : ℕ → ℕ → ℕ → Option ℕ → Tenant → JobRequest
  permission_resume_request permission_request_id agent_run_id session_id user_id tenant = record {
    job_type = permission_resume;
    idempotency_key = permission_resume_idempotency_key permission_request_id;
    payload = field "permission_request_id" (str (env.uuid_text permission_request_id)) (
        field "agent_run_id" (str (env.uuid_text agent_run_id))
          (field "session_id" (str (env.uuid_text session_id)) (scope_fields tenant user_id end)));
    run_id = some agent_run_id;
    session_id = some session_id;
    permission_request_id = some permission_request_id;
    human_input_request_id = none;
    user_message_id = none;
  }

  abbrev pub human_input_resume_request : ℕ → ℕ → ℕ → Option ℕ → Tenant → JobRequest
  human_input_resume_request human_input_request_id agent_run_id session_id user_id tenant =
      record {
        job_type = human_input_resume;
        idempotency_key = human_input_resume_idempotency_key human_input_request_id;
        payload = field "human_input_request_id" (str (env.uuid_text human_input_request_id)) (
            field "agent_run_id" (str (env.uuid_text agent_run_id)) (
              field "session_id" (str (env.uuid_text session_id))
                (scope_fields tenant user_id end)));
        run_id = some agent_run_id;
        session_id = some session_id;
        permission_request_id = none;
        human_input_request_id = some human_input_request_id;
        user_message_id = none;
      }

  abbrev pub session_compaction_request : ℕ → Option ℕ → Option ℕ → Tenant → String → JobRequest
  session_compaction_request session_id source_message_end_id user_id tenant reason = record {
    job_type = session_compaction;
    idempotency_key = session_compaction_idempotency_key session_id source_message_end_id;
    payload = field "session_id" (str (env.uuid_text session_id)) (
        field "source_message_end_id" (opt_str env.uuid_text source_message_end_id)
          (scope_fields tenant user_id (field "reason" (str reason) end)));
    run_id = none;
    session_id = some session_id;
    permission_request_id = none;
    human_input_request_id = none;
    user_message_id = none;
  }

  -- the common end of the four methods: the job, and its message if `publish`
  unfoldable pub enqueue :
      QueueSettings
      → RedisPush
      → ℕ
      → JobRequest
      → Option QueueJobRecord
      → Bool
      → Exec World QueueJobRecord
  unfolding get_or_create_job publish_job
  enqueue settings redis now request concurrent publish = do
    job ← get_or_create_job env settings now request concurrent
    if publish then publish_job settings redis job else return tt
    return job
