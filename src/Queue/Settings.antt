-- ===== src/Queue/Settings.antt =====
-- The settings of the queue that its operations read (core/config.py), the statuses of a job and
-- their texts (queue/jobs.py).
use agent_v.Prelude.{ℕ, String, Bool, true, false}
use agent_v.World.Rows.{
  JobType, agent_run, permission_resume, human_input_resume, session_compaction, JobStatus, queued,
  claimed, running, completed, failed, dead_letter, cancelled,
}

pub record QueueSettings : Type 0 where
  pub enabled : Bool
  pub max_attempts : ℕ
  pub visibility_timeout_seconds : ℕ
  pub retry_backoff_seconds : ℕ
  pub worker_stale_after_seconds : ℕ

abbrev pub job_type_text : JobType → String
job_type_text agent_run = "agent_run"
job_type_text permission_resume = "permission_resume"
job_type_text human_input_resume = "human_input_resume"
job_type_text session_compaction = "session_compaction"

abbrev pub status_text : JobStatus → String
status_text queued = "queued"
status_text claimed = "claimed"
status_text running = "running"
status_text completed = "completed"
status_text failed = "failed"
status_text dead_letter = "dead_letter"
status_text cancelled = "cancelled"

-- `status in {COMPLETED, DEAD_LETTER, CANCELLED}`
abbrev pub is_closed : JobStatus → Bool
is_closed completed = true
is_closed dead_letter = true
is_closed cancelled = true
is_closed _ = false

-- `status in {CLAIMED, RUNNING}`
abbrev pub is_held : JobStatus → Bool
is_held claimed = true
is_held running = true
is_held _ = false

-- `status in {FAILED, DEAD_LETTER, CANCELLED}`
abbrev pub is_retryable : JobStatus → Bool
is_retryable failed = true
is_retryable dead_letter = true
is_retryable cancelled = true
is_retryable _ = false

abbrev pub is_claimed : JobStatus → Bool
is_claimed claimed = true
is_claimed _ = false

abbrev pub is_running : JobStatus → Bool
is_running running = true
is_running _ = false

abbrev pub is_completed : JobStatus → Bool
is_completed completed = true
is_completed _ = false

abbrev pub is_queued : JobStatus → Bool
is_queued queued = true
is_queued _ = false
