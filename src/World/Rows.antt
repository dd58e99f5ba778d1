-- ===== src/World/Rows.antt =====
-- db/models.py: the columns of the rows that the runtime services read and write. UUIDs and dates
-- are numbers (a date counts seconds). Columns that no modelled operation reads or writes are left
-- out.
use agent_v.Prelude.{Bool, ℕ, String, Option}
use agent_v.Json.{Json, Fields}
use agent_v.Events.{EventType, Severity}

-- organization_id, project_id and workspace_id, which travel together
pub record Tenant : Type 0 where
  pub organization_id : ℕ
  pub project_id : ℕ
  pub workspace_id : ℕ

-- `JobType` and `JobStatus` of queue/jobs.py
pub data JobType : Type 0 where
  agent_run permission_resume human_input_resume session_compaction : JobType

pub data JobStatus : Type 0 where
  queued claimed running completed failed dead_letter cancelled : JobStatus

pub record QueueJobRecord : Type 0 where
  pub id : ℕ
  pub job_type : JobType
  pub status : JobStatus
  pub run_id : Option ℕ
  pub session_id : Option ℕ
  pub permission_request_id : Option ℕ
  pub human_input_request_id : Option ℕ
  pub user_message_id : Option ℕ
  pub payload : Fields
  pub idempotency_key : String
  pub attempt_count : ℕ
  pub max_attempts : ℕ
  pub claimed_by : Option String
  pub claimed_at : Option ℕ
  pub available_at : ℕ
  pub completed_at : Option ℕ
  pub failed_at : Option ℕ
  pub last_error : Option String
  pub created_at : ℕ
  pub updated_at : ℕ

pub data RunStatus : Type 0 where
  queued running resume_queued waiting_permission waiting_human_input completed failed cancelled :
      RunStatus

pub record AgentRun : Type 0 where
  pub id : ℕ
  pub session_id : ℕ
  pub status : RunStatus
  pub error : Option String
  pub completed_at : Option ℕ

pub data SessionStatus : Type 0 where
  idle queued running resume_queued waiting_permission waiting_human_input failed cancelled :
      SessionStatus

pub record Session : Type 0 where
  pub id : ℕ
  pub tenant : Tenant
  pub status : SessionStatus
  pub metadata_json : Fields

pub data CallStatus : Type 0 where
  pending running waiting_permission waiting_human_input completed failed denied cancelled :
      CallStatus

pub record ToolCall : Type 0 where
  pub id : ℕ
  pub tenant : Tenant
  pub session_id : ℕ
  pub agent_run_id : Option ℕ
  pub agent_id : String
  pub tool_name : String
  pub input_json : Json
  pub input_hash : String
  pub status : CallStatus
  pub output_json : Option Json
  pub error : Option String
  pub permission_request_id : Option ℕ
  pub started_at : Option ℕ
  pub completed_at : Option ℕ
  pub duration_ms : Option ℕ

-- `PermissionStatus` of permissions/models.py
pub data PermissionStatus : Type 0 where
  pending approved denied : PermissionStatus

pub record PermissionRequest : Type 0 where
  pub id : ℕ
  pub tenant : Tenant
  pub session_id : ℕ
  pub agent_run_id : Option ℕ
  pub tool_call_id : Option ℕ
  pub permission_key : String
  pub resource : String
  pub status : PermissionStatus
  pub input_json : Json
  pub metadata_json : Fields
  pub requested_by_user_id : Option ℕ
  pub resolved_by_user_id : Option ℕ
  pub resolved_at : Option ℕ
  pub resolution_message : Option String

-- the texts that `status` of a human input request takes
pub data HumanInputStatus : Type 0 where
  pending answered cancelled expired : HumanInputStatus

pub record HumanInputRequest : Type 0 where
  pub id : ℕ
  pub tenant : Tenant
  pub session_id : ℕ
  pub run_id : ℕ
  pub tool_call_id : ℕ
  pub question : String
  pub details_json : Fields
  pub status : HumanInputStatus
  pub expires_at : Option ℕ
  pub request_hash : String
  pub metadata_json : Fields
  pub answer : Option String
  pub answered_by_user_id : Option ℕ
  pub answered_at : Option ℕ
  pub cancelled_at : Option ℕ

pub record Message : Type 0 where
  pub id : ℕ
  pub tenant : Tenant
  pub session_id : ℕ
  pub role : String
  pub content : String
  pub parts : Json
  pub metadata_json : Fields

pub record AuditLog : Type 0 where
  pub organization_id : ℕ
  pub actor_user_id : Option ℕ
  pub action : String
  pub resource_type : String
  pub resource_id : String
  pub status : String
  pub metadata_json : Json

pub record SystemEvent : Type 0 where
  pub tenant : Option Tenant
  pub session_id : Option ℕ
  pub agent_run_id : Option ℕ
  pub tool_call_id : Option ℕ
  pub event_type : EventType
  pub severity : Severity
  pub payload : Json

-- the operation of a file change: `write` and `edit` of the tools of these names, `add`, `update`
-- and `delete` of a patch, and `patch` for any other hunk
pub data FileOperation : Type 0 where
  write edit add update delete patch : FileOperation

pub data RevertStatus : Type 0 where
  not_reverted reverted revert_failed : RevertStatus

pub record FileChange : Type 0 where
  pub id : ℕ
  pub tenant : Tenant
  pub session_id : ℕ
  pub agent_run_id : Option ℕ
  pub tool_call_id : Option ℕ
  pub tool_name : String
  pub operation : FileOperation
  pub relative_path : String
  pub resolved_path : String
  pub before_sha256 : Option String
  pub after_sha256 : Option String
  pub before_content : Option String
  pub after_content : Option String
  pub before_content_truncated : Bool
  pub after_content_truncated : Bool
  pub diff : Option String
  pub diff_truncated : Bool
  pub additions : ℕ
  pub deletions : ℕ
  pub replacement_count : ℕ
  pub backup_path : Option String
  pub redacted : Bool
  pub redaction_reason : Option String
  pub revertible : Bool
  pub revert_status : RevertStatus
  pub reverted_at : Option ℕ
  pub reverted_by_user_id : Option ℕ
  pub revert_tool_call_id : Option ℕ
  pub revert_error : Option String
  pub metadata_json : Fields
