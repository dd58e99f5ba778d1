-- ===== src/Tests/Data.antt =====
-- The concrete world that the tests run in: one queued job, its run and its session.
use agent_v.Prelude.{true, false, none, some, [], ◌∷◌, str_eq}
use agent_v.Json.{end, str, field}
use agent_v.Env.{Env}
use agent_v.World.{World, Bus}
use agent_v.World.Rows.{
  Tenant, QueueJobRecord, agent_run, JobStatus, AgentRun, RunStatus, Session, SessionStatus,
  SystemEvent, ToolCall, CallStatus, PermissionRequest, pending,
}
use agent_v.Events.{queue_job_claimed, info}
use agent_v.Queue.Settings.{QueueSettings}

-- patterns that match nothing but the key "token"
abbrev pub env : Env
env = record {
  sub_private_key = λ s. s;
  sub_bearer = λ s. s;
  sub_assignment = λ s. s;
  sub_json_assignment = λ s. s;
  sub_long_token = λ s. s;
  key_matches = λ k. str_eq k "token";
  dumps = λ j. "dump";
  sha256 = λ s. s;
  uuid_text = λ n. "uuid";
  number_text = λ n. "number";
  time_text = λ n. "time";
  registered = λ name. true;
  redis_pubsub = false;
  redis_publish = λ e. false;
}

abbrev pub settings : QueueSettings
settings = record {
  enabled = true;
  max_attempts = 3;
  visibility_timeout_seconds = 900;
  retry_backoff_seconds = 5;
  worker_stale_after_seconds = 60;
}

abbrev pub tenant : Tenant
tenant = record { organization_id = 1; project_id = 2; workspace_id = 3 }

abbrev pub job : QueueJobRecord
job = record {
  id = 7;
  job_type = agent_run;
  status = JobStatus.queued;
  run_id = some 20;
  session_id = some 10;
  permission_request_id = none;
  human_input_request_id = none;
  user_message_id = none;
  payload = end;
  idempotency_key = "agent_run:10";
  attempt_count = 0;
  max_attempts = 3;
  claimed_by = none;
  claimed_at = none;
  available_at = 100;
  completed_at = none;
  failed_at = none;
  last_error = none;
  created_at = 90;
  updated_at = 90;
}

abbrev pub bus : Bus
bus = record { global_subscribers = 1 ∷ []; session_subscribers = (10, 2 ∷ 3 ∷ []) ∷ [] }

abbrev pub run : AgentRun
run = record {
  id = 20;
  session_id = 10;
  status = RunStatus.queued;
  error = none;
  completed_at = none;
}

abbrev pub session : Session
session = record { id = 10; tenant = tenant; status = SessionStatus.queued; metadata_json = end }

abbrev pub world : World
world = record {
  jobs = record { rows = (7, job) ∷ [] };
  runs = record { rows = (20, run) ∷ [] };
  sessions = record { rows = (10, session) ∷ [] };
  tool_calls = record { rows = [] };
  permissions = record { rows = [] };
  human_inputs = record { rows = [] };
  file_changes = record { rows = [] };
  messages = [];
  audits = [];
  events = [];
  bus = bus;
  broadcasts = [];
  redis_items = [];
  local_items = [];
  files = record { entries = [] };
  fresh = 100;
}

abbrev pub event : SystemEvent
event = record {
  tenant = none;
  session_id = some 10;
  agent_run_id = none;
  tool_call_id = none;
  event_type = queue_job_claimed;
  severity = info;
  payload = str "x";
}

abbrev pub call : ToolCall
call = record {
  id = 30;
  tenant = tenant;
  session_id = 10;
  agent_run_id = some 20;
  agent_id = "build";
  tool_name = "shell.run";
  input_json = str "ls";
  input_hash = "dump";
  status = CallStatus.waiting_permission;
  output_json = none;
  error = none;
  permission_request_id = some 40;
  started_at = none;
  completed_at = none;
  duration_ms = none;
}

abbrev pub request : PermissionRequest
request = record {
  id = 40;
  tenant = tenant;
  session_id = 10;
  agent_run_id = some 20;
  tool_call_id = some 30;
  permission_key = "shell";
  resource = "ls";
  status = pending;
  input_json = str "ls";
  metadata_json = field "input_hash" (str "dump") end;
  requested_by_user_id = none;
  resolved_by_user_id = none;
  resolved_at = none;
  resolution_message = none;
}

-- the call waits for the request
abbrev pub waiting_world : World
waiting_world = record world {
  tool_calls = record { rows = (30, call) ∷ [] };
  permissions = record { rows = (40, request) ∷ [] };
}
