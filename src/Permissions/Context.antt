-- ===== src/Permissions/Context.antt =====
-- `PermissionService._load_resume_context` and `_publish_resume_blocked` (permissions/service.py):
-- the rows that an answer or a resumption works on, and the checks before it may.
pub mod Checks
pub mod Complete
pub mod Refused
use agent_v.Prelude.{
  ℕ, String, Bool, true, false, not, ◌&&◌, ◌||◌, Option, none, some, List, [], ◌∷◌, ◌++◌, str_eq,
  is_none, holds, get_or, if◌then◌else◌,
}
use agent_v.Json.{Json, str, obj, end, field, get, text_of, json_eq}
use agent_v.Env.{Env}
use agent_v.Redaction.{redact_data}
use agent_v.Events.{EventType, Severity, permission_resume_blocked}
use agent_v.Events
use agent_v.World.{World}
use agent_v.World.Rows.{
  PermissionRequest, PermissionStatus, pending, approved, denied, ToolCall, CallStatus, AgentRun,
  Session, AuditLog, SystemEvent,
}
use agent_v.Table
use agent_v.Exec.{
  Exec, Error, key_error, permission_state_error, permission_resume_security_error, return, raise,
  read, modify, require, ◌>>=◌, ◌>>◌,
}
use agent_v.EventBus.{publish}

pub record PermissionResumeContext : Type 0 where
  pub request : PermissionRequest
  pub tool_call : ToolCall
  pub run : AgentRun
  pub session : Session

abbrev pub permission_status_eq : PermissionStatus → PermissionStatus → Bool
permission_status_eq pending pending = true
permission_status_eq approved approved = true
permission_status_eq denied denied = true
permission_status_eq _ _ = false

abbrev pub is_waiting_permission : CallStatus → Bool
is_waiting_permission CallStatus.waiting_permission = true
is_waiting_permission _ = false

abbrev pub add_audit : AuditLog → World → World
add_audit audit world = record world { audits = world.audits ++ audit ∷ [] }

-- `loop_guard.input_hash`
unfoldable pub input_hash : Env → Json → String
input_hash env input_json = env.sha256 (env.dumps input_json)

-- `tool_call`, `run` and `session`, if all three are there
abbrev linked_rows :
    PermissionRequest
    → Option ToolCall
    → Option AgentRun
    → Option Session
    → Option PermissionResumeContext
linked_rows request (some tool_call) (some run) (some session) =
    some (record { request = request; tool_call = tool_call; run = run; session = session })
linked_rows request _ _ _ = none

abbrev find_linked :
    PermissionRequest → Option ℕ → Option ℕ → World → Option PermissionResumeContext
find_linked request (some tool_call_id) (some run_id) world =
    linked_rows request (Table.find world.tool_calls tool_call_id) (Table.find world.runs run_id)
      (Table.find world.sessions request.session_id)
find_linked request _ _ world = none

-- the call waits for this very request
abbrev pub waits_for : ToolCall → PermissionRequest → Bool
waits_for tool_call request =
    holds tool_call.permission_request_id request.id && is_waiting_permission tool_call.status

abbrev stored_hash : PermissionRequest → String
stored_hash request = text_of (get request.metadata_json "input_hash")

module _ (env : Env) where
  -- the events of the service carry the request's ids
  abbrev pub request_event : PermissionRequest → EventType → Severity → Json → SystemEvent
  request_event request event_type severity payload = record {
    tenant = some request.tenant;
    session_id = some request.session_id;
    agent_run_id = request.agent_run_id;
    tool_call_id = request.tool_call_id;
    event_type = event_type;
    severity = severity;
    payload = payload;
  }

  unfoldable pub publish_resume_blocked : PermissionRequest → String → Option ℕ → Exec World Unit
  unfolding publish
  publish_resume_blocked request reason tool_call_id = do
    modify (
        add_audit (record {
          organization_id = request.tenant.organization_id;
          actor_user_id = none;
          action = "permission.resume_blocked";
          resource_type = "permission_request";
          resource_id = env.uuid_text request.id;
          status = "blocked";
          metadata_json = redact_data env (
              obj (
                field "reason" (str reason)
                  (field "permission_key" (str request.permission_key) end)));
        }))
    publish env
        (record (request_event request permission_resume_blocked Events.error
          (obj (field "id" (str (env.uuid_text request.id)) (field "reason" (str reason) end)))) {
            tool_call_id = if is_none tool_call_id then request.tool_call_id else tool_call_id;
          })

  -- `if not test: publish the block, and raise PermissionResumeSecurityError`
  require_or_block : Bool → PermissionRequest → String → Option ℕ → Exec World Unit
  unfolding publish_resume_blocked
  require_or_block true request reason tool_call_id = return tt
  require_or_block false request reason tool_call_id = do
    publish_resume_blocked request reason tool_call_id
    raise permission_resume_security_error

  -- the hash noted at the request, the hash of its input and the hash of the call are one
  abbrev pub hashes_agree : ToolCall → PermissionRequest → Bool
  hashes_agree tool_call request =
      not (str_eq (stored_hash request) "")
      && (str_eq (stored_hash request) tool_call.input_hash
          && str_eq (input_hash env request.input_json) tool_call.input_hash)

  -- `require_registered_tool` asks for the tool, and the registry has it
  abbrev pub tool_allows : Bool → ToolCall → Bool
  tool_allows require_registered_tool tool_call =
      not require_registered_tool || env.registered tool_call.tool_name

  -- The last reason goes on with the text of the registry's exception, which is left out.
  check_context : Bool → PermissionResumeContext → Exec World PermissionResumeContext
  unfolding require_or_block
  check_context require_registered_tool context = do
    let request = context.request
    let tool_call = context.tool_call
    require_or_block (waits_for tool_call request) request
        "linked tool call is not waiting for this permission request" (some tool_call.id)
    require_or_block (hashes_agree tool_call request) request
        "permission request input hash does not match linked tool call" (some tool_call.id)
    require_or_block (json_eq tool_call.input_json request.input_json) request
        "permission request input payload does not match linked tool call" (some tool_call.id)
    require_or_block (tool_allows require_registered_tool tool_call) request
        "registered tool missing at resume time: " (some tool_call.id)
    return context

  check_linked :
      Bool → PermissionRequest → Option PermissionResumeContext → Exec World PermissionResumeContext
  unfolding check_context publish_resume_blocked
  check_linked require_registered_tool request none = do
    publish_resume_blocked request "linked tool call, agent run, or session is missing" none
    raise permission_resume_security_error
  check_linked require_registered_tool request (some context) =
      check_context require_registered_tool context

  check_request :
      PermissionStatus → Bool → Option PermissionRequest → Exec World PermissionResumeContext
  unfolding check_linked require_or_block
  check_request required_status require_registered_tool none = raise key_error
  check_request required_status require_registered_tool (some request) = do
    require (permission_status_eq request.status required_status) permission_state_error
    require_or_block (not (is_none request.tool_call_id) && not (is_none request.agent_run_id))
        request "permission request is not linked to a tool call and agent run" none
    linked ← read (find_linked request request.tool_call_id request.agent_run_id)
    check_linked require_registered_tool request linked

  unfoldable pub load_resume_context :
      ℕ → PermissionStatus → Bool → Exec World PermissionResumeContext
  unfolding check_request
  load_resume_context request_id required_status require_registered_tool = do
    found ← read (λ world. Table.find world.permissions request_id)
    check_request required_status require_registered_tool found
