-- ===== src/Permissions/Service.antt =====
-- `PermissionService` (permissions/service.py): a request is created, listed, approved or denied. A
-- handler reads the clock once.
pub mod Answers
pub mod Denial
use agent_v.Prelude.{
  ℕ, ◌+◌, String, append, Bool, true, false, ◌&&◌, Option, none, some, List, [], ◌∷◌, ◌==◌, get_or,
  opt_or, if◌then◌else◌,
}
use agent_v.Json.{Json, null, bool, str, obj, Fields, end, field, get, opt_str, text_or_null}
use agent_v.Env.{Env}
use agent_v.Redaction.{redact_data, redact_text}
use agent_v.Events
use agent_v.Events.{
  permission_requested, permission_approved, permission_denied, tool_call_failed, agent_run_failed,
  agent_run_blocked, info, warning,
}
use agent_v.World.{World}
use agent_v.World.Rows.{
  Tenant, PermissionRequest, PermissionStatus, pending, approved, denied, ToolCall, CallStatus,
  AgentRun, RunStatus, Session, SessionStatus, AuditLog,
}
use agent_v.Table
use agent_v.Exec.{Exec, return, read, modify, ◌>>=◌, ◌>>◌}
use agent_v.EventBus.{publish}
use agent_v.Messages.{create_assistant}
use agent_v.Permissions.Context.{
  PermissionResumeContext, add_audit, request_event, load_resume_context,
}

-- `PermissionRequestCreate` (permissions/models.py)
pub record PermissionRequestCreate : Type 0 where
  pub tenant : Tenant
  pub session_id : ℕ
  pub agent_run_id : Option ℕ
  pub tool_call_id : Option ℕ
  pub permission_key : String
  pub resource : String
  pub input_json : Json
  pub metadata_json : Fields
  pub requested_by_user_id : Option ℕ

abbrev pub new_request : PermissionRequestCreate → ℕ → PermissionRequest
new_request create id = record {
  id = id;
  tenant = create.tenant;
  session_id = create.session_id;
  agent_run_id = create.agent_run_id;
  tool_call_id = create.tool_call_id;
  permission_key = create.permission_key;
  resource = create.resource;
  status = pending;
  input_json = create.input_json;
  metadata_json = create.metadata_json;
  requested_by_user_id = create.requested_by_user_id;
  resolved_by_user_id = none;
  resolved_at = none;
  resolution_message = none;
}

abbrev pub save_request : PermissionRequest → World → World
save_request request world = record world {
  permissions = Table.put world.permissions request.id request;
}

abbrev value_or_null : Option Json → Json
value_or_null none = null
value_or_null (some v) = v

-- what `approve` and `deny` write into the request
abbrev pub resolved :
    PermissionStatus → ℕ → Option ℕ → Option String → PermissionRequest → PermissionRequest
resolved status now user_id message request = record request {
  status = status;
  resolved_by_user_id = user_id;
  resolved_at = some now;
  resolution_message = message;
}

abbrev pub denied_call : ℕ → String → ToolCall → ToolCall
denied_call now reason call = record call {
  status = CallStatus.denied;
  error = some reason;
  completed_at = some now;
  duration_ms = some 0;
}

abbrev pub failed_run : ℕ → String → AgentRun → AgentRun
failed_run now reason run = record run {
  status = RunStatus.failed;
  error = some reason;
  completed_at = some now;
}

-- the four rows of a context, written back
abbrev pub save_context : PermissionResumeContext → World → World
save_context context world = record world {
  permissions = Table.put world.permissions context.request.id context.request;
  tool_calls = Table.put world.tool_calls context.tool_call.id context.tool_call;
  runs = Table.put world.runs context.run.id context.run;
  sessions = Table.put world.sessions context.session.id context.session;
}

module _ (env : Env) where
  abbrev audit : PermissionRequest → Option ℕ → String → String → Json → AuditLog
  audit request user_id action status metadata = record {
    organization_id = request.tenant.organization_id;
    actor_user_id = user_id;
    action = action;
    resource_type = "permission_request";
    resource_id = env.uuid_text request.id;
    status = status;
    metadata_json = redact_data env metadata;
  }

  abbrev about : PermissionRequest → Fields → Fields
  about request rest =
      field "permission_key" (str request.permission_key)
        (field "resource" (str request.resource) rest)

  unfoldable pub create_request : PermissionRequestCreate → Exec World PermissionRequest
  unfolding publish
  create_request create = do
    request ← read (λ world. new_request create world.fresh)
    modify (λ world. save_request request (record world { fresh = world.fresh + 1 }))
    modify (
        add_audit (
          audit request create.requested_by_user_id "permission.request" "pending" (
            obj (
              about request
                (field "tool_call_id" (opt_str env.uuid_text create.tool_call_id) end)))))
    publish env (
        request_event env request permission_requested info (
          obj (
            field "id" (str (env.uuid_text request.id)) (
              field "permission_request_id" (str (env.uuid_text request.id)) (
                about request (
                  field "tool_call_id" (opt_str env.uuid_text request.tool_call_id) (
                    field "tool" (value_or_null (get request.metadata_json "tool")) (
                      field "reason" (value_or_null (get request.metadata_json "reason")) (
                        field "risk_level" (value_or_null (get request.metadata_json "risk_level"))
                          (field "input" (redact_data env request.input_json) (
                            field "metadata" (redact_data env (obj request.metadata_json))
                              end)))))))))))
    return request

  abbrev answer_payload : PermissionRequest → Option String → Json
  answer_payload request message = obj (
      field "id" (str (env.uuid_text request.id)) (
        field "permission_request_id" (str (env.uuid_text request.id))
          (field "message" (text_or_null message) end)))

  unfoldable pub approve : ℕ → ℕ → Option ℕ → Option String → Exec World PermissionResumeContext
  unfolding publish
  approve now request_id user_id message = do
    context ← load_resume_context env request_id pending true
    let request = resolved approved now user_id message context.request
    modify (save_request request)
    modify (
        add_audit (audit request user_id "permission.approve" "approved" (obj (about request end))))
    publish env
        (request_event env request permission_approved info (answer_payload request message))
    return (record context { request = request })

  -- the context as `deny` leaves it
  abbrev pub denied_context :
      ℕ → Option ℕ → Option String → String → PermissionResumeContext → PermissionResumeContext
  denied_context now user_id message reason context = record {
    request = resolved denied now user_id message context.request;
    tool_call = denied_call now reason context.tool_call;
    run = failed_run now reason context.run;
    session = record context.session { status = SessionStatus.failed };
  }

  -- `message or f"Permission denied for {key}: {resource}"`, redacted
  unfoldable pub deny_reason : Option String → PermissionRequest → String
  deny_reason message request = redact_text env (
      opt_or message (
        append "Permission denied for "
          (append request.permission_key (append ": " request.resource))))

  -- the four events of a denial
  publish_denied : PermissionResumeContext → Option String → String → Exec World Unit
  unfolding publish
  publish_denied context message reason = do
    publish env (
        request_event env context.request permission_denied warning
          (answer_payload context.request message))
    publish env (
        request_event env context.request tool_call_failed warning (
          obj (
            field "id" (str (env.uuid_text context.tool_call.id))
              (field "tool" (str context.tool_call.tool_name) (field "error" (str reason) end)))))
    publish env (
        request_event env context.request agent_run_failed warning
          (obj (field "id" (str (env.uuid_text context.run.id)) (field "error" (str reason) end))))
    publish env (
        request_event env context.request agent_run_blocked warning (
          obj (
            field "id" (str (env.uuid_text context.run.id)) (
              field "error" (str reason)
                (field "permission_request_id" (str (env.uuid_text context.request.id)) end)))))

  unfoldable pub deny : ℕ → ℕ → Option ℕ → Option String → Exec World PermissionResumeContext
  unfolding publish_denied create_assistant
  deny now request_id user_id message = do
    loaded ← load_resume_context env request_id pending false
    let reason = deny_reason message loaded.request
    let context = denied_context now user_id message reason loaded
    modify (save_context context)
    modify (
        add_audit (
          audit context.request user_id "permission.deny" "denied"
            (obj (about context.request end))))
    create_assistant env context.session reason (
        field "error" (bool true) (
          field "agent_run_id" (str (env.uuid_text context.run.id)) (
            field "tool_call_id" (str (env.uuid_text context.tool_call.id))
              (field "permission_request_id" (str (env.uuid_text context.request.id)) end))))
    publish_denied context message reason
    return context

  unfoldable pub load_approved_resume_context : ℕ → Exec World PermissionResumeContext
  load_approved_resume_context request_id = load_resume_context env request_id approved true

  unfoldable pub resolve : ℕ → ℕ → Bool → Option ℕ → Option String → Exec World PermissionRequest
  unfolding approve deny
  resolve now request_id is_approved user_id message = do
    context ←
        if is_approved
        then approve now request_id user_id message
        else deny now request_id user_id message
    return context.request
