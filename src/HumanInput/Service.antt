-- ===== src/HumanInput/Service.antt =====
-- `HumanInputService` (runtime/human_input_service.py): a question is put, answered, cancelled
-- or expires. A handler reads the clock once.
pub mod Answers
pub mod Endings
pub mod Choices
use agent_v.Prelude.{
  ℕ, ◌+◌, String, Bool, true, false, not, ◌&&◌, ◌||◌, ◌==◌, Option, none, some, List, [], ◌∷◌, leb,
  opt_or, if◌then◌else◌,
}
use agent_v.Json.{
  Json, null, bool, num, str, arr, obj, Items, nil, cons, Fields, end, field, get, set, opt_str,
}
use agent_v.Env.{Env}
use agent_v.Redaction.{redact_data, redact_text}
use agent_v.Events
use agent_v.Events.{
  EventType, question_requested, question_answered, question_cancelled, question_expired,
  tool_call_failed, agent_run_blocked, info, warning,
}
use agent_v.World.{World}
use agent_v.World.Rows.{
  Tenant, HumanInputRequest, HumanInputStatus, pending, answered, cancelled, expired, ToolCall,
  CallStatus, AgentRun, RunStatus, Session, SessionStatus, AuditLog,
}
use agent_v.Table
use agent_v.Exec.{
  Exec, human_input_state_error, human_input_validation_error, return, raise, read, modify, require,
  ◌>>=◌, ◌>>◌,
}
use agent_v.EventBus.{publish}
use agent_v.Messages.{create_assistant}
use agent_v.Permissions.Context.{add_audit}
use agent_v.HumanInput.{
  HumanInputResumeContext, choices_of, allows_free_text, is_choice, status_text,
  serialize_human_input_request,
}
use agent_v.HumanInput.Context.{status_eq, request_event, load_resume_context}
use agent_v.HumanInput.Changes.{
  HumanInputRequestCreate, new_request, save_request, save_context, accepts, is_expired,
  answered_request, failure_output, ended_call, ended_run,
}

abbrev pub expiry_reason : String
expiry_reason = "Human input request expired."

module _ (env : Env) where
  -- `redact_text(message or "Human input request was cancelled.")`
  unfoldable pub cancel_reason : Option String → String
  cancel_reason message = redact_text env (opt_or message "Human input request was cancelled.")

  unfoldable pub load_answered_resume_context : ℕ → Exec World HumanInputResumeContext
  load_answered_resume_context request_id = load_resume_context env request_id answered true

module _ (env : Env) (now : ℕ) where
  abbrev audit : HumanInputRequest → Option ℕ → String → String → Fields → AuditLog
  audit request user_id action status metadata = record {
    organization_id = request.tenant.organization_id;
    actor_user_id = user_id;
    action = action;
    resource_type = "human_input_request";
    resource_id = env.uuid_text request.id;
    status = status;
    metadata_json = redact_data env (obj metadata);
  }

  unfoldable pub create_request : HumanInputRequestCreate → Exec World HumanInputRequest
  unfolding publish
  create_request create = do
    request ← read (λ world. new_request create world.fresh)
    modify (λ world. save_request request (record world { fresh = world.fresh + 1 }))
    modify (
        add_audit (
          audit request none "human_input.request" "pending" (
            field "tool_call_id" (str (env.uuid_text create.tool_call_id)) (
              field "run_id" (str (env.uuid_text create.run_id))
                (field "question" (str create.question) end)))))
    publish env (
        request_event env request question_requested info
          (obj (serialize_human_input_request env request)))
    return request

  abbrev request_field : HumanInputRequest → Fields
  request_field request = field "human_input_request_id" (str (env.uuid_text request.id)) end

  -- the assistant's message that ends the question
  say : HumanInputResumeContext → String → Exec World Unit
  unfolding create_assistant
  say context reason = do
    create_assistant env context.session reason (
        field "error" (bool true) (
          field "agent_run_id" (str (env.uuid_text context.run.id)) (
            field "tool_call_id" (str (env.uuid_text context.tool_call.id))
              (request_field context.request))))
    return tt

  unfoldable pub publish_terminal_question_event :
      HumanInputResumeContext → EventType → String → Exec World Unit
  unfolding publish
  publish_terminal_question_event context event_type reason = do
    publish env (
        request_event env context.request event_type warning (
          obj (
            field "id" (str (env.uuid_text context.request.id)) (
              field "human_input_request_id" (str (env.uuid_text context.request.id))
                (field "reason" (str reason) end)))))
    publish env (
        request_event env context.request tool_call_failed warning (
          obj (
            field "id" (str (env.uuid_text context.tool_call.id))
              (field "tool" (str context.tool_call.tool_name) (field "error" (str reason) end)))))
    publish env (
        request_event env context.request agent_run_blocked warning (
          obj (
            field "id" (str (env.uuid_text context.run.id))
              (field "error" (str reason) (request_field context.request)))))

  -- the contexts as `cancel` and `expire_request` leave them
  abbrev pub cancelled_context : String → HumanInputResumeContext → HumanInputResumeContext
  cancelled_context reason context = record {
    request = record context.request { status = cancelled; cancelled_at = some now };
    tool_call =
        ended_call now CallStatus.cancelled reason
          (failure_output "human_input_cancelled" reason false (request_field context.request))
          context.tool_call;
    run = ended_run now RunStatus.cancelled reason context.run;
    session = record context.session { status = SessionStatus.cancelled };
  }

  abbrev pub expired_context : String → HumanInputResumeContext → HumanInputResumeContext
  expired_context reason context = record {
    request = record context.request { status = expired };
    tool_call =
        ended_call now CallStatus.failed reason
          (failure_output "human_input_expired" reason true (request_field context.request))
          context.tool_call;
    run = ended_run now RunStatus.failed reason context.run;
    session = record context.session { status = SessionStatus.failed };
  }

  unfoldable pub cancel : ℕ → Option ℕ → Option String → Exec World HumanInputResumeContext
  unfolding say publish_terminal_question_event
  cancel request_id user_id message = do
    loaded ← load_resume_context env request_id pending false
    let reason = cancel_reason env message
    let context = cancelled_context reason loaded
    modify (save_context context)
    modify (
        add_audit (
          audit context.request user_id "human_input.cancel" "cancelled"
            (field "reason" (str reason) end)))
    say context reason
    publish_terminal_question_event context question_cancelled reason
    return context

  unfoldable pub expire_request : ℕ → Exec World HumanInputResumeContext
  unfolding say publish_terminal_question_event
  expire_request request_id = do
    loaded ← load_resume_context env request_id pending false
    let context = expired_context expiry_reason loaded
    modify (save_context context)
    say context expiry_reason
    publish_terminal_question_event context question_expired expiry_reason
    return context

  unfoldable pub expire_if_needed : HumanInputRequest → Exec World Unit
  expire_if_needed request =
      if is_expired now request.expires_at
      then (do expire_request request.id; raise human_input_state_error)
      else return tt

  unfoldable pub answer : ℕ → String → Option ℕ → Exec World HumanInputResumeContext
  unfolding publish
  answer request_id text user_id = do
    context ← load_resume_context env request_id pending true
    expire_if_needed context.request
    require (accepts context.request text) human_input_validation_error
    let request = answered_request now user_id text context.request
    modify (save_request request)
    modify (
        add_audit (
          audit request user_id "human_input.answer" "answered"
            (field "question" (str request.question) (field "answer" (str text) end))))
    publish env (
        request_event env request question_answered info (
          obj (
            set "answered_by" (opt_str env.uuid_text user_id) (
              set "answer" (str (redact_text env text))
                (serialize_human_input_request env request)))))
    return (record context { request = request })
