-- ===== src/HumanInput/Context.antt =====
-- `HumanInputService._load_resume_context` and `_publish_resume_blocked`
-- (runtime/human_input_service.py): the rows that an answer works on, and the checks before it may.
pub mod Checks
use agent_v.Prelude.{
  ℕ, String, Bool, true, false, not, ◌&&◌, ◌||◌, Option, none, some, str_eq, is_none,
}
use agent_v.Json.{Json, str, obj, end, field}
use agent_v.Env.{Env}
use agent_v.Redaction.{redact_data}
use agent_v.Events.{EventType, Severity, question_resume_blocked}
use agent_v.Events
use agent_v.World.{World}
use agent_v.World.Rows.{
  HumanInputRequest, HumanInputStatus, pending, answered, cancelled, expired, ToolCall, CallStatus,
  AgentRun, Session, SystemEvent,
}
use agent_v.Table
use agent_v.Exec.{
  Exec, key_error, human_input_state_error, human_input_resume_security_error, return, raise, read,
  modify, require, ◌>>=◌, ◌>>◌,
}
use agent_v.EventBus.{publish}
use agent_v.Permissions.Context.{add_audit, input_hash}
use agent_v.HumanInput.{HumanInputResumeContext}

abbrev pub status_eq : HumanInputStatus → HumanInputStatus → Bool
status_eq pending pending = true
status_eq answered answered = true
status_eq cancelled cancelled = true
status_eq expired expired = true
status_eq _ _ = false

abbrev pub is_waiting_human_input : CallStatus → Bool
is_waiting_human_input CallStatus.waiting_human_input = true
is_waiting_human_input _ = false

-- `tool_call`, `run` and `session`, if all three are there
abbrev linked_rows :
    HumanInputRequest
    → Option ToolCall
    → Option AgentRun
    → Option Session
    → Option HumanInputResumeContext
linked_rows request (some tool_call) (some run) (some session) =
    some (record { request = request; tool_call = tool_call; run = run; session = session })
linked_rows request _ _ _ = none

abbrev find_linked : HumanInputRequest → World → Option HumanInputResumeContext
find_linked request world =
    linked_rows request (Table.find world.tool_calls request.tool_call_id)
      (Table.find world.runs request.run_id) (Table.find world.sessions request.session_id)

module _ (env : Env) where
  -- the events of the service carry the request's ids
  abbrev pub request_event : HumanInputRequest → EventType → Severity → Json → SystemEvent
  request_event request event_type severity payload = record {
    tenant = some request.tenant;
    session_id = some request.session_id;
    agent_run_id = some request.run_id;
    tool_call_id = some request.tool_call_id;
    event_type = event_type;
    severity = severity;
    payload = payload;
  }

  -- The call's id, where it is given, is the request's.
  unfoldable pub publish_resume_blocked : HumanInputRequest → String → Exec World Unit
  unfolding publish
  publish_resume_blocked request reason = do
    modify (
        add_audit (record {
          organization_id = request.tenant.organization_id;
          actor_user_id = none;
          action = "human_input.resume_blocked";
          resource_type = "human_input_request";
          resource_id = env.uuid_text request.id;
          status = "blocked";
          metadata_json = redact_data env (obj (field "reason" (str reason) end));
        }))
    publish env (
        request_event request question_resume_blocked Events.error (
          obj (
            field "id" (str (env.uuid_text request.id)) (
              field "human_input_request_id" (str (env.uuid_text request.id))
                (field "reason" (str reason) end)))))

  -- `if not test: publish the block, and raise HumanInputResumeSecurityError`
  require_or_block : Bool → HumanInputRequest → String → Exec World Unit
  unfolding publish_resume_blocked
  require_or_block true request reason = return tt
  require_or_block false request reason = do
    publish_resume_blocked request reason
    raise human_input_resume_security_error

  -- the request's hash, the call's hash and the hash of the call's input are one
  abbrev pub hashes_agree : ToolCall → HumanInputRequest → Bool
  hashes_agree tool_call request =
      not (str_eq request.request_hash "")
      && (str_eq request.request_hash tool_call.input_hash
          && str_eq (input_hash env tool_call.input_json) tool_call.input_hash)

  -- `require_registered_tool` asks for the tool, and the registry has it
  abbrev pub tool_allows : Bool → ToolCall → Bool
  tool_allows require_registered_tool tool_call =
      not require_registered_tool || env.registered tool_call.tool_name

  -- The last reason goes on with the text of the registry's exception, which is left out.
  check_context : Bool → HumanInputResumeContext → Exec World HumanInputResumeContext
  unfolding require_or_block
  check_context require_registered_tool context = do
    let request = context.request
    let tool_call = context.tool_call
    require_or_block (is_waiting_human_input tool_call.status) request
        "linked tool call is not waiting for human input"
    require_or_block (str_eq tool_call.tool_name "question.ask") request
        "linked tool call is not question.ask"
    require_or_block (hashes_agree tool_call request) request
        "human input request hash does not match linked tool call"
    require_or_block (tool_allows require_registered_tool tool_call) request
        "registered tool missing at resume time: "
    return context

  check_linked :
      Bool → HumanInputRequest → Option HumanInputResumeContext → Exec World HumanInputResumeContext
  unfolding check_context publish_resume_blocked
  check_linked require_registered_tool request none = do
    publish_resume_blocked request "linked tool call, run, or session is missing"
    raise human_input_resume_security_error
  check_linked require_registered_tool request (some context) =
      check_context require_registered_tool context

  check_request :
      HumanInputStatus → Bool → Option HumanInputRequest → Exec World HumanInputResumeContext
  unfolding check_linked
  check_request required_status require_registered_tool none = raise key_error
  check_request required_status require_registered_tool (some request) = do
    require (status_eq request.status required_status) human_input_state_error
    linked ← read (find_linked request)
    check_linked require_registered_tool request linked

  unfoldable pub load_resume_context :
      ℕ → HumanInputStatus → Bool → Exec World HumanInputResumeContext
  unfolding check_request
  load_resume_context request_id required_status require_registered_tool = do
    found ← read (λ world. Table.find world.human_inputs request_id)
    check_request required_status require_registered_tool found
