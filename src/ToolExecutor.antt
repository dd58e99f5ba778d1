-- ===== src/ToolExecutor.antt =====
-- `ToolExecutor.execute` (runtime/tool_executor.py), from the lookup of the tool to the stored call:
-- the call is refused, or requested.
pub mod Begun
pub mod Decision
pub mod Limit
use agent_v.Prelude.{ℕ, ◌+◌, String, append, Bool, true, false, Option, none, some, List, contains}
use agent_v.Json.{Json, str, obj, end, field}
use agent_v.Env.{Env}
use agent_v.Redaction.{redact_text}
use agent_v.Events
use agent_v.Events.{tool_call_failed, tool_call_requested}
use agent_v.World.{World}
use agent_v.World.Rows.{Tenant, ToolCall, CallStatus}
use agent_v.Table
use agent_v.Exec.{Exec, return, read, modify, ◌>>=◌, ◌>>◌}
use agent_v.EventBus.{publish}
use agent_v.LoopGuard.{assert_not_repeated}

-- the arguments of `execute`, with the agent's id and its `allowed_tools`
pub record CallRequest : Type 0 where
  pub tenant : Tenant
  pub session_id : ℕ
  pub agent_run_id : Option ℕ
  pub agent_id : String
  pub allowed_tools : List String
  pub tool_name : String
  pub input_json : Json

-- a call that ended before its tool was asked anything: its status and its error
pub record Refusal : Type 0 where
  pub status : CallStatus
  pub error : String

-- `f"Tool {tool_name} is not allowed for agent {agent.id}."`
abbrev not_allowed : CallRequest → String
not_allowed request =
    append "Tool "
      (append request.tool_name (append " is not allowed for agent " (append request.agent_id ".")))

-- The tests in their order: the registry's exception, the agent's tools, the input model's error.
refusal_of : CallRequest → Option String → Bool → Option String → Option Refusal
refusal_of request (some error) allowed invalid =
    some (record { status = CallStatus.failed; error = error })
refusal_of request none false invalid =
    some (record { status = CallStatus.denied; error = not_allowed request })
refusal_of request none true (some error) =
    some (record { status = CallStatus.failed; error = append "Invalid tool input: " error })
refusal_of request none true none = none

abbrev pub add_call : ToolCall → World → World
add_call call world = record world {
  tool_calls = Table.put world.tool_calls call.id call;
  fresh = world.fresh + 1;
}

abbrev pub pending_call : CallRequest → String → ℕ → ToolCall
pending_call request digest id = record {
  id = id;
  tenant = request.tenant;
  session_id = request.session_id;
  agent_run_id = request.agent_run_id;
  agent_id = request.agent_id;
  tool_name = request.tool_name;
  input_json = request.input_json;
  input_hash = digest;
  status = CallStatus.pending;
  output_json = none;
  error = none;
  permission_request_id = none;
  started_at = none;
  completed_at = none;
  duration_ms = none;
}

-- `lookup_error` is the text of the exception that `tool_registry.get` raises, if it does;
-- `input_error` that of the tool's input model.
module _ (env : Env) (max_repeats now : ℕ) (lookup_error : String → Option String)
    (input_error : String → Json → Option String) where
  unfoldable pub refusal : CallRequest → Option Refusal
  unfolding refusal_of
  refusal request =
      refusal_of request (lookup_error request.tool_name)
        (contains request.allowed_tools request.tool_name)
        (input_error request.tool_name request.input_json)

  abbrev pub refused_call : CallRequest → Refusal → String → ℕ → ToolCall
  refused_call request refusal digest id = record (pending_call request digest id) {
    status = refusal.status;
    error = some (redact_text env refusal.error);
    completed_at = some now;
    duration_ms = some 0;
  }

  refuse_call : CallRequest → Refusal → Exec World ToolCall
  unfolding publish
  refuse_call request refusal = do
    digest ←
        assert_not_repeated env max_repeats request.tenant request.session_id request.agent_id
          request.tool_name request.input_json
    call ← read (λ world. refused_call request refusal digest world.fresh)
    modify (add_call call)
    publish env (record {
      tenant = some request.tenant;
      session_id = some request.session_id;
      agent_run_id = request.agent_run_id;
      tool_call_id = some call.id;
      event_type = tool_call_failed;
      severity = Events.warning;
      payload = obj (
          field "id" (str (env.uuid_text call.id)) (
            field "tool" (str request.tool_name)
              (field "error" (str (redact_text env refusal.error)) end)));
    })
    return call

  request_call : CallRequest → Exec World ToolCall
  unfolding publish
  request_call request = do
    digest ←
        assert_not_repeated env max_repeats request.tenant request.session_id request.agent_id
          request.tool_name request.input_json
    call ← read (λ world. pending_call request digest world.fresh)
    modify (add_call call)
    publish env (record {
      tenant = some request.tenant;
      session_id = some request.session_id;
      agent_run_id = request.agent_run_id;
      tool_call_id = some call.id;
      event_type = tool_call_requested;
      severity = Events.info;
      payload = obj (
          field "id" (str (env.uuid_text call.id))
            (field "tool" (str request.tool_name) (field "input" request.input_json end)));
    })
    return call

  pub refuse_or_request : CallRequest → Option Refusal → Exec World ToolCall
  unfolding refuse_call request_call
  refuse_or_request request (some refusal) = refuse_call request refusal
  refuse_or_request request none = request_call request

  -- A pending call goes on to the policy; any other is the outcome.
  unfoldable pub begin_call : CallRequest → Exec World ToolCall
  unfolding refuse_or_request
  begin_call request = refuse_or_request request (refusal request)
