-- ===== src/HumanInput/Changes.antt =====
-- What the operations on a question write into its rows (runtime/human_input_service.py).
use agent_v.Prelude.{ℕ, String, Bool, true, false, ◌||◌, Option, none, some, leb}
use agent_v.Json.{Json, null, bool, str, arr, obj, Items, nil, cons, Fields, end, field, get}
use agent_v.World.{World}
use agent_v.World.Rows.{
  Tenant, HumanInputRequest, pending, answered, ToolCall, CallStatus, AgentRun, RunStatus,
}
use agent_v.Table
use agent_v.HumanInput.{HumanInputResumeContext, choices_of, allows_free_text, is_choice}

pub record HumanInputRequestCreate : Type 0 where
  pub tenant : Tenant
  pub session_id : ℕ
  pub run_id : ℕ
  pub tool_call_id : ℕ
  pub question : String
  pub details : Fields
  pub expires_at : Option ℕ
  pub request_hash : String
  pub metadata_json : Fields

abbrev pub new_request : HumanInputRequestCreate → ℕ → HumanInputRequest
new_request create id = record {
  id = id;
  tenant = create.tenant;
  session_id = create.session_id;
  run_id = create.run_id;
  tool_call_id = create.tool_call_id;
  question = create.question;
  details_json = create.details;
  status = pending;
  expires_at = create.expires_at;
  request_hash = create.request_hash;
  metadata_json = create.metadata_json;
  answer = none;
  answered_by_user_id = none;
  answered_at = none;
  cancelled_at = none;
}

abbrev pub save_request : HumanInputRequest → World → World
save_request request world = record world {
  human_inputs = Table.put world.human_inputs request.id request;
}

-- the four rows of a context, written back
abbrev pub save_context : HumanInputResumeContext → World → World
save_context context world = record world {
  human_inputs = Table.put world.human_inputs context.request.id context.request;
  tool_calls = Table.put world.tool_calls context.tool_call.id context.tool_call;
  runs = Table.put world.runs context.run.id context.run;
  sessions = Table.put world.sessions context.session.id context.session;
}

-- `choices and not allow_free_text and answer not in choices`, negated
allowed_choice : Items → Bool → String → Bool
allowed_choice nil free answer = true
allowed_choice (cons x xs) free answer = free || is_choice answer (cons x xs)

unfoldable pub accepts : HumanInputRequest → String → Bool
unfolding allowed_choice
accepts request answer =
    allowed_choice (choices_of (get request.metadata_json "choices"))
      (allows_free_text (get request.metadata_json "allow_free_text")) answer

-- `request.expires_at and request.expires_at <= now`
abbrev pub is_expired : ℕ → Option ℕ → Bool
is_expired now none = false
is_expired now (some at) = leb at now

abbrev pub answered_request : ℕ → Option ℕ → String → HumanInputRequest → HumanInputRequest
answered_request now user_id answer request = record request {
  status = answered;
  answer = some answer;
  answered_by_user_id = user_id;
  answered_at = some now;
}

-- `ToolResult.failure(...).model_dump(mode="json")` (tools/base.py)
abbrev pub failure_output : String → String → Bool → Fields → Json
failure_output code message recoverable metadata = obj (
    field "title" (str "") (
      field "ok" (bool false) (
        field "output" null (
          field "error"
            (obj (
              field "code" (str code) (
                field "message" (str message)
                  (field "detail" null (field "recoverable" (bool recoverable) end)))))
            (field "metadata" (obj metadata) (
              field "artifacts" (arr nil) (
                field "redacted" (bool false) (
                  field "truncated" (bool false) (
                    field "started_at" null
                      (field "finished_at" null (field "duration_ms" null end)))))))))))

-- a call, a run and a session that end without an answer
abbrev pub ended_call : ℕ → CallStatus → String → Json → ToolCall → ToolCall
ended_call now status reason output call = record call {
  status = status;
  error = some reason;
  completed_at = some now;
  duration_ms = some 0;
  output_json = some output;
}

abbrev pub ended_run : ℕ → RunStatus → String → AgentRun → AgentRun
ended_run now status reason run = record run {
  status = status;
  error = some reason;
  completed_at = some now;
}
