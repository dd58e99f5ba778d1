-- ===== src/ToolExecutor/Decision/Question.antt =====
-- The tool question.ask in `ToolExecutor.execute` (runtime/tool_executor.py): the call is put on hold
-- until a person answers, or fails at once.
pub mod Answered
use agent_v.Prelude.{
  ℕ, ◌+◌, String, Bool, true, false, not, Option, none, some, List, str_eq, ◌==◌, if◌then◌else◌,
}
use agent_v.Json.{Json, null, bool, num, str, arr, obj, Fields, end, field}
use agent_v.Env.{Env}
use agent_v.World.{World}
use agent_v.World.Rows.{ToolCall, CallStatus, HumanInputRequest}
use agent_v.Exec.{Exec, return, modify, ◌>>=◌, ◌>>◌}
use agent_v.HumanInput.Changes.{HumanInputRequestCreate}
use agent_v.HumanInput.Service.{create_request}
use agent_v.ToolExecutor.Decision.{PreviewEnv, text_items, save_call}

-- `details` of the input: nothing, a dictionary, or anything else, as a text
pub data Details : Type 0 where
  missing : Details
  dictionary : Fields → Details
  other : String → Details

-- the input of question.ask
pub record QuestionAskInput : Type 0 where
  pub question : String
  pub details : Details
  pub timeout_seconds : Option ℕ
  pub choices : List String
  pub allow_free_text : Bool

abbrev details_json : Details → Fields
details_json missing = end
details_json (dictionary fields) = fields
details_json (other text) = field "text" (str text) end

-- `datetime.now(UTC) + timedelta(seconds=…) if timeout_seconds else None`
abbrev pub expires_after : ℕ → Option ℕ → Option ℕ
expires_after now none = none
expires_after now (some seconds) = if seconds == 0 then none else some (now + seconds)

abbrev number_or_null : Option ℕ → Json
number_or_null none = null
number_or_null (some n) = num n

-- the call fails before anyone is asked
abbrev pub unasked_call : ℕ → String → ToolCall → ToolCall
unasked_call now error call = record call {
  status = CallStatus.failed;
  error = some error;
  completed_at = some now;
  duration_ms = some 0;
}

abbrev pub asking_call : ToolCall → ToolCall
asking_call call = record call { status = CallStatus.waiting_human_input }

module _ (env : Env) (text : PreviewEnv) (now : ℕ) where
  unfoldable pub question_create : QuestionAskInput → ToolCall → ℕ → HumanInputRequestCreate
  unfolding text_items
  question_create input call run_id = record {
    tenant = call.tenant;
    session_id = call.session_id;
    run_id = run_id;
    tool_call_id = call.id;
    question = text.strip input.question;
    details = details_json input.details;
    expires_at = expires_after now input.timeout_seconds;
    request_hash = call.input_hash;
    metadata_json = field "tool" (str call.tool_name) (
        field "choices" (arr (text_items input.choices)) (
          field "allow_free_text" (bool input.allow_free_text) (
            field "timeout_seconds" (number_or_null input.timeout_seconds)
              (field "input_hash" (str call.input_hash) end))));
  }

  fail_unasked : String → ToolCall → Exec World ToolCall
  fail_unasked error call = do
    modify (save_call (unasked_call now error call))
    return (unasked_call now error call)

  hold_for_answer : QuestionAskInput → ToolCall → ℕ → Exec World ToolCall
  unfolding create_request question_create
  hold_for_answer input call run_id = do
    create_request env now (question_create input call run_id)
    modify (save_call (asking_call call))
    return (asking_call call)

  ask_in_run : QuestionAskInput → ToolCall → Option ℕ → Exec World ToolCall
  unfolding fail_unasked hold_for_answer
  ask_in_run input call none = fail_unasked "question.ask requires an active agent run." call
  ask_in_run input call (some run_id) =
      if str_eq (text.strip input.question) ""
      then fail_unasked "question.ask requires a question." call
      else hold_for_answer input call run_id

  unfoldable pub ask_question : QuestionAskInput → ToolCall → Exec World ToolCall
  unfolding ask_in_run
  ask_question input call = ask_in_run input call call.agent_run_id
