-- ===== src/HumanInput.antt =====
-- backend/app/runtime/human_input_service.py: questions that an agent puts to a person, and what an
-- answer, a cancellation or an expiry does. The rows of a question, and how it is shown.
pub mod Context
pub mod Changes
pub mod Service
pub mod Listing
use agent_v.Prelude.{
  ℕ, String, Bool, true, false, Option, none, some, str_eq, if◌then◌else◌, is_none,
}
use agent_v.Json.{
  Json, null, bool, str, arr, obj, Items, nil, cons, Fields, end, field, get, truthy, opt_str,
  text_or_null,
}
use agent_v.Env.{Env}
use agent_v.Redaction.{redact_data, redact_text}
use agent_v.World.Rows.{
  HumanInputRequest, HumanInputStatus, pending, answered, cancelled, expired, ToolCall, AgentRun,
  Session,
}

-- `HumanInputResumeContext`
pub record HumanInputResumeContext : Type 0 where
  pub request : HumanInputRequest
  pub tool_call : ToolCall
  pub run : AgentRun
  pub session : Session

abbrev pub status_text : HumanInputStatus → String
status_text pending = "pending"
status_text answered = "answered"
status_text cancelled = "cancelled"
status_text expired = "expired"

-- `list(metadata.get("choices") or [])`, where `question.ask` has noted a list or nothing
abbrev pub choices_of : Option Json → Items
choices_of (some (arr xs)) = xs
choices_of _ = nil

-- `bool(metadata.get("allow_free_text", True))`
abbrev pub allows_free_text : Option Json → Bool
allows_free_text none = true
allows_free_text (some v) = truthy (some v)

-- `answer in choices`
is_text : String → Json → Bool
is_text answer (str s) = str_eq s answer
is_text answer _ = false

unfoldable pub is_choice : String → Items → Bool
unfolding is_text
is_choice answer nil = false
is_choice answer (cons x xs) =
    let rest = is_choice answer xs in if is_text answer x then true else rest

-- `value.isoformat() if value else None`
abbrev time_or_null : Env → Option ℕ → Json
time_or_null env at = opt_str env.time_text at

-- `redact_text(row.answer) if row.answer else None`
abbrev answer_or_null : Env → Option String → Json
answer_or_null env none = null
answer_or_null env (some s) = if str_eq s "" then null else str (redact_text env s)

-- The times of creation and of the last update, which the database sets, are left out.
unfoldable pub serialize_human_input_request : Env → HumanInputRequest → Fields
serialize_human_input_request env row = field "id" (str (env.uuid_text row.id)) (
    field "human_input_request_id" (str (env.uuid_text row.id)) (
      field "session_id" (str (env.uuid_text row.session_id)) (
        field "run_id" (str (env.uuid_text row.run_id)) (
          field "agent_run_id" (str (env.uuid_text row.run_id)) (
            field "tool_call_id" (str (env.uuid_text row.tool_call_id)) (
              field "question" (str (redact_text env row.question)) (
                field "details" (redact_data env (obj row.details_json)) (
                  field "status" (str (status_text row.status)) (
                    field "answer" (answer_or_null env row.answer) (
                      field "answered_by" (opt_str env.uuid_text row.answered_by_user_id) (
                        field "choices" (arr (choices_of (get row.metadata_json "choices"))) (
                          field "allow_free_text"
                            (bool (allows_free_text (get row.metadata_json "allow_free_text")))
                            (field "answered_at" (time_or_null env row.answered_at) (
                              field "expires_at" (time_or_null env row.expires_at) (
                                field "cancelled_at" (time_or_null env row.cancelled_at) (
                                  field "metadata" (redact_data env (obj row.metadata_json))
                                    end))))))))))))))))
