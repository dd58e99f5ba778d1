-- ===== src/ToolExecutor/Decision/Question/Answered.antt =====
-- A question that a call asks (runtime/tool_executor.py), and its answer
-- (runtime/human_input_service.py).
use agent_v.Prelude.{ℕ, String, true, false, ◌≡◌, refl, sym, Option, some, str_eq, str_eq_refl}
use agent_v.Env.{Env}
use agent_v.World.{World}
use agent_v.World.Rows.{ToolCall, AgentRun, Session, HumanInputStatus}
use agent_v.Table
use agent_v.Table.{find-put_same}
use agent_v.Exec.{ok}
use agent_v.HumanInput.{HumanInputResumeContext}
use agent_v.HumanInput.Changes.{new_request, answered_request, accepts, is_expired}
use agent_v.HumanInput.Context.Checks.{IsLinked}
use agent_v.HumanInput.Service.{answer, load_answered_resume_context}
use agent_v.HumanInput.Service.Answers.{answer-load_answered}
use agent_v.Permissions.Context.{input_hash}
use agent_v.ToolExecutor.Decision.{PreviewEnv}
use agent_v.ToolExecutor.Decision.Question.{
  QuestionAskInput, question_create, asking_call, ask_question,
}

module _ (env : Env) (text : PreviewEnv) (now : ℕ) (input : QuestionAskInput) where
  -- the call is as `execute` has made it, with a question, and its run, session and tool are there
  pub record IsAsking (call : ToolCall) (run_id : ℕ) (run : AgentRun) (session : Session)
      (world : World) : Type 0 where
    pub has_run : call.agent_run_id ≡ some run_id
    pub has_question : str_eq (text.strip input.question) "" ≡ false
    pub run_stored : Table.find world.runs run_id ≡ some run
    pub session_stored : Table.find world.sessions call.session_id ≡ some session
    pub asks : str_eq call.tool_name "question.ask" ≡ true
    pub own_hash : call.input_hash ≡ input_hash env call.input_json
    pub some_hash : str_eq call.input_hash "" ≡ false
    pub tool_registered : env.registered call.tool_name ≡ true

  abbrev pub asking_context : ToolCall → ℕ → AgentRun → Session → ℕ → HumanInputResumeContext
  asking_context call run_id run session id = record {
    request = new_request (question_create env text now input call run_id) id;
    tool_call = asking_call call;
    run = run;
    session = session;
  }

  asking-IsLinked :
      (call : ToolCall) (run_id : ℕ) (run : AgentRun) (session : Session) (world : World)
      → IsAsking call run_id run session world
      → IsLinked env world.fresh HumanInputStatus.pending true
          (ask_question env text now input call world).1
          (asking_context call run_id run session world.fresh)
  unfolding ask_question question_create
  asking-IsLinked call run_id run session world asking =
      rw (asking.has_run, asking.has_question)
        (record {
          request_stored = find-put_same world.human_inputs world.fresh _;
          status_required = refl;
          call_stored = find-put_same world.tool_calls call.id _;
          run_stored = asking.run_stored;
          session_stored = asking.session_stored;
          call_waits = refl;
          call_asks = asking.asks;
          hash_same = rw (asking.some_hash, sym asking.own_hash, str_eq_refl call.input_hash) refl;
          tool_registered = rw asking.tool_registered refl;
        })

  -- A call that asks a person is put on hold: an answer that is in time and acceptable is noted, and
  -- the call can be loaded to be resumed, as it was held and with its own run and session. It is
  -- asked that the executor has made the call, and that its run, its session and its tool are there.
  pub ask_question-answer :
      (later : ℕ) (user_id : Option ℕ) (reply : String) (call : ToolCall) (run_id : ℕ)
      (run : AgentRun) (session : Session) (world : World)
      → IsAsking call run_id run session world
      → let context = asking_context call run_id run session world.fresh in
        is_expired later context.request.expires_at ≡ false
        → accepts context.request reply ≡ true
        → let held = ask_question env text now input call world in
          let answered = answer env later world.fresh reply user_id held.1 in
          let request = answered_request later user_id reply context.request in
          (held.0 ≡ ok context.tool_call)
          × (answered.0 ≡ ok (record context { request = request }))
          × (load_answered_resume_context env world.fresh answered.1
              ≡ (ok (record context { request = request }), answered.1))
  unfolding ask_question
  ask_question-answer later user_id reply call run_id run session world asking early accepted =
      let held = (ask_question env text now input call world).1 in
      let (result, loaded) =
        answer-load_answered env later world.fresh user_id reply held
          (asking_context call run_id run session world.fresh)
          (asking-IsLinked call run_id run session world asking) refl early accepted in
      (rw (asking.has_run, asking.has_question) refl, result, loaded)
