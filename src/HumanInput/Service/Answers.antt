-- ===== src/HumanInput/Service/Answers.antt =====
-- What answering leaves behind, and that a question is closed once
-- (runtime/human_input_service.py).
use agent_v.Prelude.{ℕ, String, true, false, ◌≡◌, refl, Option, some, arith}
use agent_v.Env.{Env}
use agent_v.World.{World}
use agent_v.World.Rows.{HumanInputRequest, pending, answered}
use agent_v.Table
use agent_v.Table.{find-put, find-put_same}
use agent_v.Exec.{ok, raised, human_input_state_error}
use agent_v.HumanInput.{HumanInputResumeContext}
use agent_v.HumanInput.Context.{status_eq, load_resume_context}
use agent_v.HumanInput.Context.Checks.{IsLinked, load_resume_context_total}
use agent_v.HumanInput.Changes.{is_expired, accepts, answered_request}
use agent_v.HumanInput.Service.{
  answer, cancel, expire_request, expire_if_needed, load_answered_resume_context,
}

module _ (env : Env) (now request_id : ℕ) (user_id : Option ℕ) where
  answer_result :
      (text : String) (world : World) (context : HumanInputResumeContext)
      → IsLinked env request_id pending true world context
      → is_expired now context.request.expires_at ≡ false
      → accepts context.request text ≡ true
      → let request = answered_request now user_id text context.request in
        let after = (answer env now request_id text user_id world).1 in
        ((answer env now request_id text user_id world).0
          ≡ ok (record context { request = request }))
        × (after.human_inputs ≡ Table.put world.human_inputs request.id request)
        × (after.tool_calls ≡ world.tool_calls)
        × (after.runs ≡ world.runs)
        × (after.sessions ≡ world.sessions)
  unfolding answer expire_if_needed
  answer_result text world context linked early listed =
      rw (load_resume_context_total env request_id pending true world context linked)
        (rw (early, listed) (refl, refl, refl, refl, refl))

  -- An acceptable answer to a pending question that is in time and whose links are in order is
  -- noted in the question, which is returned as answered and can then be loaded to resume the call.
  pub answer-load_answered :
      (text : String) (world : World) (context : HumanInputResumeContext)
      → IsLinked env request_id pending true world context
      → context.request.id ≡ request_id
      → is_expired now context.request.expires_at ≡ false
      → accepts context.request text ≡ true
      → let request : HumanInputRequest = record context.request {
        status = answered;
        answer = some text;
        answered_by_user_id = user_id;
        answered_at = some now;
      } in
        let after = (answer env now request_id text user_id world).1 in
        ((answer env now request_id text user_id world).0
          ≡ ok (record context { request = request }))
        × (load_answered_resume_context env request_id after
            ≡ (ok (record context { request = request }), after))
  unfolding load_answered_resume_context
  answer-load_answered text world context linked same early listed =
      let (result, requests, calls, runs, sessions) =
        answer_result text world context linked early listed in
      let request = answered_request now user_id text context.request in
      let after = (answer env now request_id text user_id world).1 in
      let relinked : IsLinked env request_id answered true after
          (record context { request = request }) =
        record {
          request_stored = rw requests (rw find-put (ground arith));
          status_required = refl;
          call_stored = rw calls linked.call_stored;
          run_stored = rw runs linked.run_stored;
          session_stored = rw sessions linked.session_stored;
          call_waits = linked.call_waits;
          call_asks = linked.call_asks;
          hash_same = linked.hash_same;
          tool_registered = linked.tool_registered;
        } in
      (result, load_resume_context_total env request_id answered true after _ relinked)

  -- Once a question is answered, cancelled or expired, an answer, a cancellation and an expiry raise
  -- HumanInputStateError and change nothing.
  pub closed_once :
      (text : String) (message : Option String) (world : World) (request : HumanInputRequest)
      → Table.find world.human_inputs request_id ≡ some request
      → status_eq request.status pending ≡ false
      → (answer env now request_id text user_id world ≡ (raised human_input_state_error, world))
        × (cancel env now request_id user_id message world
            ≡ (raised human_input_state_error, world))
        × (expire_request env now request_id world ≡ (raised human_input_state_error, world))
  unfolding answer cancel expire_request load_resume_context
  closed_once text message world request stored closed = rw (stored, closed) (refl, refl, refl)
