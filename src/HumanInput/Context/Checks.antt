-- ===== src/HumanInput/Context/Checks.antt =====
-- Which questions are loaded, and what a loaded one has passed (runtime/human_input_service.py).
use agent_v.Prelude.{
  ℕ, String, Bool, true, false, ◌≡◌, refl, Option, none, some, arith, ap, Option-cases, inl, inr,
  str_eq,
}
use mathlib.Core.Path.{subst}
use agent_v.Env.{Env}
use agent_v.World.{World}
use agent_v.World.Rows.{HumanInputRequest, HumanInputStatus}
use agent_v.Table
use agent_v.Exec.{Result, Exec, ok, return, require, human_input_state_error, ◌>>◌}
use agent_v.HumanInput.{HumanInputResumeContext}
use agent_v.HumanInput.Context.{
  status_eq, is_waiting_human_input, hashes_agree, tool_allows, find_linked, require_or_block,
  check_context, check_linked, check_request, load_resume_context,
}

-- the rows of a context are the stored ones that the request links, and every check holds of them
pub record IsLinked (env : Env) (request_id : ℕ) (required_status : HumanInputStatus)
    (require_registered_tool : Bool) (world : World) (context : HumanInputResumeContext)
    : Type 0 where
  pub request_stored : Table.find world.human_inputs request_id ≡ some context.request
  pub status_required : status_eq context.request.status required_status ≡ true
  pub call_stored :
      Table.find world.tool_calls context.request.tool_call_id ≡ some context.tool_call
  pub run_stored : Table.find world.runs context.request.run_id ≡ some context.run
  pub session_stored : Table.find world.sessions context.request.session_id ≡ some context.session
  pub call_waits : is_waiting_human_input context.tool_call.status ≡ true
  pub call_asks : str_eq context.tool_call.tool_name "question.ask" ≡ true
  pub hash_same : hashes_agree env context.tool_call context.request ≡ true
  pub tool_registered : tool_allows env require_registered_tool context.tool_call ≡ true

module _ (env : Env) where
  -- If the links and checks of a stored question are all in order, loading it returns the rows that
  -- it links and changes nothing.
  pub load_resume_context_total :
      (request_id : ℕ) (status : HumanInputStatus) (required : Bool) (world : World)
      (context : HumanInputResumeContext)
      → IsLinked env request_id status required world context
      → load_resume_context env request_id status required world ≡ (ok context, world)
  unfolding load_resume_context check_request check_linked check_context require_or_block
  load_resume_context_total request_id status required world context linked =
      rw linked.request_stored (
        rw linked.status_required (
          rw (linked.call_stored, linked.run_stored, linked.session_stored)
            (rw (linked.call_waits, linked.call_asks, linked.hash_same, linked.tool_registered)
              refl)))

  returned-same :
      (context got : HumanInputResumeContext)
      → ◌≡◌ {A = Result HumanInputResumeContext} (ok context) (ok got)
      → context ≡ got
  returned-same context got h = cc

  guards :
      (a b c d : Bool) (request : HumanInputRequest) (r₁ r₂ r₃ r₄ : String)
      (context got : HumanInputResumeContext) (world : World)
      → ((require_or_block env a request r₁
            >> (require_or_block env b request r₂
                >> (require_or_block env c request r₃
                    >> (require_or_block env d request r₄ >> return context))))
          world).0
        ≡ ok got
      → (a ≡ true) × (b ≡ true) × (c ≡ true) × (d ≡ true) × (context ≡ got)
  unfolding require_or_block
  guards true true true true request r₁ r₂ r₃ r₄ context got world h =
      (refl, refl, refl, refl, returned-same context got h)
  guards false b c d request r₁ r₂ r₃ r₄ context got world h = cc
  guards true false c d request r₁ r₂ r₃ r₄ context got world h = cc
  guards true true false d request r₁ r₂ r₃ r₄ context got world h = cc
  guards true true true false request r₁ r₂ r₃ r₄ context got world h = cc

  checks_hold :
      (required : Bool) (context got : HumanInputResumeContext) (world : World)
      → (check_context env required context world).0 ≡ ok got
      → (is_waiting_human_input context.tool_call.status ≡ true)
        × (str_eq context.tool_call.tool_name "question.ask" ≡ true)
        × (hashes_agree env context.tool_call context.request ≡ true)
        × (tool_allows env required context.tool_call ≡ true)
        × (context ≡ got)
  unfolding check_context
  checks_hold required context got world h =
      guards _ _ _ _ context.request _ _ _ _ context got world h

  linked_sound :
      (request : HumanInputRequest) (context : HumanInputResumeContext) (world : World)
      → find_linked request world ≡ some context
      → (context.request ≡ request)
        × (Table.find world.tool_calls request.tool_call_id ≡ some context.tool_call)
        × (Table.find world.runs request.run_id ≡ some context.run)
        × (Table.find world.sessions request.session_id ≡ some context.session)
  linked_sound request context world h = ground arith

  linked_checked :
      (required : Bool) (request : HumanInputRequest) (linked : Option HumanInputResumeContext)
      (got : HumanInputResumeContext) (world : World)
      → (check_linked env required request linked world).0 ≡ ok got
      → (linked ≡ some got) × ((check_context env required got world).0 ≡ ok got)
  unfolding check_linked
  linked_checked required request none got world h = cc
  linked_checked required request (some context) got world h =
      let same = (checks_hold required context got world h).4 in
      (ap some same, subst (λ c. (check_context env required c world).0 ≡ ok got) same h)

  status_checked :
      (right : Bool) (rest : Exec World HumanInputResumeContext) (got : HumanInputResumeContext)
      (world : World)
      → ((require right human_input_state_error >> rest) world).0 ≡ ok got
      → (right ≡ true) × ((rest world).0 ≡ ok got)
  status_checked true rest got world h = (refl, h)
  status_checked false rest got world h = cc

  found_sound :
      (request_id : ℕ) (status : HumanInputStatus) (required : Bool) (request : HumanInputRequest)
      (world : World) (context : HumanInputResumeContext)
      → Table.find world.human_inputs request_id ≡ some request
      → (check_request env status required (some request) world).0 ≡ ok context
      → IsLinked env request_id status required world context
  unfolding check_request
  found_sound request_id status required request world context stored h =
      let (right, reached) =
        status_checked (status_eq request.status status)
          (λ w. check_linked env required request (find_linked request w) w) context world h in
      let (linked, checked) =
        linked_checked required request (find_linked request world) context world reached in
      let (same, call, run, session) = linked_sound request context world linked in
      let checks = checks_hold required context context world checked in
      record {
        request_stored = rw same stored;
        status_required = rw same right;
        call_stored = rw same call;
        run_stored = rw same run;
        session_stored = rw same session;
        call_waits = checks.0;
        call_asks = checks.1;
        hash_same = checks.2;
        tool_registered = checks.3;
      }

  -- A question's context is returned only if it is made of the stored rows that the question links,
  -- the question has the required status, the call is a waiting `question.ask`, the hashes of the
  -- question, the call and its input agree, and the tool is registered if that is asked.
  pub load_resume_context_linked :
      (request_id : ℕ) (status : HumanInputStatus) (required : Bool) (world : World)
      (context : HumanInputResumeContext)
      → (load_resume_context env request_id status required world).0 ≡ ok context
      → IsLinked env request_id status required world context
  unfolding load_resume_context check_request
  load_resume_context_linked request_id status required world context h =
      elim (Option-cases (Table.find world.human_inputs request_id)) [
        | inl missing ↦ absurd (not_found (rw missing at h))
        | inr (request, stored) ↦
            found_sound request_id status required request world context stored (rw stored at h)
      ]
    where
      not_found : (check_request env status required none world).0 ≡ ok context → ⊥
      not_found e = cc
