-- ===== src/HumanInput/Service/Endings.antt =====
-- What cancelling a question and letting it expire leave behind (runtime/human_input_service.py).
use agent_v.Prelude.{ℕ, String, true, false, ◌≡◌, refl, sym, Option, some}
use mathlib.Core.Path.{subst}
use agent_v.Env.{Env}
use agent_v.World.{World}
use agent_v.World.Rows.{
  HumanInputRequest, pending, cancelled, expired, CallStatus, RunStatus, SessionStatus,
}
use agent_v.Table
use agent_v.Table.{find-put, find-put_same}
use agent_v.Exec.{ok, raised, human_input_state_error}
use agent_v.HumanInput.{HumanInputResumeContext}
use agent_v.HumanInput.Context.Checks.{IsLinked, load_resume_context_total}
use agent_v.HumanInput.Changes.{is_expired}
use agent_v.HumanInput.Service.{
  answer, cancel, expire_request, expire_if_needed, say, publish_terminal_question_event,
  cancel_reason, cancelled_context, expired_context, expiry_reason,
}

-- the four rows of a context, stored
pub record IsStored (context : HumanInputResumeContext) (world : World) : Type 0 where
  pub request_stored : Table.find world.human_inputs context.request.id ≡ some context.request
  pub call_stored : Table.find world.tool_calls context.tool_call.id ≡ some context.tool_call
  pub run_stored : Table.find world.runs context.run.id ≡ some context.run
  pub session_stored : Table.find world.sessions context.session.id ≡ some context.session

-- The rows `left` are those of `context` with the given statuses, the reason as the error of the call
-- and the run, the time of their end, and some output of the call. The request is given whole.
pub record IsEnded (now : ℕ) (reason : String) (call_status : CallStatus) (run_status : RunStatus)
    (session_status : SessionStatus) (request : HumanInputRequest)
    (context left : HumanInputResumeContext) : Type 0 where
  pub request_ended : left.request ≡ request
  pub call_ended : left.tool_call ≡ record context.tool_call {
    status = call_status;
    error = some reason;
    completed_at = some now;
    duration_ms = some 0;
    output_json = left.tool_call.output_json;
  }
  pub run_ended :
      left.run
      ≡ record context.run { status = run_status; error = some reason; completed_at = some now }
  pub session_ended : left.session ≡ record context.session { status = session_status }

-- a context that may be answered may be ended without its tool
unregistered :
    (env : Env) (request_id : ℕ) (world : World) (context : HumanInputResumeContext)
    → IsLinked env request_id pending true world context
    → context.request.id ≡ request_id
    → IsLinked env context.request.id pending false world context
unregistered env request_id world context linked same = record {
  request_stored =
      subst (λ i. Table.find world.human_inputs i ≡ some context.request) (sym same)
        linked.request_stored;
  status_required = linked.status_required;
  call_stored = linked.call_stored;
  run_stored = linked.run_stored;
  session_stored = linked.session_stored;
  call_waits = linked.call_waits;
  call_asks = linked.call_asks;
  hash_same = linked.hash_same;
  tool_registered = refl;
}

module _ (env : Env) (now request_id : ℕ) where
  -- the context is stored as a cancellation ends it
  abbrev pub IsCancelled : String → HumanInputResumeContext → HumanInputResumeContext → Type 0
  IsCancelled reason context =
      IsEnded now reason CallStatus.cancelled RunStatus.cancelled SessionStatus.cancelled
        (record context.request { status = cancelled; cancelled_at = some now }) context

  -- the context is stored as an expiry ends it
  abbrev pub IsExpired : HumanInputResumeContext → HumanInputResumeContext → Type 0
  IsExpired context =
      IsEnded now "Human input request expired." CallStatus.failed RunStatus.failed
        SessionStatus.failed (record context.request { status = expired }) context

  expire_result :
      (world : World) (context : HumanInputResumeContext)
      → IsLinked env request_id pending false world context
      → (left : HumanInputResumeContext) × ((expire_request env now request_id world).0 ≡ ok left)
        × IsExpired context left
        × IsStored left (expire_request env now request_id world).1
  unfolding expire_request say publish_terminal_question_event
  expire_result world context linked =
      rw (load_resume_context_total env request_id pending false world context linked) (
        expired_context env now expiry_reason context,
        refl,
        record { request_ended = refl; call_ended = refl; run_ended = refl; session_ended = refl },
        record {
          request_stored = find-put_same _ _ _;
          call_stored = find-put_same _ _ _;
          run_stored = find-put_same _ _ _;
          session_stored = find-put_same _ _ _;
        },
      )

  -- Cancelling a pending question whose links are in order returns its rows and stores them: the
  -- question cancelled at that time, and its call, its run and its session cancelled, the call and
  -- the run with the redacted reason as their error.
  pub cancel-IsCancelled :
      (user_id : Option ℕ) (message : Option String) (world : World)
      (context : HumanInputResumeContext)
      → IsLinked env request_id pending false world context
      → (left : HumanInputResumeContext) × ((cancel env now request_id user_id message world).0
          ≡ ok left)
        × IsCancelled (cancel_reason env message) context left
        × IsStored left (cancel env now request_id user_id message world).1
  unfolding cancel say publish_terminal_question_event
  cancel-IsCancelled user_id message world context linked =
      rw (load_resume_context_total env request_id pending false world context linked) (
        cancelled_context env now (cancel_reason env message) context,
        refl,
        record { request_ended = refl; call_ended = refl; run_ended = refl; session_ended = refl },
        record {
          request_stored = find-put_same _ _ _;
          call_stored = find-put_same _ _ _;
          run_stored = find-put_same _ _ _;
          session_stored = find-put_same _ _ _;
        },
      )

module _ (env : Env) (now request_id : ℕ) where
  -- An answer that comes when a pending question is past its expiry raises HumanInputStateError. In
  -- the database session, the question is then expired, and its call, its run and its session are
  -- failed, with the expiry as the error of the call and the run.
  pub answer-IsExpired :
      (user_id : Option ℕ) (text : String) (world : World) (context : HumanInputResumeContext)
      → IsLinked env request_id pending true world context
      → context.request.id ≡ request_id
      → is_expired now context.request.expires_at ≡ true
      → (left : HumanInputResumeContext) × ((answer env now request_id text user_id world).0
          ≡ raised human_input_state_error)
        × IsExpired env now request_id context left
        × IsStored left (answer env now request_id text user_id world).1
  unfolding answer expire_if_needed
  answer-IsExpired user_id text world context linked same late =
      let (left, result, ended, stored) =
        expire_result env now context.request.id world context
          (unregistered env request_id world context linked same) in
      rw (load_resume_context_total env request_id pending true world context linked)
        (rw late (rw result (left, refl, ended, stored)))
