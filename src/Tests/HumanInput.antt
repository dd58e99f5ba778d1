-- ===== src/Tests/HumanInput.antt =====
-- runtime/human_input_service.py at concrete inputs.
use agent_v.Prelude.{str_eq_iff, arith, true, false, ◌≡◌, refl, none, some, [], ◌∷◌}
use agent_v.Json.{str, bool, arr, nil, cons, end, field, get}
use agent_v.World.{World}
use agent_v.World.Rows.{HumanInputRequest, HumanInputStatus, ToolCall, CallStatus}
use agent_v.Table
use agent_v.Exec.{ok, raised, human_input_state_error, human_input_validation_error}
use agent_v.Permissions.Context.{input_hash}
use agent_v.HumanInput.{HumanInputResumeContext, is_choice}
use agent_v.HumanInput.Context.{load_resume_context}
use agent_v.HumanInput.Context.Checks.{
  IsLinked, load_resume_context_total, load_resume_context_linked,
}
use agent_v.HumanInput.Changes.{answered_request, accepts}
use agent_v.HumanInput.Service.{
  answer, cancel, expire_request, cancel_reason, load_answered_resume_context,
}
use agent_v.HumanInput.Service.Answers.{answer-load_answered, closed_once}
use agent_v.HumanInput.Service.Endings.{
  IsStored, IsCancelled, IsExpired, cancel-IsCancelled, answer-IsExpired,
}
use agent_v.HumanInput.Service.Choices.{Among, here, there, answer-unlisted}
use agent_v.Tests.Data.{env, tenant, run, session, call, world}

abbrev asking : ToolCall
asking = record call { tool_name = "question.ask"; status = CallStatus.waiting_human_input }

abbrev question : HumanInputRequest
question = record {
  id = 50;
  tenant = tenant;
  session_id = 10;
  run_id = 20;
  tool_call_id = 30;
  question = "which port?";
  details_json = end;
  status = HumanInputStatus.pending;
  expires_at = some 900;
  request_hash = "dump";
  metadata_json =
      field "choices" (arr (cons (str "80") (cons (str "443") nil)))
        (field "allow_free_text" (bool false) end);
  answer = none;
  answered_by_user_id = none;
  answered_at = none;
  cancelled_at = none;
}

abbrev asking_world : World
asking_world = record world {
  tool_calls = record { rows = (30, asking) ∷ [] };
  human_inputs = record { rows = (50, question) ∷ [] };
}

abbrev context : HumanInputResumeContext
context = record { request = question; tool_call = asking; run = run; session = session }

linked : IsLinked env 50 HumanInputStatus.pending true asking_world context
unfolding input_hash Table.find
linked = record {
  request_stored = refl;
  status_required = refl;
  call_stored = refl;
  run_stored = refl;
  session_stored = refl;
  call_waits = refl;
  call_asks = refl;
  hash_same = refl;
  tool_registered = refl;
}

linked_unregistered : IsLinked env 50 HumanInputStatus.pending false asking_world context
unfolding input_hash Table.find
linked_unregistered = record {
  request_stored = refl;
  status_required = refl;
  call_stored = refl;
  run_stored = refl;
  session_stored = refl;
  call_waits = refl;
  call_asks = refl;
  hash_same = refl;
  tool_registered = refl;
}

loads : (load_resume_context env 50 HumanInputStatus.pending true asking_world).0 ≡ ok context
loads =
    rw (load_resume_context_total env 50 HumanInputStatus.pending true asking_world context linked)
      refl

load_resume_context_linked_example :
    IsLinked env 50 HumanInputStatus.pending true asking_world context
load_resume_context_linked_example =
    load_resume_context_linked env 50 HumanInputStatus.pending true asking_world context loads

cancel-IsCancelled_example :
    (left : HumanInputResumeContext) × ((cancel env 200 50 (some 5) none asking_world).0 ≡ ok left)
    × IsCancelled env 200 50 (cancel_reason env none) context left
    × IsStored left (cancel env 200 50 (some 5) none asking_world).1
cancel-IsCancelled_example =
    cancel-IsCancelled env 200 50 (some 5) none asking_world context linked_unregistered

answer-IsExpired_example :
    (left : HumanInputResumeContext) × ((answer env 900 50 "80" (some 5) asking_world).0
      ≡ raised human_input_state_error)
    × IsExpired env 900 50 context left
    × IsStored left (answer env 900 50 "80" (some 5) asking_world).1
answer-IsExpired_example =
    answer-IsExpired env 900 50 (some 5) "80" asking_world context linked refl refl

listed : accepts question "80" ≡ true
unfolding accepts is_choice get
listed = refl

absent : ¬ Among "8080" (cons (str "80") (cons (str "443") nil))
absent (here s rest same) = ground (arith, str_eq_iff "80" "8080")
absent (there choice rest (here s none_left same)) = ground (arith, str_eq_iff "443" "8080")
absent (there choice rest (there other none_left more)) = elim more [ ]

answer-unlisted_example :
    answer env 200 50 "8080" (some 5) asking_world
    ≡ (raised human_input_validation_error, asking_world)
unfolding get
answer-unlisted_example =
    answer-unlisted env 200 50 (some 5) "8080" false (str "80") (cons (str "443") nil) asking_world
      context linked refl refl refl absent

abbrev answered_world : World
answered_world = (answer env 200 50 "80" (some 5) asking_world).1

abbrev answered : HumanInputResumeContext
answered = record context { request = answered_request 200 (some 5) "80" question }

answer-load_answered_example :
    ((answer env 200 50 "80" (some 5) asking_world).0 ≡ ok answered)
    × (load_answered_resume_context env 50 answered_world ≡ (ok answered, answered_world))
answer-load_answered_example =
    answer-load_answered env 200 50 (some 5) "80" asking_world context linked refl refl listed

abbrev closed_world : World
closed_world = record asking_world {
  human_inputs = record { rows = (50, answered_request 200 (some 5) "80" question) ∷ [] };
}

closed_once_example :
    (answer env 300 50 "443" none closed_world ≡ (raised human_input_state_error, closed_world))
    × (cancel env 300 50 none none closed_world ≡ (raised human_input_state_error, closed_world))
    × (expire_request env 300 50 closed_world ≡ (raised human_input_state_error, closed_world))
unfolding Table.find
closed_once_example =
    closed_once env 300 50 none "443" none closed_world
      (answered_request 200 (some 5) "80" question) refl refl
