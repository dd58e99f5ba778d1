-- ===== src/Tests/Approval.antt =====
-- The approval of a revert (api/routes_file_changes.py), and a call on hold for permission
-- (runtime/tool_executor.py), at concrete inputs.
use agent_v.Prelude.{ℕ, true, false, ◌≡◌, refl, none, some, [], ◌∷◌}
use agent_v.Json.{get, json_eq}
use agent_v.World.{World}
use agent_v.World.Rows.{FileChange, RevertStatus, PermissionRequest, approved, ToolCall, CallStatus}
use agent_v.Table
use agent_v.Files
use agent_v.Exec.{Result, ok}
use agent_v.FileChanges.{is_secret_filename}
use agent_v.FileChanges.Approval.{verify_revert_approval, compute_approval_nonce}
use agent_v.FileChanges.Approval.Bound.{
  NoCollision, IsSameRevert, IsApproved, verify_revert_approval-same,
}
use agent_v.FileChanges.Revert.{
  revert_file_change, validate_revert_preconditions, hash_matches, restore_content, apply_revert,
}
use agent_v.FileChanges.Routes.{RouteSettings, RevertRequest, revert_file_change_route}
use agent_v.FileChanges.Routes.Gate.{revert_file_change_route-IsApproved}
use agent_v.Permissions.Context.{PermissionResumeContext, input_hash}
use agent_v.Permissions.Policy.{PermissionDecision, PermissionAction}
use agent_v.Permissions.Service.{resolved, approve, load_approved_resume_context}
use agent_v.ToolExecutor.Decision.{PreviewEnv, hold_for_permission}
use agent_v.ToolExecutor.Decision.Resumed.{IsReady, held_context, hold_for_permission-approve}
use agent_v.HumanInput.{HumanInputResumeContext, is_choice}
use agent_v.HumanInput.Changes.{answered_request, accepts, is_expired}
use agent_v.HumanInput.Service.{answer, load_answered_resume_context}
use agent_v.ToolExecutor.Decision.Question.{
  QuestionAskInput, missing, question_create, ask_question,
}
use agent_v.ToolExecutor.Decision.Question.Answered.{IsAsking, asking_context, ask_question-answer}
use agent_v.Tests.Data.{env, request, call, run, session, world}
use agent_v.Tests.Changes.{file_env, change, changed_world}

abbrev approval : PermissionRequest
approval = record request { id = 60; permission_key = "file_change.revert"; status = approved }

abbrev approved_world : World
approved_world = record changed_world { permissions = record { rows = (60, approval) ∷ [] } }

-- the change as it is after a revert that failed
abbrev failed_change : FileChange
failed_change = record change { revert_status = RevertStatus.revert_failed }

accepted : verify_revert_approval env change 60 false approved_world ≡ (ok tt, approved_world)
unfolding verify_revert_approval compute_approval_nonce Table.find get
accepted = refl

apart : NoCollision env change failed_change false false
apart = record { sha256_apart = λ e. e; dumps_apart = λ e. refl; uuid_apart = λ e. refl }

verify_revert_approval-same_example :
    (verify_revert_approval env failed_change 60 false approved_world ≡ (ok tt, approved_world)
      → IsSameRevert change failed_change false false)
    × (IsSameRevert change failed_change false false
        → verify_revert_approval env failed_change 60 false approved_world
          ≡ (ok tt, approved_world))
verify_revert_approval-same_example =
    verify_revert_approval-same env change failed_change 60 false false approved_world apart
      accepted

abbrev route_settings : RouteSettings
route_settings = record {
  secret_filename_globs = ".env" ∷ [];
  git_fallback_enabled = false;
  revert_requires_approval = true;
}

abbrev body : RevertRequest
body = record { force = false; permission_request_id = some 60 }

abbrev response : Result FileChange × World
response = revert_file_change_route env file_env 200 route_settings 50 body approved_world

abbrev reverted : FileChange
reverted = record change { revert_status = RevertStatus.reverted; reverted_at = some 200 }

responds : response ≡ (ok reverted, response.1)
unfolding revert_file_change_route verify_revert_approval compute_approval_nonce revert_file_change
    validate_revert_preconditions hash_matches restore_content apply_revert is_secret_filename
    Table.find Files.read get
responds = refl

revert_file_change_route-IsApproved_example :
    (row : FileChange) × (Table.find approved_world.file_changes 50 ≡ some row)
    × ((given : ℕ) × (body.permission_request_id ≡ some given)
        × IsApproved env given row false approved_world)
revert_file_change_route-IsApproved_example =
    revert_file_change_route-IsApproved env file_env 200 route_settings 50 body approved_world
      response.1 reverted refl responds

abbrev preview : PreviewEnv
preview = record {
  splitlines = λ text. text ∷ [];
  strip = λ text. text;
  from_index = λ n text. text;
  after_colon = λ text. text;
  before_tab = λ text. text;
}

abbrev decision : PermissionDecision
decision = record {
  action = PermissionAction.ask;
  reason = "shell";
  permission_key = "bash.run";
  resource = "ls";
}

abbrev new_call : ToolCall
new_call = record call { status = CallStatus.pending; permission_request_id = none }

ready : IsReady env preview none "high" new_call run session world
unfolding input_hash json_eq Table.find
ready = record {
  run_id = 20;
  has_run = refl;
  run_stored = refl;
  session_stored = refl;
  own_hash = refl;
  some_hash = refl;
  equals_itself = refl;
  tool_registered = refl;
}

abbrev context : PermissionResumeContext
context = held_context env preview none "high" decision new_call run session 100

abbrev held : Result ToolCall × World
held = hold_for_permission env preview none "high" decision new_call world

abbrev answered : Result PermissionResumeContext × World
answered = approve env 200 100 (some 5) none held.1

hold_for_permission-approve_example :
    (held.0 ≡ ok context.tool_call)
    × (answered.0
        ≡ ok (record context { request = resolved approved 200 (some 5) none context.request }))
    × (load_approved_resume_context env 100 answered.1 ≡ (
      ok (record context { request = resolved approved 200 (some 5) none context.request }),
      answered.1,
    ))
hold_for_permission-approve_example =
    hold_for_permission-approve env preview none "high" 200 (some 5) none decision new_call run
      session world ready

abbrev question : QuestionAskInput
question = record {
  question = "Which?";
  details = missing;
  timeout_seconds = some 60;
  choices = "a" ∷ "b" ∷ [];
  allow_free_text = false;
}

abbrev question_call : ToolCall
question_call = record new_call { tool_name = "question.ask" }

asking : IsAsking env preview 200 question question_call 20 run session world
unfolding input_hash Table.find
asking = record {
  has_run = refl;
  has_question = refl;
  run_stored = refl;
  session_stored = refl;
  asks = refl;
  own_hash = refl;
  some_hash = refl;
  tool_registered = refl;
}

abbrev asked : HumanInputResumeContext
asked = asking_context env preview 200 question question_call 20 run session 100

accepted_reply : accepts asked.request "b" ≡ true
unfolding accepts question_create get is_choice
accepted_reply = refl

in_time : is_expired 230 asked.request.expires_at ≡ false
unfolding question_create
in_time = refl

abbrev waiting : Result ToolCall × World
waiting = ask_question env preview 200 question question_call world

abbrev replied : Result HumanInputResumeContext × World
replied = answer env 230 100 "b" (some 5) waiting.1

abbrev answered_context : HumanInputResumeContext
answered_context = record asked { request = answered_request 230 (some 5) "b" asked.request }

ask_question-answer_example :
    (waiting.0 ≡ ok asked.tool_call)
    × (replied.0 ≡ ok answered_context)
    × (load_answered_resume_context env 100 replied.1 ≡ (ok answered_context, replied.1))
ask_question-answer_example =
    ask_question-answer env preview 200 question 230 (some 5) "b" question_call 20 run session world
      asking in_time accepted_reply
