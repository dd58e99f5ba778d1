-- ===== src/Tests/Permissions.antt =====
-- backend/app/permissions at concrete inputs.
use agent_v.Prelude.{true, false, ◌≡◌, refl, none, some, inl, [], ◌∷◌}
use agent_v.Json.{json_eq, get}
use agent_v.World.{World}
use agent_v.World.Rows.{PermissionRequest, pending, approved}
use agent_v.Table
use agent_v.Exec.{ok, raised, permission_state_error}
use agent_v.Permissions.Context.{PermissionResumeContext, input_hash, load_resume_context}
use agent_v.Permissions.Context.Checks.{IsLinked, load_resume_context_sound}
use agent_v.Permissions.Context.Complete.{load_resume_context_complete}
use agent_v.Permissions.Service.{approve, deny, resolved, load_approved_resume_context, deny_reason}
use agent_v.Permissions.Service.Answers.{approve-load_approved, answered_once}
use agent_v.Permissions.Service.Denial.{IsStored, IsDenied, deny-IsDenied}
use agent_v.Tests.Data.{env, run, session, call, request, waiting_world}

abbrev context : PermissionResumeContext
context = record { request = request; tool_call = call; run = run; session = session }

linked : IsLinked env 40 pending true waiting_world context
unfolding input_hash Table.find json_eq get
linked = record {
  request_stored = refl;
  status_required = refl;
  call_stored = refl;
  run_stored = refl;
  session_stored = refl;
  call_waits = refl;
  hash_same = refl;
  input_same = refl;
  tool_registered = refl;
}

linked_unregistered : IsLinked env 40 pending false waiting_world context
unfolding input_hash Table.find json_eq get
linked_unregistered = record {
  request_stored = refl;
  status_required = refl;
  call_stored = refl;
  run_stored = refl;
  session_stored = refl;
  call_waits = refl;
  hash_same = refl;
  input_same = refl;
  tool_registered = refl;
}

loads : (load_resume_context env 40 pending true waiting_world).0 ≡ ok context
loads = rw (load_resume_context_complete env 40 pending true waiting_world context linked) refl

load_resume_context_sound_example :
    IsLinked env 40 pending true waiting_world context
    × ((load_resume_context env 40 pending true waiting_world).1 ≡ waiting_world)
load_resume_context_sound_example =
    load_resume_context_sound env 40 pending true waiting_world context loads

abbrev approval : PermissionRequest
approval = resolved approved 200 (some 5) (some "go") request

abbrev approved_world : World
approved_world = (approve env 200 40 (some 5) (some "go") waiting_world).1

approve-load_approved_example :
    ((approve env 200 40 (some 5) (some "go") waiting_world).0
      ≡ ok (record context { request = approval }))
    × (load_approved_resume_context env 40 approved_world
        ≡ (ok (record context { request = approval }), approved_world))
    × (approved_world.tool_calls ≡ waiting_world.tool_calls)
    × (approved_world.runs ≡ waiting_world.runs)
    × (approved_world.sessions ≡ waiting_world.sessions)
approve-load_approved_example =
    approve-load_approved env 200 40 (some 5) (some "go") waiting_world context linked refl

abbrev denied_world : World
denied_world = (deny env 200 40 none (some "no") waiting_world).1

deny-IsDenied_example :
    (left : PermissionResumeContext) × ((deny env 200 40 none (some "no") waiting_world).0
      ≡ ok left)
    × IsDenied 200 none (some "no") (deny_reason env (some "no") request) context left
    × IsStored left denied_world
    × (load_approved_resume_context env 40 denied_world
        ≡ (raised permission_state_error, denied_world))
deny-IsDenied_example =
    deny-IsDenied env 200 40 none (some "no") waiting_world context linked_unregistered refl

abbrev answered_world : World
answered_world = record waiting_world { permissions = record { rows = (40, approval) ∷ [] } }

answered_once_example :
    (approve env 300 40 none none answered_world ≡ (raised permission_state_error, answered_world))
    × (deny env 300 40 none none answered_world ≡ (raised permission_state_error, answered_world))
unfolding Table.find
answered_once_example = answered_once env 300 40 none none answered_world approval refl (inl refl)
