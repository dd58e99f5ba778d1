-- ===== src/Permissions/Service/Answers.antt =====
-- A permission request is answered once; what each answer does (permissions/service.py).
use agent_v.Prelude.{ℕ, String, true, ◌≡◌, refl, ◌⊎◌, inl, inr, Option, some, arith}
use agent_v.Env.{Env}
use agent_v.World.{World}
use agent_v.World.Rows.{PermissionRequest, pending, approved, denied}
use agent_v.Table
use agent_v.Table.{find-put, find_optional}
use agent_v.Exec.{ok, raised, permission_state_error}
use agent_v.Permissions.Context.{PermissionResumeContext, load_resume_context}
use agent_v.Permissions.Context.Checks.{IsLinked}
use agent_v.Permissions.Context.Complete.{load_resume_context_complete}
use agent_v.Permissions.Service.{resolved, approve, deny, load_approved_resume_context}

module _ (env : Env) (now request_id : ℕ) (user_id : Option ℕ) (message : Option String) where
  approve_result :
      (world : World) (context : PermissionResumeContext)
      → IsLinked env request_id pending true world context
      → let request = resolved approved now user_id message context.request in
        let after = (approve env now request_id user_id message world).1 in
        ((approve env now request_id user_id message world).0
          ≡ ok (record context { request = request }))
        × (after.permissions ≡ Table.put world.permissions request.id request)
        × (after.tool_calls ≡ world.tool_calls)
        × (after.runs ≡ world.runs)
        × (after.sessions ≡ world.sessions)
  unfolding approve
  approve_result world context linked =
      let loaded = load_resume_context_complete env request_id pending true world context linked in
      rw loaded (refl, refl, refl, refl, refl)

  -- Approving a pending request whose links are in order returns it approved, with the answer noted,
  -- leaves its call, run and session as they are, and the request can then be loaded to resume the
  -- call.
  pub approve-load_approved :
      (world : World) (context : PermissionResumeContext)
      → IsLinked env request_id pending true world context
      → context.request.id ≡ request_id
      → let request : PermissionRequest = record context.request {
        status = approved;
        resolved_by_user_id = user_id;
        resolved_at = some now;
        resolution_message = message;
      } in
        let after = (approve env now request_id user_id message world).1 in
        ((approve env now request_id user_id message world).0
          ≡ ok (record context { request = request }))
        × (load_approved_resume_context env request_id after
            ≡ (ok (record context { request = request }), after))
        × (after.tool_calls ≡ world.tool_calls)
        × (after.runs ≡ world.runs)
        × (after.sessions ≡ world.sessions)
  unfolding load_approved_resume_context
  approve-load_approved world context linked same =
      let (result, requests, calls, runs, sessions) = approve_result world context linked in
      let request = resolved approved now user_id message context.request in
      let after = (approve env now request_id user_id message world).1 in
      let relinked : IsLinked env request_id approved true after
          (record context { request = request }) =
        record {
          request_stored = rw requests (rw find-put (ground arith));
          status_required = refl;
          call_stored = rw calls linked.call_stored;
          run_stored = rw runs linked.run_stored;
          session_stored = rw sessions linked.session_stored;
          call_waits = linked.call_waits;
          hash_same = linked.hash_same;
          input_same = linked.input_same;
          tool_registered = linked.tool_registered;
        } in
      (
        result,
        load_resume_context_complete env request_id approved true after _ relinked,
        calls,
        runs,
        sessions,
      )

  -- Once a request is approved or denied, every further answer raises PermissionStateError and
  -- changes nothing.
  pub answered_once :
      (world : World) (request : PermissionRequest)
      → Table.find world.permissions request_id ≡ some request
      → (request.status ≡ approved) ⊎ (request.status ≡ denied)
      → (approve env now request_id user_id message world ≡ (raised permission_state_error, world))
        × (deny env now request_id user_id message world ≡ (raised permission_state_error, world))
  unfolding approve deny load_resume_context
  answered_once world request stored (inl answered) = rw (stored, answered) (refl, refl)
  answered_once world request stored (inr answered) = rw (stored, answered) (refl, refl)
