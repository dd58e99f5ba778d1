-- ===== src/FileChanges/Approval/Unanswered.antt =====
-- A request to revert and `PermissionService.approve` (permissions/service.py), whose checks ask for a
-- tool call that waits for the request (api/routes_file_changes.py).
use agent_v.Prelude.{ℕ, String, Bool, true, false, ◌≡◌, refl, Option, some, holds}
use agent_v.Env.{Env}
use agent_v.World.{World}
use agent_v.World.Rows.{FileChange, PermissionRequest, pending, ToolCall}
use agent_v.Table
use agent_v.Table.{find-put_same, find_optional}
use agent_v.Exec.{raised, file_change_error, FileChangeCode, permission_resume_security_error}
use agent_v.Permissions.Context.{load_resume_context}
use agent_v.Permissions.Context.Refused.{IsRefused, load_resume_context-IsRefused}
use agent_v.Permissions.Service.{new_request, approve}
use agent_v.FileChanges.Approval.{
  revert_request, create_revert_permission_request, verify_revert_approval,
}

module _ (env : Env) (row : FileChange) (force : Bool) where
  abbrev made : ℕ → PermissionRequest
  made id = new_request (revert_request env row force) id

  abbrev asked : World → World
  asked world = (create_revert_permission_request env row force world).1

  asked_stores :
      (world : World) → Table.find (asked world).permissions world.fresh ≡ some (made world.fresh)
  unfolding create_revert_permission_request
  asked_stores world = find-put_same world.permissions world.fresh (made world.fresh)

  asked_calls : (world : World) → (asked world).tool_calls ≡ world.tool_calls
  unfolding create_revert_permission_request
  asked_calls world = refl

  -- the stored request is pending: its approval is refused
  approve-pending :
      (now id : ℕ) (user_id : Option ℕ) (message : Option String) (world : World)
      → IsRefused world (load_resume_context env id pending true world)
      → Table.find world.permissions id ≡ some (made id)
      → let answered = approve env now id user_id message world in
        (answered.0 ≡ raised permission_resume_security_error)
        × (verify_revert_approval env row id force answered.1
            ≡ (raised (file_change_error FileChangeCode.conflict), answered.1))
  unfolding approve verify_revert_approval revert_request
  approve-pending now id user_id message world refusal stored =
      rw refusal.refused (refl, rw refusal.kept (rw stored refl))

  -- No tool call waits for a request that is made to revert a change, if none carries its id yet: to
  -- approve the request raises PermissionResumeSecurityError, and the request does not pass as an
  -- approval of the revert afterwards.
  pub create_revert_permission_request-approve :
      (now : ℕ) (user_id : Option ℕ) (message : Option String) (world : World)
      → ((call : ToolCall)
          → find_optional world.tool_calls row.tool_call_id ≡ some call
          → holds call.permission_request_id world.fresh ≡ false)
      → let answered = approve env now world.fresh user_id message (asked world) in
        (answered.0 ≡ raised permission_resume_security_error)
        × (verify_revert_approval env row world.fresh force answered.1
            ≡ (raised (file_change_error FileChangeCode.conflict), answered.1))
  unfolding revert_request
  create_revert_permission_request-approve now user_id message world fresh =
      approve-pending now world.fresh user_id message (asked world)
        (load_resume_context-IsRefused env true world.fresh pending (made world.fresh) (asked world)
          (asked_stores world) refl
          (rw (asked_calls world) (λ call found. rw (fresh call found) refl)))
        (asked_stores world)
