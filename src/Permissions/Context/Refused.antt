-- ===== src/Permissions/Context/Refused.antt =====
-- A request that no tool call waits for (permissions/service.py).
use agent_v.Prelude.{ℕ, Bool, true, false, not, ◌&&◌, is_none, ◌≡◌, refl, Option, none, some}
use agent_v.Env.{Env}
use agent_v.World.{World}
use agent_v.World.Rows.{PermissionRequest, PermissionStatus, ToolCall, AgentRun, Session}
use agent_v.Table
use agent_v.Table.{find_optional}
use agent_v.Exec.{Result, raised, permission_resume_security_error, read, ◌>>=◌, ◌>>◌}
use agent_v.Permissions.Context.{
  PermissionResumeContext, permission_status_eq, waits_for, find_linked, linked_rows,
  require_or_block, publish_resume_blocked, check_context, check_linked, check_request,
  load_resume_context,
}

-- the check raises, and the requests are as they were
pub record IsRefused (world : World) (after : Result PermissionResumeContext × World) : Type 0 where
  pub refused : after.0 ≡ raised permission_resume_security_error
  pub kept : after.1.permissions ≡ world.permissions

module _ (env : Env) (required : Bool) where
  no_context :
      (request : PermissionRequest) (world : World)
      → IsRefused world (check_linked env required request none world)
  unfolding check_linked publish_resume_blocked
  no_context request world = record { refused = refl; kept = refl }

  not_waiting :
      (context : PermissionResumeContext) (world : World)
      → waits_for context.tool_call context.request ≡ false
      → IsRefused world (check_context env required context world)
  unfolding check_context require_or_block publish_resume_blocked
  not_waiting context world idle = rw idle (record { refused = refl; kept = refl })

  abbrev pub IsIdle : PermissionRequest → Option ToolCall → Type 0
  IsIdle request found = (call : ToolCall) → found ≡ some call → waits_for call request ≡ false

  idle_rows :
      (request : PermissionRequest) (world : World) (call : Option ToolCall) (run : Option AgentRun)
      (session : Option Session)
      → IsIdle request call
      → IsRefused world
          (check_linked env required request (linked_rows request call run session) world)
  unfolding check_linked
  idle_rows request world none run session idle = no_context request world
  idle_rows request world (some call) none session idle = no_context request world
  idle_rows request world (some call) (some run) none idle = no_context request world
  idle_rows request world (some call) (some run) (some session) idle =
      not_waiting (record { request = request; tool_call = call; run = run; session = session })
        world (idle call refl)

  idle_links :
      (request : PermissionRequest) (world : World) (call_id run_id : Option ℕ)
      → IsIdle request (find_optional world.tool_calls call_id)
      → IsRefused world (
          (require_or_block env
                (not (is_none call_id) && not (is_none run_id))
                request
                "permission request is not linked to a tool call and agent run"
                none
              >> (read (find_linked request call_id run_id) >>= λ linked.
                  check_linked env required request linked))
            world)
  unfolding require_or_block publish_resume_blocked
  idle_links request world none run_id idle = record { refused = refl; kept = refl }
  idle_links request world (some call_id) none idle = record { refused = refl; kept = refl }
  idle_links request world (some call_id) (some run_id) idle =
      idle_rows request world (Table.find world.tool_calls call_id) (Table.find world.runs run_id)
        (Table.find world.sessions request.session_id) idle

  -- a request with the asked status that its call does not wait for
  pub load_resume_context-IsRefused :
      (request_id : ℕ) (status : PermissionStatus) (request : PermissionRequest) (world : World)
      → Table.find world.permissions request_id ≡ some request
      → permission_status_eq request.status status ≡ true
      → IsIdle request (find_optional world.tool_calls request.tool_call_id)
      → IsRefused world (load_resume_context env request_id status required world)
  unfolding load_resume_context check_request
  load_resume_context-IsRefused request_id status request world stored same idle =
      rw (stored, same) (idle_links request world request.tool_call_id request.agent_run_id idle)
