-- ===== src/Permissions/Service/Denial.antt =====
-- What `deny` (permissions/service.py) leaves behind: nothing of the denied call goes on.
use agent_v.Prelude.{ℕ, String, false, ◌≡◌, refl, Option, some, sym}
use agent_v.Env.{Env}
use agent_v.World.{World}
use agent_v.World.Rows.{PermissionRequest, pending, denied, CallStatus, RunStatus, SessionStatus}
use agent_v.Table
use agent_v.Table.{find-put_same}
use agent_v.Exec.{ok, raised, permission_state_error}
use agent_v.Messages.{create_assistant}
use agent_v.Permissions.Context.{PermissionResumeContext, load_resume_context}
use agent_v.Permissions.Context.Checks.{IsLinked}
use agent_v.Permissions.Context.Complete.{load_resume_context_complete}
use agent_v.Permissions.Service.{
  deny, denied_context, deny_reason, publish_denied, load_approved_resume_context,
}

-- the four rows of a context, stored
pub record IsStored (context : PermissionResumeContext) (world : World) : Type 0 where
  pub request_stored : Table.find world.permissions context.request.id ≡ some context.request
  pub call_stored : Table.find world.tool_calls context.tool_call.id ≡ some context.tool_call
  pub run_stored : Table.find world.runs context.run.id ≡ some context.run
  pub session_stored : Table.find world.sessions context.session.id ≡ some context.session

-- The rows `left` are those of `context` as a denial ends them, column by column.
pub record IsDenied (now : ℕ) (user_id : Option ℕ) (message : Option String) (reason : String)
    (context left : PermissionResumeContext) : Type 0 where
  pub request_denied : left.request ≡ record context.request {
    status = denied;
    resolved_by_user_id = user_id;
    resolved_at = some now;
    resolution_message = message;
  }
  pub call_denied : left.tool_call ≡ record context.tool_call {
    status = CallStatus.denied;
    error = some reason;
    completed_at = some now;
    duration_ms = some 0;
  }
  pub run_failed : left.run ≡ record context.run {
    status = RunStatus.failed;
    error = some reason;
    completed_at = some now;
  }
  pub session_failed : left.session ≡ record context.session { status = SessionStatus.failed }

-- a request that was denied cannot be loaded to resume its call
load_denied :
    (env : Env) (request_id : ℕ) (world : World) (request : PermissionRequest)
    → request.id ≡ request_id
    → Table.find world.permissions request.id ≡ some request
    → request.status ≡ denied
    → load_approved_resume_context env request_id world ≡ (raised permission_state_error, world)
unfolding load_approved_resume_context load_resume_context
load_denied env request_id world request same stored is_denied =
    rw (sym same, stored, is_denied) refl

module _ (env : Env) (now request_id : ℕ) (user_id : Option ℕ) (message : Option String) where
  deny_result :
      (world : World) (context : PermissionResumeContext)
      → IsLinked env request_id pending false world context
      → let left =
          denied_context env now user_id message
            (deny_reason env message context.request)
            context in
        ((deny env now request_id user_id message world).0 ≡ ok left)
        × IsStored left (deny env now request_id user_id message world).1
  unfolding deny publish_denied create_assistant
  deny_result world context linked =
      let loaded = load_resume_context_complete env request_id pending false world context linked in
      rw loaded (
        refl,
        record {
          request_stored = find-put_same _ _ _;
          call_stored = find-put_same _ _ _;
          run_stored = find-put_same _ _ _;
          session_stored = find-put_same _ _ _;
        },
      )

  -- Denying a pending request whose links are in order returns its rows and stores them: the request
  -- denied with the user, the time and the message, its call denied, its run failed, both with the
  -- reason as their error, and its session failed. The request can then no longer be loaded to
  -- resume the call.
  pub deny-IsDenied :
      (world : World) (context : PermissionResumeContext)
      → IsLinked env request_id pending false world context
      → context.request.id ≡ request_id
      → (left : PermissionResumeContext) × ((deny env now request_id user_id message world).0
          ≡ ok left)
        × IsDenied now user_id message (deny_reason env message context.request) context left
        × IsStored left (deny env now request_id user_id message world).1
        × (load_approved_resume_context env request_id
              (deny env now request_id user_id message world).1
            ≡ (raised permission_state_error, (deny env now request_id user_id message world).1))
  deny-IsDenied world context linked same =
      let (result, stored) = deny_result world context linked in
      (
        denied_context env now user_id message (deny_reason env message context.request) context,
        result,
        record {
          request_denied = refl;
          call_denied = refl;
          run_failed = refl;
          session_failed = refl;
        },
        stored,
        load_denied env request_id _ _ same stored.request_stored refl,
      )
