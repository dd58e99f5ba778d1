-- ===== src/Permissions/Context/Complete.antt =====
-- A request whose links and checks are all in order is loaded (permissions/service.py).
use agent_v.Prelude.{
  ℕ, String, Bool, true, not, ◌≡◌, refl, ◌∙◌, ◌&&◌, Option, none, some, arith, is_none,
}
use agent_v.Env.{Env}
use agent_v.World.{World}
use agent_v.World.Rows.{PermissionRequest, PermissionStatus}
use agent_v.Table
use agent_v.Table.{find_optional}
use agent_v.Exec.{Exec, ok, return, permission_state_error, require, ◌>>◌}
use agent_v.Permissions.Context.{
  PermissionResumeContext, permission_status_eq, find_linked, require_or_block, check_context,
  check_linked, load_resume_context,
}
use agent_v.Permissions.Context.Checks.{IsLinked}

module _ (env : Env) where
  guards_pass :
      (a b c d : Bool) (request : PermissionRequest) (r₁ r₂ r₃ r₄ : String) (id : Option ℕ)
      (context : PermissionResumeContext) (world : World)
      → a ≡ true
      → b ≡ true
      → c ≡ true
      → d ≡ true
      → (require_or_block env a request r₁ id
            >> (require_or_block env b request r₂ id
                >> (require_or_block env c request r₃ id
                    >> (require_or_block env d request r₄ id >> return context))))
          world
        ≡ (ok context, world)
  unfolding require_or_block
  guards_pass a b c d request r₁ r₂ r₃ r₄ id context world ha hb hc hd = rw (ha, hb, hc, hd) refl

  first_guards_pass :
      (a b : Bool) (request : PermissionRequest) (reason : String)
      (rest : Exec World PermissionResumeContext) (world : World)
      → a ≡ true
      → b ≡ true
      → (require a permission_state_error >> (require_or_block env b request reason none >> rest))
          world
        ≡ rest world
  unfolding require_or_block
  first_guards_pass a b request reason rest world ha hb = rw (ha, hb) refl

  find_linked_complete :
      (context : PermissionResumeContext) (world : World)
      → find_optional world.tool_calls context.request.tool_call_id ≡ some context.tool_call
      → find_optional world.runs context.request.agent_run_id ≡ some context.run
      → Table.find world.sessions context.request.session_id ≡ some context.session
      → (find_linked context.request context.request.tool_call_id context.request.agent_run_id world
          ≡ some context)
        × ((not (is_none context.request.tool_call_id)
              && not (is_none context.request.agent_run_id))
            ≡ true)
  find_linked_complete context world call run session = ground arith

  -- If the checks hold of the stored rows that a request links, loading it returns these rows and
  -- changes nothing.
  pub load_resume_context_complete :
      (request_id : ℕ) (status : PermissionStatus) (required : Bool) (world : World)
      (context : PermissionResumeContext)
      → IsLinked env request_id status required world context
      → load_resume_context env request_id status required world ≡ (ok context, world)
  unfolding load_resume_context check_linked check_context
  load_resume_context_complete request_id status required world context linked =
      let (found, both) =
        find_linked_complete context world linked.call_stored linked.run_stored
          linked.session_stored in
      let request = context.request in
      let rest = λ (w : World).
        check_linked env required request
          (find_linked request request.tool_call_id request.agent_run_id w) w in
      let reached =
        first_guards_pass (permission_status_eq request.status status)
          (not (is_none request.tool_call_id) && not (is_none request.agent_run_id)) request
          "permission request is not linked to a tool call and agent run" rest world
          linked.status_required both in
      rw linked.request_stored (
        reached
        ∙ rw found (
            guards_pass _ _ _ _ request _ _ _ _ _ context world linked.call_waits linked.hash_same
              linked.input_same linked.tool_registered))
