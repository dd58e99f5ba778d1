-- ===== src/Permissions/Context/Checks.antt =====
-- What a loaded context has passed, and that a refusal changes no runtime row
-- (permissions/service.py).
use agent_v.Prelude.{
  ℕ, String, Bool, true, false, not, ◌≡◌, refl, ◌&&◌, Option, none, some, arith, is_none, ap,
  Option-cases, inl, inr,
}
use agent_v.Json.{json_eq}
use agent_v.Env.{Env}
use agent_v.World.{World}
use agent_v.World.Rows.{PermissionRequest, PermissionStatus}
use agent_v.Table
use agent_v.Table.{find_optional}
use mathlib.Core.Path.{subst}
use agent_v.Exec.{Result, Exec, permission_state_error, require, ok, return, ◌>>◌}
use agent_v.Permissions.Context.{
  PermissionResumeContext, permission_status_eq, waits_for, hashes_agree, tool_allows, find_linked,
  require_or_block, check_context, check_linked, check_request, load_resume_context,
}

-- the rows of a context are the stored ones that the request links, and every check holds of them
pub record IsLinked (env : Env) (request_id : ℕ) (required_status : PermissionStatus)
    (require_registered_tool : Bool) (world : World) (context : PermissionResumeContext)
    : Type 0 where
  pub request_stored : Table.find world.permissions request_id ≡ some context.request
  pub status_required : permission_status_eq context.request.status required_status ≡ true
  pub call_stored :
      find_optional world.tool_calls context.request.tool_call_id ≡ some context.tool_call
  pub run_stored : find_optional world.runs context.request.agent_run_id ≡ some context.run
  pub session_stored : Table.find world.sessions context.request.session_id ≡ some context.session
  pub call_waits : waits_for context.tool_call context.request ≡ true
  pub hash_same : hashes_agree env context.tool_call context.request ≡ true
  pub input_same : json_eq context.tool_call.input_json context.request.input_json ≡ true
  pub tool_registered : tool_allows env require_registered_tool context.tool_call ≡ true

module _ (env : Env) where
  -- four guards in a row: what follows is reached only if all pass, and nothing was changed
  guards :
      (a b c d : Bool) (request : PermissionRequest) (r₁ r₂ r₃ r₄ : String) (id : Option ℕ)
      (context got : PermissionResumeContext) (world : World)
      → let guarded =
          (require_or_block env a request r₁ id
              >> (require_or_block env b request r₂ id
                  >> (require_or_block env c request r₃ id
                      >> (require_or_block env d request r₄ id >> return context))))
            world in
        guarded.0 ≡ ok got
        → (a ≡ true) × (b ≡ true) × (c ≡ true) × (d ≡ true) × (guarded ≡ (ok context, world))
  unfolding require_or_block
  guards true true true true request r₁ r₂ r₃ r₄ id context got world h =
      (refl, refl, refl, refl, refl)
  guards false b c d request r₁ r₂ r₃ r₄ id context got world h = cc
  guards true false c d request r₁ r₂ r₃ r₄ id context got world h = cc
  guards true true false d request r₁ r₂ r₃ r₄ id context got world h = cc
  guards true true true false request r₁ r₂ r₃ r₄ id context got world h = cc

  check_context_sound :
      (required : Bool) (context got : PermissionResumeContext) (world : World)
      → (check_context env required context world).0 ≡ ok got
      → (waits_for context.tool_call context.request ≡ true)
        × (hashes_agree env context.tool_call context.request ≡ true)
        × (json_eq context.tool_call.input_json context.request.input_json ≡ true)
        × (tool_allows env required context.tool_call ≡ true)
        × (check_context env required context world ≡ (ok context, world))
  unfolding check_context
  check_context_sound required context got world h =
      guards _ _ _ _ context.request _ _ _ _ _ context got world h

  first_guards :
      (a b : Bool) (request : PermissionRequest) (reason : String)
      (rest : Exec World PermissionResumeContext) (got : PermissionResumeContext) (world : World)
      → let guarded =
          (require a permission_state_error >> (require_or_block env b request reason none >> rest))
            world in
        guarded.0 ≡ ok got → (a ≡ true) × (guarded ≡ rest world)
  unfolding require_or_block
  first_guards true true request reason rest got world h = (refl, refl)
  first_guards true false request reason rest got world h = cc
  first_guards false b request reason rest got world h = cc

  linked_sound :
      (request : PermissionRequest) (tool_call_id run_id : Option ℕ)
      (context : PermissionResumeContext) (world : World)
      → find_linked request tool_call_id run_id world ≡ some context
      → (context.request ≡ request)
        × (find_optional world.tool_calls tool_call_id ≡ some context.tool_call)
        × (find_optional world.runs run_id ≡ some context.run)
        × (Table.find world.sessions request.session_id ≡ some context.session)
  linked_sound request tool_call_id run_id context world h = ground arith

  check_linked_sound :
      (required : Bool) (request : PermissionRequest) (linked : Option PermissionResumeContext)
      (got : PermissionResumeContext) (world : World)
      → (check_linked env required request linked world).0 ≡ ok got
      → (linked ≡ some got)
        × (check_context env required got world ≡ (ok got, world))
        × (check_linked env required request linked world ≡ (ok got, world))
  unfolding check_linked
  check_linked_sound required request none got world h = cc
  check_linked_sound required request (some context) got world h =
      let checks = check_context_sound required context got world h in
      let returned : ◌≡◌ {A = Result PermissionResumeContext} (ok context) (ok got) =
        rw checks.4 at h in
      let same : context ≡ got = cc in
      subst
        (λ c.
          (some context ≡ some c)
          × (check_context env required c world ≡ (ok c, world))
          × (check_context env required context world ≡ (ok c, world)))
        same (refl, checks.4, checks.4)

  check_request_sound :
      (request_id : ℕ) (status : PermissionStatus) (required : Bool) (request : PermissionRequest)
      (world : World) (context : PermissionResumeContext)
      → Table.find world.permissions request_id ≡ some request
      → (check_request env status required (some request) world).0 ≡ ok context
      → IsLinked env request_id status required world context
        × ((check_request env status required (some request) world).1 ≡ world)
  unfolding check_request
  check_request_sound request_id status required request world context stored h =
      let rest = λ (w : World).
        check_linked env required request
          (find_linked request request.tool_call_id request.agent_run_id w) w in
      let (right_status, reached) =
        first_guards (permission_status_eq request.status status)
          (not (is_none request.tool_call_id) && not (is_none request.agent_run_id)) request
          "permission request is not linked to a tool call and agent run" rest context world h in
      let linked = find_linked request request.tool_call_id request.agent_run_id world in
      let (found, checked, left) =
        check_linked_sound required request linked context world (rw reached at h) in
      let (same, call, run, session) = linked_sound request _ _ context world found in
      let checks = check_context_sound required context context world (ap (λ r. r.0) checked) in
      (
        record {
          request_stored = rw same stored;
          status_required = rw same right_status;
          call_stored = rw same call;
          run_stored = rw same run;
          session_stored = rw same session;
          call_waits = checks.0;
          hash_same = checks.1;
          input_same = checks.2;
          tool_registered = checks.3;
        },
        rw reached (ap (λ r. r.1) left),
      )

  -- A context that is returned is made of the stored rows that the request links; the request has
  -- the required status, the call waits for it, hashes and input agree, and the tool is registered
  -- if that is asked. Loading changed nothing.
  pub load_resume_context_sound :
      (request_id : ℕ) (status : PermissionStatus) (required : Bool) (world : World)
      (context : PermissionResumeContext)
      → (load_resume_context env request_id status required world).0 ≡ ok context
      → IsLinked env request_id status required world context
        × ((load_resume_context env request_id status required world).1 ≡ world)
  unfolding load_resume_context
  load_resume_context_sound request_id status required world context h =
      elim (Option-cases (Table.find world.permissions request_id)) [
        | inl missing ↦ absurd (not_found (rw missing at h))
        | inr (request, stored) ↦ rw stored (
            check_request_sound request_id status required request world context stored
              (rw stored at h))
      ]
    where
      not_found : (check_request env status required none world).0 ≡ ok context → ⊥
      not_found e = cc
