-- ===== src/ToolExecutor/Decision/Resumed.antt =====
-- A call on hold for permission (runtime/tool_executor.py) and the answer to its request
-- (permissions/service.py).
use agent_v.Prelude.{
  ℕ, String, true, false, ◌≡◌, refl, sym, Option, some, arith, str_eq, str_eq_refl,
}
use agent_v.Json.{json_eq, get}
use agent_v.Env.{Env}
use agent_v.World.{World}
use agent_v.World.Rows.{ToolCall, AgentRun, Session, pending, approved}
use agent_v.Table
use agent_v.Table.{find-put_same}
use agent_v.Exec.{ok}
use agent_v.Permissions.Context.{PermissionResumeContext, input_hash}
use agent_v.Permissions.Context.Checks.{IsLinked}
use agent_v.Permissions.Policy.{PermissionDecision}
use agent_v.Permissions.Service.{new_request, resolved, approve, load_approved_resume_context}
use agent_v.Permissions.Service.Answers.{approve-load_approved}
use agent_v.ToolExecutor.Decision.{PreviewEnv, held_call, permission_create, hold_for_permission}

module _ (env : Env) (text : PreviewEnv) (user_id : Option ℕ) (risk_level : String) where
  -- the call is as `execute` has made it, and its run, session and tool are there
  pub record IsReady (call : ToolCall) (run : AgentRun) (session : Session) (world : World)
      : Type 0 where
    pub run_id : ℕ
    pub has_run : call.agent_run_id ≡ some run_id
    pub run_stored : Table.find world.runs run_id ≡ some run
    pub session_stored : Table.find world.sessions call.session_id ≡ some session
    pub own_hash : call.input_hash ≡ input_hash env call.input_json
    pub some_hash : str_eq call.input_hash "" ≡ false
    pub equals_itself : json_eq call.input_json call.input_json ≡ true
    pub tool_registered : env.registered call.tool_name ≡ true

  abbrev pub held_context :
      PermissionDecision → ToolCall → AgentRun → Session → ℕ → PermissionResumeContext
  held_context decision call run session id = record {
    request = new_request (permission_create env text user_id risk_level decision call) id;
    tool_call = held_call id call;
    run = run;
    session = session;
  }

  -- the links of the request, from the call as it is held
  held-IsLinked :
      (decision : PermissionDecision) (call : ToolCall) (run : AgentRun) (session : Session)
      (world : World)
      → IsReady call run session world
      → IsLinked env world.fresh pending true
          (hold_for_permission env text user_id risk_level decision call world).1
          (held_context decision call run session world.fresh)
  unfolding hold_for_permission permission_create get
  held-IsLinked decision call run session world ready = record {
    request_stored = find-put_same world.permissions world.fresh _;
    status_required = refl;
    call_stored = find-put_same world.tool_calls call.id _;
    run_stored = rw (ready.has_run) ready.run_stored;
    session_stored = ready.session_stored;
    call_waits = ground arith;
    hash_same = rw (ready.some_hash, sym ready.own_hash, str_eq_refl call.input_hash) refl;
    input_same = ready.equals_itself;
    tool_registered = rw ready.tool_registered refl;
  }

  -- A call that the policy asks about is put on hold: once its request is approved, it is loaded to be
  -- resumed, as it was held and with its own run and session. It is asked that the call is one that
  -- the executor has made, and that its run, its session and its tool are there.
  pub hold_for_permission-approve :
      (now : ℕ) (approver : Option ℕ) (message : Option String) (decision : PermissionDecision)
      (call : ToolCall) (run : AgentRun) (session : Session) (world : World)
      → IsReady call run session world
      → let context = held_context decision call run session world.fresh in
        let held = hold_for_permission env text user_id risk_level decision call world in
        let answered = approve env now world.fresh approver message held.1 in
        let request = resolved approved now approver message context.request in
        (held.0 ≡ ok context.tool_call)
        × (answered.0 ≡ ok (record context { request = request }))
        × (load_approved_resume_context env world.fresh answered.1
            ≡ (ok (record context { request = request }), answered.1))
  unfolding hold_for_permission
  hold_for_permission-approve now approver message decision call run session world ready =
      let held = hold_for_permission env text user_id risk_level decision call world in
      let (result, loaded, calls, runs, sessions) =
        approve-load_approved env now world.fresh approver message held.1
          (held_context decision call run session world.fresh)
          (held-IsLinked decision call run session world ready) refl in
      (refl, result, loaded)
