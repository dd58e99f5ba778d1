-- ===== src/ToolExecutor/Decision.antt =====
-- `ToolExecutor.execute` (runtime/tool_executor.py) from the policy's decision on: the call is denied,
-- or put on hold until its permission request is answered. The run of an allowed call is not modelled;
-- the child Question has the tool that asks a person.
pub mod Question
pub mod Resumed
use agent_v.Prelude.{
  ℕ, String, Bool, true, false, not, ◌&&◌, ◌||◌, Option, none, some, List, [], ◌∷◌, ◌++◌, contains,
  str_eq, str_take, starts_with, if◌then◌else◌,
}
use agent_v.Json.{Json, null, str, arr, obj, Items, nil, cons, Fields, end, field, get}
use agent_v.Env.{Env}
use agent_v.Redaction.{redact_data, redact_text}
use agent_v.Events
use agent_v.Events.{EventType, tool_call_failed, permission_denied}
use agent_v.World.{World}
use agent_v.World.Rows.{ToolCall, CallStatus, PermissionRequest}
use agent_v.Table
use agent_v.Exec.{Exec, return, read, modify, ◌>>=◌, ◌>>◌}
use agent_v.EventBus.{publish}
use agent_v.Permissions.Context.{add_audit}
use agent_v.Permissions.Policy.{PermissionAction, PermissionDecision}
use agent_v.Permissions.Service.{PermissionRequestCreate, create_request}

-- Python's `text.splitlines()`, `text.strip()`, `text[n:]`, `text.split(": ", 1)[1]` of a text that
-- has a colon, and `text.split("\t", 1)[0]`
pub record PreviewEnv : Type 0 where
  pub splitlines : String → List String
  pub strip : String → String
  pub from_index : ℕ → String → String
  pub after_colon : String → String
  pub before_tab : String → String

-- a field of an input that is a text, if the input is a dictionary
abbrev text_field : Json → String → Option String
text_field (obj fields) key = elim (get fields key) [ some (str s) ↦ some s | _ ↦ none ]
text_field _ key = none

pub text_items : List String → Items
text_items [] = nil
text_items (s ∷ rest) = cons (str s) (text_items rest)

-- `list(dict.fromkeys(paths))`; `seen` holds those that came
unique : List String → List String → List String
unique seen [] = []
unique seen (path ∷ paths) =
    let new = unique (path ∷ seen) paths in
    let rest = unique seen paths in if contains seen path then rest else path ∷ new

module _ (text : PreviewEnv) where
  -- the path that a line of a patch names
  line_paths : String → List String
  line_paths line =
      let raw = text.before_tab (text.strip (text.from_index 4 line)) in
      if starts_with line "*** Add File: "
        || (starts_with line "*** Update File: " || starts_with line "*** Delete File: ")
      then text.strip (text.after_colon line) ∷ []
      else if starts_with line "--- " || starts_with line "+++ "
      then (if str_eq raw "/dev/null"
          then []
          else (if starts_with raw "a/" || starts_with raw "b/" then text.from_index 2 raw else raw)
            ∷ [])
      else []

  lines_paths : List String → List String
  unfolding line_paths
  lines_paths [] = []
  lines_paths (line ∷ lines) = line_paths line ++ lines_paths lines

  patch_paths : Option String → List String
  unfolding lines_paths unique
  patch_paths none = []
  patch_paths (some patch_text) = unique [] (lines_paths (text.splitlines patch_text))

  one_path : Option String → List String
  one_path none = []
  one_path (some path) = path ∷ []

  target_paths_for_preview : String → Json → List String
  unfolding patch_paths one_path
  target_paths_for_preview tool_name input_json =
      if str_eq tool_name "write.file" || str_eq tool_name "edit.file"
      then one_path (text_field input_json "path")
      else if str_eq tool_name "patch.apply"
      then patch_paths (text_field input_json "patch_text")
      else []

  diff_preview : Env → Option String → Json
  diff_preview env none = null
  diff_preview env (some patch_text) = str (redact_text env (str_take 12000 patch_text))

  abbrev operation_type : String → String
  operation_type permission_key =
      if str_eq permission_key "write.file"
      then "write"
      else if str_eq permission_key "edit.file"
      then "edit"
      else "patch"

  unfoldable pub permission_preview_metadata : Env → String → String → Json → String → Fields
  unfolding target_paths_for_preview diff_preview text_items
  permission_preview_metadata env tool_name permission_key input_json risk_level =
      if str_eq permission_key "write.file"
        || (str_eq permission_key "edit.file" || str_eq permission_key "patch.apply")
      then field "operation_type" (str (operation_type permission_key)) (
          field "target_paths" (arr (text_items (target_paths_for_preview tool_name input_json))) (
            field "risk_level" (str risk_level) (
              field "diff_preview"
                (if str_eq tool_name "patch.apply"
                  then diff_preview env (text_field input_json "patch_text")
                  else null)
                end)))
      else end

abbrev pub save_call : ToolCall → World → World
save_call call world = record world { tool_calls = Table.put world.tool_calls call.id call }

abbrev pub held_call : ℕ → ToolCall → ToolCall
held_call request_id call = record call {
  status = CallStatus.waiting_permission;
  permission_request_id = some request_id;
}

abbrev pub denied_by_policy : Env → ℕ → String → ToolCall → ToolCall
denied_by_policy env now reason call = record call {
  status = CallStatus.denied;
  error = some (redact_text env reason);
  completed_at = some now;
  duration_ms = some 0;
}

-- the call with which `execute` ends, or the one that goes on
pub data NextStep : Type 0 where
  ended : ToolCall → NextStep
  proceeds : ToolCall → NextStep

module _ (env : Env) (text : PreviewEnv) (user_id : Option ℕ) (risk_level : String) where
  unfoldable pub permission_create : PermissionDecision → ToolCall → PermissionRequestCreate
  unfolding permission_preview_metadata
  permission_create decision call = record {
    tenant = call.tenant;
    session_id = call.session_id;
    agent_run_id = call.agent_run_id;
    tool_call_id = some call.id;
    permission_key = decision.permission_key;
    resource = decision.resource;
    input_json = call.input_json;
    metadata_json = field "tool" (str call.tool_name) (
        field "reason" (str decision.reason) (
          field "input_hash" (str call.input_hash) (
            permission_preview_metadata text env call.tool_name decision.permission_key
              call.input_json risk_level)));
    requested_by_user_id = user_id;
  }

  unfoldable pub hold_for_permission : PermissionDecision → ToolCall → Exec World ToolCall
  unfolding create_request permission_create
  hold_for_permission decision call = do
    request ← create_request env (permission_create decision call)
    let held = held_call request.id call
    modify (save_call held)
    return held

module _ (env : Env) (text : PreviewEnv) (now : ℕ) (user_id : Option ℕ) (risk_level : String) where
  publish_call : ToolCall → EventType → Fields → Exec World Unit
  unfolding publish
  publish_call call event_type payload = publish env (record {
    tenant = some call.tenant;
    session_id = some call.session_id;
    agent_run_id = call.agent_run_id;
    tool_call_id = some call.id;
    event_type = event_type;
    severity = Events.warning;
    payload = obj payload;
  })

  deny_call : PermissionDecision → ToolCall → Exec World ToolCall
  unfolding publish_call
  deny_call decision call = do
    let denied = denied_by_policy env now decision.reason call
    modify (save_call denied)
    modify (
        add_audit (record {
          organization_id = call.tenant.organization_id;
          actor_user_id = user_id;
          action = "tool.execute";
          resource_type = "tool_call";
          resource_id = env.uuid_text call.id;
          status = "denied";
          metadata_json =
              redact_data env (
                obj (field "tool" (str call.tool_name) (field "reason" (str decision.reason) end)));
        }))
    publish_call denied permission_denied (
        field "permission_key" (str decision.permission_key)
          (field "resource" (str decision.resource) (field "reason" (str decision.reason) end)))
    publish_call denied tool_call_failed (
        field "id" (str (env.uuid_text call.id))
          (field "tool" (str call.tool_name) (field "error" (str decision.reason) end)))
    return denied

  by_action : PermissionAction → PermissionDecision → ToolCall → Exec World NextStep
  unfolding deny_call hold_for_permission
  by_action PermissionAction.deny decision call = do
    denied ← deny_call decision call
    return (ended denied)
  by_action PermissionAction.ask decision call = do
    held ← hold_for_permission env text user_id risk_level decision call
    return (ended held)
  by_action PermissionAction.allow decision call = return (proceeds call)

  unfoldable pub decide : PermissionDecision → ToolCall → Exec World NextStep
  unfolding by_action
  decide decision call = by_action decision.action decision call
