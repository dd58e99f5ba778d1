-- ===== src/LoopGuard.antt =====
-- `LoopGuard` (runtime/loop_guard.py): an agent may not make the same tool call with the same input
-- again and again. `max_repeats` is the setting `runtime.max_tool_repeats`.
pub mod Exact
use agent_v.Prelude.{
  ℕ, suc, ◌+◌, String, append, Bool, ◌&&◌, ◌==◌, List, [], ◌∷◌, some, none, leb, str_eq,
  if◌then◌else◌,
}
use agent_v.Json.{Json, num, str, obj, end, field}
use agent_v.Env.{Env}
use agent_v.Events
use agent_v.Events.{loop_guard_blocked}
use agent_v.World.{World}
use agent_v.World.Rows.{Tenant, ToolCall}
use agent_v.Table
use agent_v.Exec.{Exec, runtime_error, return, raise, read, ◌>>=◌, ◌>>◌}
use agent_v.EventBus.{publish}
use agent_v.Permissions.Context.{input_hash}

-- what the `where` clause of the query compares
pub record CallKey : Type 0 where
  pub session_id : ℕ
  pub agent_id : String
  pub tool_name : String
  pub digest : String

abbrev pub call_key : ℕ → String → String → String → CallKey
call_key session_id agent_id tool_name digest = record {
  session_id = session_id;
  agent_id = agent_id;
  tool_name = tool_name;
  digest = digest;
}

unfoldable pub is_repeat : CallKey → ToolCall → Bool
is_repeat key call =
    (call.session_id == key.session_id)
    && (str_eq call.agent_id key.agent_id
        && (str_eq call.tool_name key.tool_name && str_eq call.input_hash key.digest))

unfoldable pub count_repeats : CallKey → List ToolCall → ℕ
count_repeats key [] = 0
count_repeats key (call ∷ calls) =
    let rest = count_repeats key calls in if is_repeat key call then suc rest else rest

unfoldable pub repeats : CallKey → World → ℕ
repeats key world = count_repeats key (Table.values world.tool_calls)

module _ (env : Env) (max_repeats : ℕ) where
  -- `f"same agent + same tool + same input repeated {max_repeats} times"`
  abbrev reason : String
  reason =
      append "same agent + same tool + same input repeated "
        (append (env.number_text max_repeats) " times")

  publish_blocked : Tenant → CallKey → Exec World Unit
  unfolding publish
  publish_blocked tenant key = publish env (record {
    tenant = some tenant;
    session_id = some key.session_id;
    agent_run_id = none;
    tool_call_id = none;
    event_type = loop_guard_blocked;
    severity = Events.warning;
    payload = obj (
        field "agent_id" (str key.agent_id) (
          field "tool_name" (str key.tool_name) (
            field "input_hash" (str key.digest)
              (field "max_repeats" (num max_repeats) (field "reason" (str reason) end)))));
  })

  -- `count >= max_repeats - 1`, with the 1 on the other side
  unfoldable pub assert_not_repeated : Tenant → ℕ → String → String → Json → Exec World String
  unfolding publish_blocked
  assert_not_repeated tenant session_id agent_id tool_name input_json = do
    let digest = input_hash env input_json
    let key = call_key session_id agent_id tool_name digest
    count ← read (repeats key)
    if leb max_repeats (count + 1)
        then (do publish_blocked tenant key; raise runtime_error)
        else return digest
