-- ===== src/Tests/Calls.antt =====
-- The guard of repeated tool calls at concrete inputs.
use agent_v.Prelude.{◌<◌, ◌≡◌, refl, Option, none, String, [], ◌∷◌, arith}
use agent_v.Json.{Json, str}
use agent_v.Table
use agent_v.Permissions.Context.{input_hash}
use agent_v.LoopGuard.{CallKey, call_key, repeats, count_repeats, is_repeat}
use agent_v.ToolExecutor.{CallRequest}
use agent_v.ToolExecutor.Begun.{AreIdsFresh}
use agent_v.ToolExecutor.Limit.{begin_calls, begin_calls-limit}
use agent_v.Tests.Data.{env, tenant, waiting_world}

abbrev lookup_error : String → Option String
lookup_error _ = none

abbrev input_error : String → Json → Option String
input_error _ _ = none

abbrev request : CallRequest
request = record {
  tenant = tenant;
  session_id = 10;
  agent_run_id = none;
  agent_id = "build";
  allowed_tools = "shell.run" ∷ [];
  tool_name = "shell.run";
  input_json = str "ls";
}

abbrev key : CallKey
key = call_key 10 "build" "shell.run" (input_hash env (str "ls"))

fresh : AreIdsFresh waiting_world
unfolding Table.find
fresh = record { unused = λ id later. ground arith }

-- the call of the waiting world
once : repeats key waiting_world ≡ 1
unfolding repeats Table.values count_repeats is_repeat input_hash
once = refl

begin_calls-limit_example :
    repeats key (
      begin_calls env 3 200 lookup_error input_error
        (request ∷ request ∷ request ∷ [])
        waiting_world)
    < 3
begin_calls-limit_example =
    begin_calls-limit env 3 200 lookup_error input_error (request ∷ request ∷ request ∷ []) key
      waiting_world fresh (omega (arith, once))
