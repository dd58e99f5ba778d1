-- ===== src/LoopGuard/Exact.antt =====
-- When the guard lets a call through (runtime/loop_guard.py).
use agent_v.Prelude.{ℕ, ◌+◌, ◌≤◌, ◌<◌, String, true, false, ◌≡◌, refl, arith, leb}
use agent_v.Json.{Json}
use agent_v.Env.{Env}
use agent_v.World.{World}
use agent_v.World.Rows.{Tenant}
use agent_v.Exec.{ok, raised, runtime_error}
use agent_v.Permissions.Context.{input_hash}
use agent_v.LoopGuard.{call_key, repeats, assert_not_repeated, publish_blocked}

module _ (env : Env) (max_repeats : ℕ) (tenant : Tenant) (session_id : ℕ)
    (agent_id tool_name : String) (input_json : Json) (world : World) where
  abbrev count : ℕ
  count = repeats (call_key session_id agent_id tool_name (input_hash env input_json)) world

  allows :
      leb max_repeats (count + 1) ≡ false
      → assert_not_repeated env max_repeats tenant session_id agent_id tool_name input_json world
        ≡ (ok (input_hash env input_json), world)
  unfolding assert_not_repeated
  allows few = rw few refl

  pub guard_allows :
      count + 1 < max_repeats
      → assert_not_repeated env max_repeats tenant session_id agent_id tool_name input_json world
        ≡ (ok (input_hash env input_json), world)
  guard_allows few = allows (ground arith)

  blocks :
      leb max_repeats (count + 1) ≡ true
      → let after =
          assert_not_repeated env max_repeats tenant session_id agent_id tool_name input_json
            world in
        (after.0 ≡ raised runtime_error)
        × (after.1.tool_calls ≡ world.tool_calls)
        × (after.1.fresh ≡ world.fresh)
  unfolding assert_not_repeated publish_blocked
  blocks many = rw many (refl, refl, refl)

  pub guard_blocks :
      max_repeats ≤ count + 1
      → let after =
          assert_not_repeated env max_repeats tenant session_id agent_id tool_name input_json
            world in
        (after.0 ≡ raised runtime_error)
        × (after.1.tool_calls ≡ world.tool_calls)
        × (after.1.fresh ≡ world.fresh)
  guard_blocks many = blocks (ground arith)
