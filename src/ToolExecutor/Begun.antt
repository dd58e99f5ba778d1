-- ===== src/ToolExecutor/Begun.antt =====
-- What one call of `execute` stores, and how the counts change (runtime/loop_guard.py and
-- runtime/tool_executor.py).
use agent_v.Prelude.{
  ℕ, ◌+◌, ◌≤◌, ◌<◌, String, true, ◌≡◌, refl, ◌==◌, ◌++◌, ◌&&◌, Option, none, some, List, [], ◌∷◌,
  arith, if◌then◌else◌, str_eq, str_eq_iff, str_eq_refl,
}
use agent_v.Json.{Json}
use agent_v.Env.{Env}
use agent_v.World.{World}
use agent_v.World.Rows.{ToolCall}
use agent_v.Table
use agent_v.Table.{find-put, values-put}
use agent_v.Exec.{ok, raised, runtime_error}
use agent_v.Permissions.Context.{input_hash}
use agent_v.LoopGuard.{CallKey, is_repeat, call_key, count_repeats, repeats}
use agent_v.LoopGuard.Exact.{guard_allows, guard_blocks}
use agent_v.ToolExecutor.{
  CallRequest, Refusal, refusal, refuse_or_request, refuse_call, request_call, add_call,
  pending_call, refused_call,
}

count-append :
    (key : CallKey) (xs : List ToolCall) (call : ToolCall)
    → count_repeats key (xs ++ call ∷ [])
      ≡ count_repeats key xs + (if is_repeat key call then 1 else 0)
unfolding count_repeats
count-append key [] call = ground arith
count-append key (x ∷ xs) call = ground (arith, count-append key xs call)

compared :
    (key : CallKey) (s : ℕ) (a t d : String)
    → ((s == key.session_id)
        && (str_eq a key.agent_id && (str_eq t key.tool_name && str_eq d key.digest)))
      ≡ true
    → (s ≡ key.session_id) × (a ≡ key.agent_id) × (t ≡ key.tool_name) × (d ≡ key.digest)
compared key s a t d same =
    ground (arith, str_eq_iff a key.agent_id, str_eq_iff t key.tool_name, str_eq_iff d key.digest)

same_key :
    (key : CallKey) (s : ℕ) (a t d : String)
    → ((s == key.session_id)
        && (str_eq a key.agent_id && (str_eq t key.tool_name && str_eq d key.digest)))
      ≡ true
    → key ≡ call_key s a t d
same_key key s a t d same =
    let (es, ea, et, ed) = compared key s a t d same in rw (es, ea, et, ed) refl

-- no call is stored under an id that is still to be drawn
pub record AreIdsFresh (world : World) : Type 0 where
  pub unused : (id : ℕ) → world.fresh ≤ id → Table.find world.tool_calls id ≡ none

pub repeats-add_call :
    (key : CallKey) (call : ToolCall) (world : World)
    → AreIdsFresh world
    → call.id ≡ world.fresh
    → repeats key (add_call call world) ≡ repeats key world + (if is_repeat key call then 1 else 0)
unfolding repeats
repeats-add_call key call world fresh at =
    rw (values-put world.tool_calls call.id call (fresh.unused call.id (omega (arith, at))))
      (count-append key (Table.values world.tool_calls) call)

pub add_call-AreIdsFresh :
    (call : ToolCall) (world : World)
    → AreIdsFresh world
    → call.id ≡ world.fresh
    → AreIdsFresh (add_call call world)
add_call-AreIdsFresh call world fresh at = record {
  unused = λ id later. rw find-put (ground (arith, fresh.unused id));
}

pub repeats-same :
    (key : CallKey) (world after : World)
    → after.tool_calls ≡ world.tool_calls
    → repeats key after ≡ repeats key world
unfolding repeats
repeats-same key world after calls = rw calls refl

module _ (env : Env) (max_repeats now : ℕ) (lookup_error : String → Option String)
    (input_error : String → Json → Option String) where
  abbrev pub own_key : CallRequest → CallKey
  own_key request =
      call_key request.session_id request.agent_id request.tool_name
        (input_hash env request.input_json)

  -- the call that a request that the guard lets through stores
  abbrev pub stored_call : CallRequest → Option Refusal → World → ToolCall
  stored_call request (some refusal) world =
      refused_call env max_repeats now lookup_error input_error request refusal
        (input_hash env request.input_json) world.fresh
  stored_call request none world =
      pending_call request (input_hash env request.input_json) world.fresh

  pub let_through :
      (request : CallRequest) (refused : Option Refusal) (world : World)
      → repeats (own_key request) world + 1 < max_repeats
      → let begun =
          refuse_or_request env max_repeats now lookup_error input_error request refused world in
        (begun.0 ≡ ok (stored_call request refused world))
        × (begun.1.tool_calls ≡ (add_call (stored_call request refused world) world).tool_calls)
        × (begun.1.fresh ≡ world.fresh + 1)
  unfolding refuse_or_request refuse_call request_call
  let_through request (some refusal) world few =
      rw (guard_allows env max_repeats request.tenant _ _ _ request.input_json world few)
        (refl, refl, refl)
  let_through request none world few =
      rw (guard_allows env max_repeats request.tenant _ _ _ request.input_json world few)
        (refl, refl, refl)

  pub held_back :
      (request : CallRequest) (refused : Option Refusal) (world : World)
      → max_repeats ≤ repeats (own_key request) world + 1
      → let begun =
          refuse_or_request env max_repeats now lookup_error input_error request refused world in
        (begun.0 ≡ raised runtime_error)
        × (begun.1.tool_calls ≡ world.tool_calls)
        × (begun.1.fresh ≡ world.fresh)
  unfolding refuse_or_request refuse_call request_call
  held_back request (some refusal) world many =
      let (stops, calls, ids) =
        guard_blocks env max_repeats request.tenant _ _ _ request.input_json world many in
      rw stops (refl, calls, ids)
  held_back request none world many =
      let (stops, calls, ids) =
        guard_blocks env max_repeats request.tenant _ _ _ request.input_json world many in
      rw stops (refl, calls, ids)

  pub is_repeat-stored :
      (key : CallKey) (request : CallRequest) (refused : Option Refusal) (world : World)
      → is_repeat key (stored_call request refused world) ≡ true
      → key ≡ own_key request
  unfolding is_repeat
  is_repeat-stored key request (some refusal) world same = same_key key _ _ _ _ same
  is_repeat-stored key request none world same = same_key key _ _ _ _ same

  pub stored-own_key :
      (request : CallRequest) (refused : Option Refusal) (world : World)
      → is_repeat (own_key request) (stored_call request refused world) ≡ true
  unfolding is_repeat
  stored-own_key request (some refusal) world = ground (
    arith,
    str_eq_refl request.agent_id,
    str_eq_refl request.tool_name,
    str_eq_refl (input_hash env request.input_json),
  )
  stored-own_key request none world = ground (
    arith,
    str_eq_refl request.agent_id,
    str_eq_refl request.tool_name,
    str_eq_refl (input_hash env request.input_json),
  )
