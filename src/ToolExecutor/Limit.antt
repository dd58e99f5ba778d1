-- ===== src/ToolExecutor/Limit.antt =====
-- The same tool call is recorded fewer times than the setting says (runtime/loop_guard.py and
-- runtime/tool_executor.py).
use agent_v.Prelude.{
  ℕ, ◌+◌, ◌≤◌, ◌<◌, String, ◌≡◌, refl, ◌∙◌, Option, none, some, List, [], ◌∷◌, arith, ltb,
  if◌then◌else◌, Bool-cases, inl, inr,
}
use agent_v.Json.{Json}
use agent_v.Env.{Env}
use agent_v.World.{World}
use agent_v.Exec.{ok, raised, runtime_error}
use agent_v.LoopGuard.{CallKey, is_repeat, repeats}
use agent_v.ToolExecutor.{CallRequest, Refusal, refusal, begin_call, refuse_or_request, add_call}
use agent_v.ToolExecutor.Begun.{
  AreIdsFresh, repeats-add_call, add_call-AreIdsFresh, repeats-same, own_key, stored_call,
  let_through, held_back, is_repeat-stored, stored-own_key,
}

module _ (env : Env) (max_repeats now : ℕ) (lookup_error : String → Option String)
    (input_error : String → Json → Option String) where
  abbrev Limited : World → World → Type 0
  Limited world after =
      AreIdsFresh after
      × ((key : CallKey) → repeats key world < max_repeats → repeats key after < max_repeats)

  AreIdsFresh-same :
      (world after : World)
      → after.tool_calls ≡ world.tool_calls
      → after.fresh ≡ world.fresh
      → AreIdsFresh world
      → AreIdsFresh after
  AreIdsFresh-same world after calls ids fresh = record {
    unused = λ id later. rw calls (fresh.unused id (omega (arith, later, ids)));
  }

  id-stored :
      (request : CallRequest) (refused : Option Refusal) (world : World)
      → (stored_call env max_repeats now lookup_error input_error request refused world).id
        ≡ world.fresh
  id-stored request (some refusal) world = refl
  id-stored request none world = refl

  repeats-let_through :
      (key : CallKey) (request : CallRequest) (refused : Option Refusal) (world : World)
      → AreIdsFresh world
      → repeats (own_key env max_repeats now lookup_error input_error request) world + 1
        < max_repeats
      → repeats key
          (refuse_or_request env max_repeats now lookup_error input_error request refused world).1
        ≡ repeats key world
          + (if is_repeat key
                (stored_call env max_repeats now lookup_error input_error request refused world)
              then 1
              else 0)
  repeats-let_through key request refused world fresh few =
      let (result, calls, ids) =
        let_through env max_repeats now lookup_error input_error request refused world few in
      let stored = stored_call env max_repeats now lookup_error input_error request refused world in
      repeats-same key (add_call stored world) _ calls
      ∙ repeats-add_call key stored world fresh (id-stored request refused world)

  below :
      (key : CallKey) (request : CallRequest) (refused : Option Refusal) (world : World)
      → repeats (own_key env max_repeats now lookup_error input_error request) world + 1
        < max_repeats
      → repeats key world < max_repeats
      → repeats key world
          + (if is_repeat key
                (stored_call env max_repeats now lookup_error input_error request refused world)
              then 1
              else 0)
        < max_repeats
  below key request refused world few held =
      elim (Bool-cases (
        is_repeat key
          (stored_call env max_repeats now lookup_error input_error request refused world))) [
            | inl same ↦
                let own =
                  is_repeat-stored env max_repeats now lookup_error input_error key request refused
                    world same in
                rw same (rw own few)
            | inr other ↦ rw other (omega (arith, held))
          ]

  Limited-let_through :
      (request : CallRequest) (refused : Option Refusal) (world : World)
      → AreIdsFresh world
      → repeats (own_key env max_repeats now lookup_error input_error request) world + 1
        < max_repeats
      → Limited world
          (refuse_or_request env max_repeats now lookup_error input_error request refused world).1
  Limited-let_through request refused world fresh few =
      let (result, calls, ids) =
        let_through env max_repeats now lookup_error input_error request refused world few in
      let stored = stored_call env max_repeats now lookup_error input_error request refused world in
      (
        AreIdsFresh-same (add_call stored world) _ calls ids
            (add_call-AreIdsFresh stored world fresh (id-stored request refused world)),
        λ key held.
            rw (repeats-let_through key request refused world fresh few)
              (below key request refused world few held),
      )

  Limited-held_back :
      (request : CallRequest) (refused : Option Refusal) (world : World)
      → AreIdsFresh world
      → max_repeats
        ≤ repeats (own_key env max_repeats now lookup_error input_error request) world + 1
      → Limited world
          (refuse_or_request env max_repeats now lookup_error input_error request refused world).1
  Limited-held_back request refused world fresh many =
      let (stops, calls, ids) =
        held_back env max_repeats now lookup_error input_error request refused world many in
      let after =
        (refuse_or_request env max_repeats now lookup_error input_error request refused world).1 in
      (
        AreIdsFresh-same world after calls ids fresh,
        λ key held. rw (repeats-same key world after calls) held,
      )

  begin_call-Limited :
      (request : CallRequest) (world : World)
      → AreIdsFresh world
      → Limited world (begin_call env max_repeats now lookup_error input_error request world).1
  unfolding begin_call
  begin_call-Limited request world fresh =
      let refused = refusal env max_repeats now lookup_error input_error request in
      let own = own_key env max_repeats now lookup_error input_error request in
      elim (Bool-cases (ltb (repeats own world + 1) max_repeats)) [
        | inl few ↦ Limited-let_through request refused world fresh (ground arith)
        | inr many ↦ Limited-held_back request refused world fresh (ground arith)
      ]

  -- the calls that agents ask for, one after the other; a call that is held back raises
  unfoldable pub begin_calls : List CallRequest → World → World
  begin_calls [] world = world
  begin_calls (request ∷ requests) world =
      begin_calls requests (begin_call env max_repeats now lookup_error input_error request world).1

  -- However often and in whatever order agents ask for calls, a session never holds max_repeats
  -- calls of one agent, tool and input hash, if it held fewer at first and ids are fresh.
  pub begin_calls-limit :
      (requests : List CallRequest) (key : CallKey) (world : World)
      → AreIdsFresh world
      → repeats key world < max_repeats
      → repeats key (begin_calls requests world) < max_repeats
  unfolding begin_calls
  begin_calls-limit [] key world fresh held = held
  begin_calls-limit (request ∷ requests) key world fresh held =
      let (still, limit) = begin_call-Limited request world fresh in
      begin_calls-limit requests key
        (begin_call env max_repeats now lookup_error input_error request world).1 still
        (limit key held)

  -- While a session holds fewer than max_repeats - 1 calls with the agent, tool and input of a
  -- request, the request is stored as one more, refused or pending, and returned; ids must be fresh.
  pub begin_call-stores :
      (request : CallRequest) (world : World)
      → AreIdsFresh world
      → let own = own_key env max_repeats now lookup_error input_error request in
        repeats own world + 1 < max_repeats
        → let begun = begin_call env max_repeats now lookup_error input_error request world in
          let refused = refusal env max_repeats now lookup_error input_error request in
          (begun.0
            ≡ ok (stored_call env max_repeats now lookup_error input_error request refused world))
          × (repeats own begun.1 ≡ repeats own world + 1)
  unfolding begin_call
  begin_call-stores request world fresh few =
      let refused = refusal env max_repeats now lookup_error input_error request in
      let own = own_key env max_repeats now lookup_error input_error request in
      let counted = repeats-let_through own request refused world fresh few in
      (
        (let_through env max_repeats now lookup_error input_error request refused world few).0,
        rw (stored-own_key env max_repeats now lookup_error input_error request refused world) at
            counted,
      )

  -- Once a session holds max_repeats - 1 calls with the agent, tool and input of a request, the
  -- request raises RuntimeError and stores no call.
  pub begin_call-blocks :
      (request : CallRequest) (world : World)
      → let own = own_key env max_repeats now lookup_error input_error request in
        max_repeats ≤ repeats own world + 1
        → let begun = begin_call env max_repeats now lookup_error input_error request world in
          (begun.0 ≡ raised runtime_error) × (begun.1.tool_calls ≡ world.tool_calls)
  unfolding begin_call
  begin_call-blocks request world many =
      let refused = refusal env max_repeats now lookup_error input_error request in
      let (stops, calls, ids) =
        held_back env max_repeats now lookup_error input_error request refused world many in
      (stops, calls)
