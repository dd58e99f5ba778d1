-- ===== src/EventBus.antt =====
-- runtime/event_bus.py: the stored events, the subscribed sockets and who an event is sent to. A
-- socket's Redis forwarding task is not modelled, nor when a broadcast task runs.
pub mod Sockets
pub mod Delivery
use agent_v.Prelude.{
  ℕ, ◌==◌, Bool, true, false, not, Option, none, some, List, [], ◌∷◌, ◌++◌, ◌&&◌, is_none,
  if◌then◌else◌,
}
use agent_v.Env.{Env}
use agent_v.Redaction.{redact_data}
use agent_v.World.{World, Bus, Broadcast}
use agent_v.World.Rows.{SystemEvent}
use agent_v.Exec.{Exec, modify}
use Sockets.{add, discard, union, sockets_of, update, discard_all}

-- `_broadcast`: the global subscribers, and those of the session if one is given
unfoldable pub targets_of : Bus → Option ℕ → List ℕ
unfolding union sockets_of
targets_of bus none = bus.global_subscribers
targets_of bus (some session_id) =
    union bus.global_subscribers (sockets_of session_id bus.session_subscribers)

-- `if not targets: return`, and a task for them otherwise
pub broadcast_task : SystemEvent → List ℕ → List Broadcast
broadcast_task event [] = []
broadcast_task event (w ∷ ws) = record { event = event; targets = w ∷ ws } ∷ []

unfoldable pub broadcast : SystemEvent → Option ℕ → World → World
unfolding broadcast_task
broadcast event session_id world = record world {
  broadcasts = world.broadcasts ++ broadcast_task event (targets_of world.bus session_id);
}

module _ (env : Env) where
  -- If Redis took the envelope, the session's sockets get it from there.
  abbrev pub audience : SystemEvent → Option ℕ
  audience event =
      if env.redis_pubsub && not (is_none event.session_id)
      then (if env.redis_publish event then none else event.session_id)
      else event.session_id

  abbrev pub safe_event : SystemEvent → SystemEvent
  safe_event event = record event { payload = redact_data env event.payload }

  unfoldable pub publish : SystemEvent → Exec World Unit
  unfolding broadcast
  publish event =
      let stored = safe_event event in
      modify (λ world.
        broadcast stored (audience stored) (record world { events = world.events ++ stored ∷ [] }))

unfoldable pub subscribe : ℕ → Option ℕ → Bus → Bus
unfolding add update
subscribe socket none bus = record bus { global_subscribers = add socket bus.global_subscribers }
subscribe socket (some session_id) bus = record bus {
  session_subscribers = update (add socket) session_id bus.session_subscribers;
}

unfoldable pub unsubscribe : ℕ → Option ℕ → Bus → Bus
unfolding discard update
unsubscribe socket none bus = record bus {
  global_subscribers = discard socket bus.global_subscribers;
}
unsubscribe socket (some session_id) bus = record bus {
  session_subscribers = update (discard socket) session_id bus.session_subscribers;
}

-- `_broadcast_send`, after the sends: the sockets whose send failed are dropped everywhere
unfoldable pub drop_stale : List ℕ → Bus → Bus
unfolding discard discard_all
drop_stale [] bus = bus
drop_stale (socket ∷ rest) bus = drop_stale rest (record {
  global_subscribers = discard socket bus.global_subscribers;
  session_subscribers = discard_all socket bus.session_subscribers;
})
