-- ===== src/EventBus/Delivery.antt =====
-- Who an event reaches, and what is stored of it (runtime/event_bus.py).
use agent_v.Prelude.{
  Bool, false, Option, none, All, any, ◌∙◌, ℕ, ◌≡◌, refl, not, ◌||◌, ◌&&◌, some, List, [], ◌∷◌,
  ◌++◌, arith, ◌==◌, true, if◌then◌else◌,
}
use agent_v.Env.{Env}
use agent_v.Redaction.{redact_data}
use agent_v.World.{World, Bus, Broadcast}
use agent_v.World.Rows.{SystemEvent}
use agent_v.EventBus.Sockets.{
  member, discard, discard_all, sockets_of, member-add, member-discard, member-union,
  sockets_of-update, sockets_of-discard_all,
}
use agent_v.EventBus.{
  targets_of, subscribe, unsubscribe, drop_stale, broadcast_task, broadcast, audience, publish,
}

module _ (bus : Bus) (w v s t : ℕ) where
  -- Subscribing socket w to session s adds w to the targets of the events of s. Nothing else changes
  -- in the targets of any session's events.
  pub targets-subscribe :
      member v (targets_of (subscribe w (some s) bus) (some t))
      ≡ (member v (targets_of bus (some t)) || (s == t && w == v))
  unfolding targets_of subscribe
  targets-subscribe =
      simp (member-union, sockets_of-update)
        (ground (arith, member-add v w (sockets_of s bus.session_subscribers)))

  -- After socket w unsubscribed from session s it gets the events of s only as a global subscriber;
  -- other sockets and other sessions keep theirs.
  pub targets-unsubscribe : member v (targets_of (unsubscribe w (some s) bus) (some t)) ≡ (
      member v bus.global_subscribers
      || (not (s == t && w == v) && member v (targets_of bus (some t))))
  unfolding targets_of unsubscribe
  targets-unsubscribe =
      simp (member-union, sockets_of-update)
        (ground (arith, member-discard v w (sockets_of s bus.session_subscribers)))

discarded :
    (v w : ℕ) (bus : Bus) (t : ℕ)
    → member v (
        targets_of
          (record {
            global_subscribers = discard w bus.global_subscribers;
            session_subscribers = discard_all w bus.session_subscribers;
          })
          (some t))
      ≡ (not (w == v) && member v (targets_of bus (some t)))
unfolding targets_of
discarded v w bus t = simp (member-union, sockets_of-discard_all, member-discard) (ground arith)

-- After a broadcast, exactly the sockets whose send failed are gone from the targets of every
-- session.
pub targets-drop_stale :
    (stale : List ℕ) (bus : Bus) (v t : ℕ)
    → member v (targets_of (drop_stale stale bus) (some t))
      ≡ (not (member v stale) && member v (targets_of bus (some t)))
unfolding drop_stale
targets-drop_stale [] bus v t = refl
targets-drop_stale (w ∷ rest) bus v t = simp (targets-drop_stale rest, discarded) (ground arith)

any-broadcast_task :
    (v : ℕ) (event : SystemEvent) (targets : List ℕ)
    → any (λ (sent : Broadcast). member v sent.targets) (broadcast_task event targets)
      ≡ member v targets
unfolding broadcast_task
any-broadcast_task v event [] = refl
any-broadcast_task v event (w ∷ ws) = ground arith

All-broadcast_task :
    (event : SystemEvent) (targets : List ℕ)
    → All (λ (sent : Broadcast). sent.event ≡ event) (broadcast_task event targets)
unfolding broadcast_task
All-broadcast_task event [] = tt
All-broadcast_task event (w ∷ ws) = (refl, tt)

-- the sockets of a session's event, by whether Redis is in use (p) and has taken the event (q)
relayed :
    (v s : ℕ) (p q : Bool) (bus : Bus)
    → member v (targets_of bus (if p && true then (if q then none else some s) else some s)) ≡ (
        member v bus.global_subscribers
        || (not (p && q) && member v (sockets_of s bus.session_subscribers)))
unfolding targets_of
relayed v s true true bus = ground arith
relayed v s true false bus = member-union v _ _
relayed v s false q bus = member-union v _ _

module _ (env : Env) (v : ℕ) where
  -- v is subscribed to the event's session, and Redis has not taken the event to forward it there
  abbrev pub in_session : SystemEvent → Bus → Bool
  in_session event bus = elim event.session_id [
    | none ↦ false
    | some s ↦
        not (
          env.redis_pubsub
          && env.redis_publish (record event { payload = redact_data env event.payload }))
        && member v (sockets_of s bus.session_subscribers)
  ]

  member-audience :
      (event : SystemEvent) (session_id : Option ℕ) (bus : Bus)
      → event.session_id ≡ session_id
      → member v
          (targets_of bus (audience env (record event { payload = redact_data env event.payload })))
        ≡ (member v bus.global_subscribers || in_session event bus)
  unfolding targets_of
  member-audience event none bus e = rw e (ground arith)
  member-audience event (some s) bus e = rw e (
      relayed v s env.redis_pubsub
        (env.redis_publish
          (record event { session_id = some s; payload = redact_data env event.payload }))
        bus)

  -- Publishing stores one event, last, which is the given one with its payload redacted, and sends
  -- nothing but that event. A socket is sent it exactly if it is subscribed to all events, or to the
  -- event's session and Redis has not taken the event.
  pub publish-reaches :
      (event : SystemEvent) (world : World)
      → (added : List Broadcast) × ((publish env event world).1.broadcasts
          ≡ world.broadcasts ++ added)
        × All (λ sent. sent.event ≡ record event { payload = redact_data env event.payload }) added
        × (any (λ sent. member v sent.targets) added
            ≡ (member v world.bus.global_subscribers || in_session event world.bus))
        × ((publish env event world).1.events
            ≡ world.events ++ record event { payload = redact_data env event.payload } ∷ [])
  unfolding publish broadcast
  publish-reaches event world =
      let stored : SystemEvent = record event { payload = redact_data env event.payload } in
      let targets = targets_of world.bus (audience env stored) in
      (
        broadcast_task stored targets,
        refl,
        All-broadcast_task stored targets,
        any-broadcast_task v stored targets ∙ member-audience event event.session_id world.bus refl,
        refl,
      )
