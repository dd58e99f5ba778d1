-- ===== src/Tests/Events.antt =====
-- core/redaction.py and runtime/event_bus.py at concrete inputs.
use agent_v.Prelude.{List, All, any, ◌||◌, false, ◌≡◌, refl, none, some, [], ◌∷◌, ◌++◌}
use agent_v.Json.{num, str, obj, Fields, end, field, keys}
use agent_v.Redaction.{is_sensitive_key, redact_data, redact_fields, scrub_process_env}
use agent_v.Redaction.Safety.{Hidden, redact_data_safe, lookup_env, lookup-scrub_process_env}
use agent_v.EventBus.{targets_of, drop_stale, publish}
use agent_v.EventBus.Sockets.{member}
use agent_v.EventBus.Delivery.{targets-drop_stale, in_session, publish-reaches}
use agent_v.World.{Broadcast}
use agent_v.Tests.Data.{env, bus, world, event}

abbrev payload : Fields
payload = field "id" (num 4) (field "token" (str "abc") end)

redacted_payload :
    redact_data env (obj payload) ≡ obj (field "id" (num 4) (field "token" (str "[REDACTED]") end))
unfolding redact_data redact_fields is_sensitive_key
redacted_payload = refl

redact_data_safe_example :
    Hidden env (redact_data env (obj payload)) × (keys (redact_fields env payload) ≡ keys payload)
redact_data_safe_example = redact_data_safe env payload

lookup-scrub_process_env_example :
    (lookup_env "token" (scrub_process_env env (("HOME", "/") ∷ []) (some (("token", "abc") ∷ [])))
      ≡ none)
    × (lookup_env "token" (scrub_process_env env (("HOME", "/") ∷ []) (some [])) ≡ none)
    × (lookup_env "token" (scrub_process_env env (("HOME", "/") ∷ []) none) ≡ none)
unfolding is_sensitive_key
lookup-scrub_process_env_example =
    lookup-scrub_process_env env "token" (("HOME", "/") ∷ []) [] ("token", "abc")

targets-drop_stale_example : member 3 (targets_of (drop_stale (1 ∷ 3 ∷ []) bus) (some 10)) ≡ false
targets-drop_stale_example = targets-drop_stale (1 ∷ 3 ∷ []) bus 3 10

publish-reaches_example :
    (added : List Broadcast) × ((publish env event world).1.broadcasts ≡ world.broadcasts ++ added)
    × All (λ sent. sent.event ≡ record event { payload = redact_data env event.payload }) added
    × (any (λ sent. member 3 sent.targets) added
        ≡ (member 3 world.bus.global_subscribers || in_session env 3 event world.bus))
    × ((publish env event world).1.events
        ≡ world.events ++ record event { payload = redact_data env event.payload } ∷ [])
publish-reaches_example = publish-reaches env 3 event world
