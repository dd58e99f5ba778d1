-- ===== src/Messages.antt =====
-- `MessageService.create_assistant` (runtime/message_service.py) and `serialize_message`
-- (runtime/session_service.py). A message's time of creation is set by the database and is left out.
use agent_v.Prelude.{ℕ, ◌+◌, String, none, some, [], ◌∷◌, ◌++◌}
use agent_v.Json.{Json, str, arr, obj, nil, cons, Fields, end, field}
use agent_v.Env.{Env}
use agent_v.Redaction.{redact_text, redact_data}
use agent_v.Events.{message_created, info}
use agent_v.World.{World}
use agent_v.World.Rows.{Session, Message}
use agent_v.Exec.{Exec, return, read, modify, ◌>>=◌, ◌>>◌}
use agent_v.EventBus.{publish}

-- `text_part`: the parts of a message that is only text
unfoldable pub text_part : String → Json
text_part text =
    obj (field "type" (str "text") (field "text" (str text) (field "metadata" (obj end) end)))

module _ (env : Env) where
  unfoldable pub serialize_message : Message → Json
  serialize_message message = obj (
      field "id" (str (env.uuid_text message.id)) (
        field "session_id" (str (env.uuid_text message.session_id)) (
          field "role" (str message.role) (
            field "content" (str (redact_text env message.content)) (
              field "parts" (redact_data env message.parts)
                (field "metadata" (redact_data env (obj message.metadata_json)) end))))))

  abbrev assistant_message : Session → String → Fields → ℕ → Message
  assistant_message session content metadata id = record {
    id = id;
    tenant = session.tenant;
    session_id = session.id;
    role = "assistant";
    content = content;
    parts = arr (cons (text_part content) nil);
    metadata_json = metadata;
  }

  abbrev add_message : Message → World → World
  add_message message world = record world {
    messages = world.messages ++ message ∷ [];
    fresh = world.fresh + 1;
  }

  unfoldable pub create_assistant : Session → String → Fields → Exec World Message
  unfolding publish
  create_assistant session content metadata = do
    message ← read (λ world. assistant_message session content metadata world.fresh)
    modify (add_message message)
    publish env (record {
      tenant = some session.tenant;
      session_id = some session.id;
      agent_run_id = none;
      tool_call_id = none;
      event_type = message_created;
      severity = info;
      payload = obj (field "message" (serialize_message message) end);
    })
    return message
