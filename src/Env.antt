-- ===== src/Env.antt =====
-- What the runtime calls and does not implement: Python's `re`, `json`, `hashlib` and `uuid`, the
-- text of a date, and the table of registered tools at the time of the call. All are parameters.
use agent_v.Prelude.{ℕ, String, Bool}
use agent_v.Json.{Json}
use agent_v.World.Rows.{SystemEvent}

pub record Env : Type 0 where
  -- `PATTERN.sub(…, text)` of the five patterns of core/redaction.py
  pub sub_private_key : String → String
  pub sub_bearer : String → String
  pub sub_assignment : String → String
  pub sub_json_assignment : String → String
  pub sub_long_token : String → String
  -- `SENSITIVE_KEY_RE.search(key)` finds a match
  pub key_matches : String → Bool
  -- `json.dumps(value, sort_keys=True, separators=(",", ":"), default=str)`
  pub dumps : Json → String
  -- `hashlib.sha256(text.encode("utf-8")).hexdigest()`
  pub sha256 : String → String
  -- `str(uuid)` and `datetime.isoformat()`
  pub uuid_text : ℕ → String
  -- an `int` in an f-string
  pub number_text : ℕ → String
  pub time_text : ℕ → String
  -- `tool_registry.get(name)` does not raise
  pub registered : String → Bool
  -- `EventBus._redis_enabled()`, and whether Redis takes the event's envelope in `_publish_redis`
  pub redis_pubsub : Bool
  pub redis_publish : SystemEvent → Bool
