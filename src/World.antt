-- ===== src/World.antt =====
-- The state that the runtime services share: the database of one `AsyncSession`, the subscribers of
-- the event bus, the Redis list and the in-process fallback list of the queue.
pub mod Rows
use agent_v.Prelude.{ℕ, String, List}
use agent_v.Table.{Table}
use agent_v.Files.{Files}
use Rows.{
  QueueJobRecord, AgentRun, Session, ToolCall, PermissionRequest, HumanInputRequest, Message,
  AuditLog, SystemEvent, FileChange,
}

-- `_global_subscribers` and `_session_subscribers` of runtime/event_bus.py; a socket is a number.
pub record Bus : Type 0 where
  pub global_subscribers : List ℕ
  pub session_subscribers : List (ℕ × List ℕ)

-- one `_broadcast_send` task: the event and the sockets that it goes to
pub record Broadcast : Type 0 where
  pub event : SystemEvent
  pub targets : List ℕ

pub record World : Type 0 where
  pub jobs : Table QueueJobRecord
  pub runs : Table AgentRun
  pub sessions : Table Session
  pub tool_calls : Table ToolCall
  pub permissions : Table PermissionRequest
  pub human_inputs : Table HumanInputRequest
  pub file_changes : Table FileChange
  pub messages : List Message
  pub audits : List AuditLog
  pub events : List SystemEvent
  pub bus : Bus
  pub broadcasts : List Broadcast
  -- the queue's Redis list and `_local_fallback_queue`, as job ids
  pub redis_items : List ℕ
  pub local_items : List ℕ
  -- the files of the workspace
  pub files : Files
  -- the next `uuid4()`
  pub fresh : ℕ
