-- ===== src/Events.antt =====
-- core/events.py: the kinds of events, and the two severities beside them that the services pass.
pub data EventType : Type 0 where
  session_created message_created agent_run_queued agent_run_started : EventType
  agent_run_resume_queued agent_run_resumed agent_run_step agent_run_completed : EventType
  agent_run_failed agent_run_blocked tool_call_requested tool_call_started : EventType
  tool_call_completed tool_call_failed permission_requested permission_approved : EventType
  permission_denied permission_resume_blocked model_call_started model_call_completed : EventType
  model_call_failed loop_guard_blocked worker_started worker_heartbeat worker_failed : EventType
  worker_stopped worker_job_failed worker_job_dead_lettered queue_job_created : EventType
  queue_job_claimed queue_job_started queue_job_completed queue_job_failed : EventType
  queue_job_retry_requested queue_job_retry_scheduled queue_job_cancel_requested : EventType
  queue_job_cancelled queue_job_dead_lettered todo_updated question_requested : EventType
  question_answered question_cancelled question_expired question_resume_blocked : EventType
  agent_run_waiting_human_input agent_run_resumed_from_human_input summary_created : EventType
  summary_failed summary_superseded memory_item_created memory_item_deduped : EventType
  compaction_needed compaction_queued compaction_started compaction_completed : EventType
  compaction_failed code_index_started code_index_file_indexed code_index_completed : EventType
  code_index_failed code_diagnostics_ingested mcp_server_connected mcp_server_failed : EventType
  mcp_tools_discovered mcp_tool_registered plugin_loaded plugin_failed : EventType
  plugin_hook_failed plugin_tool_registered file_change_created : EventType
  file_change_revert_requested file_change_revert_waiting_permission : EventType
  file_change_revert_approved file_change_revert_denied file_change_reverted : EventType
  file_change_revert_failed file_change_batch_revert_requested : EventType
  file_change_batch_reverted file_change_batch_revert_failed : EventType

pub data Severity : Type 0 where
  info warning error : Severity
