-- ===== src/Lib.antt =====
-- The agent runtime of backend/app: its durable job queue, the worker that runs the jobs, the
-- services that hold tool calls back until a person permits them or answers a question, the guard
-- against repeated calls, the record of what tools change in the workspace with its reverts, and
-- the event bus, messages and redaction that these use.
--
-- How the parts interact: a service method runs in one database session. It loads rows, changes
-- them, adds audit rows, and calls `event_bus.publish` (backend/app/runtime/event_bus.py), which
-- stores an event with a redacted payload and sends it to the subscribed sockets. A request to run
-- an agent becomes a row of `queue_jobs` and an id in the queue's list; the worker takes an id from
-- the list, claims the row, commits, does the work, and completes or fails the row. A denied
-- permission fails the run of its tool call. A tool that changes files leaves rows of
-- `file_changes`, and the routes revert them, one or a batch, after an approval where the settings
-- ask for one. Files are no part of a transaction: a rollback of the database leaves them.
--
-- Which file models what:
-- - World and World/Rows: the shared state: the rows of backend/app/db/models.py that the services
--   read and write, the subscribers, the broadcasts begun, and the lists of the queue. Table is a
--   table by primary key. UUIDs and dates are natural numbers, a date in whole seconds.
-- - Exec: a service method as a function from the state to its result or exception and the state.
-- - Env: what the code calls and does not implement: regular expressions, json.dumps, SHA-256, the
--   text of a UUID and of a date, the tool registry and the Redis client. The variables of the
--   process's environment are an argument of scrub_process_env.
-- - Json: JSON values; Redaction and Redaction/Safety: backend/app/core/redaction.py; Events:
--   backend/app/core/events.py; EventBus, /Sockets and /Delivery: backend/app/runtime/event_bus.py;
--   Messages: backend/app/runtime/message_service.py and the serializer of session_service.py.
-- - Queue and below: backend/app/queue/jobs.py: Transport (publish_job, dequeue), Claim (claim_job,
--   start_claimed_job), Finish (complete_job, fail_job), Manual (retry_job, cancel_job), Abandon
--   (mark_job_failed), Enqueue (_get_or_create_job and the four enqueue methods); Lifecycle puts
--   the operations on one row together, with the table of its statuses in Lifecycle/Transitions.
--   Queue/Worker: one round of `QueueWorker.run` (backend/app/queue/worker.py).
-- - Permissions and below: backend/app/permissions/service.py: Context (_load_resume_context),
--   Service (create_request, approve, deny, resolve) and Listing (list_pending); and
--   backend/app/permissions/policy.py: Policy (evaluate_default_policy).
-- - HumanInput and below: backend/app/runtime/human_input_service.py: Context
--   (_load_resume_context), Changes (what is written into the rows), Service (create_request,
--   answer, cancel, expire_request; what they leave is in Answers, Endings and Choices), Listing
--   (list_requests, expire_pending).
-- - LoopGuard and below: backend/app/runtime/loop_guard.py. ToolExecutor and below:
--   `ToolExecutor.execute` (backend/app/runtime/tool_executor.py) up to the policy's decision: the
--   stored call; Decision (its denial, or the permission request that it waits for) and
--   Decision/Question (question.ask).
-- - Files: the text files of the workspace by path, with the bytes of a text as they are;
--   Prelude/Texts has the newline translation of Path.read_text. Tools and Tools/Write:
--   `WriteFileTool.run` (backend/app/tools/write.py).
-- - FileChanges and below: backend/app/file_changes/file_change_service.py: Capture
--   (_persist_capture), Capture/Build and Capture/Patch (the _build_capture functions),
--   Capture/Record (capture_for_tool_call), Git (restore_from_git_head), Revert (revert_file_change
--   and its checks), Batch (revert_file_changes_batch); and backend/app/api/routes_file_changes.py:
--   Approval (the request to revert and its check) and Routes (the two routes that revert).
-- - Tests: a concrete world, and the theorems applied in it.
--
-- Conventions: a method takes the time it reads as an argument; where it reads the clock twice,
-- both are the same second. A row that another transaction has locked, another transaction's commit
-- between two statements, and what one call of Redis does are arguments of the operation; closing
-- the Redis client is taken not to raise. A service saves the whole row that it has loaded and
-- changed, since what others commit between the two is left out; only `complete_job`, which comes
-- after the work of the job, writes just the columns that differ from those loaded, as the ORM
-- does. The work of a job (`execute_job`) is a parameter of the worker, any function that changes
-- the database or raises. The retry delay, a float in the code, is a whole number of seconds. There
-- is no fuel: all functions are structurally recursive.
--
-- Not modelled: the order of rows by creation time, the texts of exceptions, logging, heartbeats,
-- the timing of broadcast tasks and Redis forwarding, the in-memory database of the unit tests
-- (`hasattr(db, "objects")`), the other HTTP routes, the command line, code intelligence, MCP,
-- plugins, memory, the agent runner, the other tools, and the tool executor from an allowed call
-- on. Of file changes: the two functions that read (list_file_changes, serialize_file_change),
-- sizes and dates of rows, directories, links and bytes that are not UTF-8.
pub mod Env
pub mod EventBus
pub mod Events
pub mod Exec
pub mod FileChanges
pub mod Files
pub mod HumanInput
pub mod Json
pub mod LoopGuard
pub mod Messages
pub mod Permissions
pub mod Prelude
pub mod Queue
pub mod Redaction
pub mod Table
pub mod Tests
pub mod ToolExecutor
pub mod Tools
pub mod World
