-- ===== src/FileChanges/Revert.antt =====
-- `_validate_revert_preconditions` and `revert_file_change`
-- (file_changes/file_change_service.py): a recorded change is taken back.
pub mod Confined
pub mod Effect
pub mod Targets
use agent_v.Prelude.{
  ℕ, String, Bool, true, false, not, ◌&&◌, ◌||◌, Option, none, some, List, is_none, str_eq,
  text_given, if◌then◌else◌,
}
use agent_v.Json.{Json, null, bool, str, obj, Fields, end, field, set, opt_str}
use agent_v.Env.{Env}
use agent_v.Redaction.{redact_text}
use agent_v.Events
use agent_v.Events.{
  EventType, Severity, file_change_revert_requested, file_change_revert_failed,
  file_change_reverted,
}
use agent_v.Files
use agent_v.Files.{Files}
use agent_v.World.{World}
use agent_v.World.Rows.{FileChange, FileOperation, RevertStatus, SystemEvent}
use agent_v.Table
use agent_v.Exec.{
  Result, ok, raised, Error, os_error, file_change_error, FileChangeCode, Exec, return, raise, read,
  modify, require, ◌>>=◌, ◌>>◌,
}
use agent_v.EventBus.{publish}
use agent_v.FileChanges.{FileEnv, is_secret_filename, caught_code, operation_text}
use agent_v.FileChanges.Git.{restore_from_git_head}

-- the arguments of `revert_file_change` beside the change's id
pub record RevertOptions : Type 0 where
  pub actor_user_id : Option ℕ
  pub tool_call_id : Option ℕ
  pub force : Bool
  pub permission_request_id : Option ℕ
  pub secret_globs : List String
  pub git_fallback_enabled : Bool

abbrev pub is_reverted : RevertStatus → Bool
is_reverted RevertStatus.reverted = true
is_reverted _ = false

abbrev pub is_add : FileOperation → Bool
is_add FileOperation.add = true
is_add _ = false

-- an optional text equals a text
abbrev pub text_is : Option String → Option String → Bool
text_is (some a) (some b) = str_eq a b
text_is _ _ = false

-- `_file_sha256`
abbrev pub hash_of : Env → Option String → Option String
hash_of env none = none
hash_of env (some text) = some (env.sha256 text)

abbrev pub save_change : FileChange → World → World
save_change row world = record world { file_changes = Table.put world.file_changes row.id row }

abbrev pub reverted_row : ℕ → RevertOptions → Fields → FileChange → FileChange
reverted_row now options metadata row = record row {
  revert_status = RevertStatus.reverted;
  reverted_at = some now;
  reverted_by_user_id = options.actor_user_id;
  revert_tool_call_id = options.tool_call_id;
  revert_error = none;
  metadata_json = metadata;
}

abbrev pub revert_failed_row : String → FileChange → FileChange
revert_failed_row error row = record row {
  revert_status = RevertStatus.revert_failed;
  revert_error = some error;
}

abbrev found_change : Option FileChange → Exec World FileChange
found_change none = raise (file_change_error FileChangeCode.not_found)
found_change (some row) = return row

module _ (env : Env) (file_env : FileEnv) where
  -- The file is there, can be hashed, and has the recorded hash. A revert by force does not ask, nor
  -- does one of a change without a hash.
  unfoldable pub hash_matches : Bool → FileChange → Files → Bool
  hash_matches force row files =
      force
      || (not (text_given row.after_sha256)
          || (not (file_env.read_fails row.resolved_path)
              && text_is (hash_of env (Files.read files row.resolved_path)) row.after_sha256))

  -- the checks before the hash
  unfoldable pub validate_row : RevertOptions → FileChange → Exec World Unit
  validate_row options row = do
    require (not (is_reverted row.revert_status))
        (file_change_error FileChangeCode.already_reverted)
    require row.revertible (file_change_error FileChangeCode.not_revertible)
    require (not row.redacted) (file_change_error FileChangeCode.forbidden)
    require (file_env.is_inside row.resolved_path) (file_change_error FileChangeCode.forbidden)
    require (not (is_secret_filename file_env row.relative_path options.secret_globs))
        (file_change_error FileChangeCode.secret_requires_force)

  pub check_hash_now : RevertOptions → FileChange → Exec World Unit
  check_hash_now options row = do
    matches ← read (λ world. hash_matches options.force row world.files)
    require matches (file_change_error FileChangeCode.hash_mismatch)

  unfoldable pub validate_revert_preconditions : RevertOptions → Bool → FileChange → Exec World Unit
  unfolding validate_row check_hash_now
  validate_revert_preconditions options check_hash row = do
    validate_row options row
    if check_hash then check_hash_now options row else return tt

  -- what is put back, and whether it comes from git
  abbrev or_git : RevertOptions → FileChange → Option String → Option String × Bool
  or_git options row (some content) = (some content, false)
  or_git options row none =
      if not (is_add row.operation) && options.git_fallback_enabled
      then (let found = restore_from_git_head file_env row.relative_path in
          (found, not (is_none found)))
      else (none, false)

  unfoldable pub restore_content : RevertOptions → FileChange → Option String × Bool
  restore_content options row = or_git options row row.before_content

  -- `atomic_write_text` (tools/write.py): all or nothing
  unfoldable pub write_file : String → String → Exec World Unit
  write_file path text =
      if file_env.write_fails path
      then raise os_error
      else modify (λ world. record world { files = Files.write path text world.files })

  unfoldable pub unlink_file : String → Exec World Unit
  unlink_file path = do
    present ← read (λ world. not (is_none (Files.read world.files path)))
    if present
        then (if file_env.unlink_fails path
            then raise os_error
            else modify (λ world. record world { files = Files.unlink path world.files }))
        else return tt

  put_back : String → Option String → Exec World Unit
  unfolding write_file
  put_back path none = raise (file_change_error FileChangeCode.not_revertible)
  put_back path (some content) = write_file path content

  unfoldable pub apply_revert : FileOperation → String → Option String → Exec World Unit
  unfolding put_back unlink_file
  apply_revert FileOperation.add path content = unlink_file path
  apply_revert _ path content = put_back path content

  change_event : FileChange → EventType → Severity → Fields → SystemEvent
  change_event row event_type severity payload = record {
    tenant = some row.tenant;
    session_id = some row.session_id;
    agent_run_id = row.agent_run_id;
    tool_call_id = row.tool_call_id;
    event_type = event_type;
    severity = severity;
    payload = obj (
        field "id" (str (env.uuid_text row.id))
          (field "file_change_id" (str (env.uuid_text row.id)) payload));
  }

  publish_requested : RevertOptions → FileChange → Exec World Unit
  unfolding publish change_event
  publish_requested options row = publish env (
      change_event row file_change_revert_requested Events.info (
        field "relative_path" (str row.relative_path) (
          field "force" (bool options.force) (
            field "permission_request_id" (opt_str env.uuid_text options.permission_request_id)
              end))))

  -- the `except Exception` of the revert: the row and an event keep the error
  note_failure : FileChange → Error → Exec World Unit
  unfolding publish change_event
  note_failure row e = do
    let error = redact_text env (file_env.error_text e)
    modify (save_change (revert_failed_row error row))
    publish env (
        change_event row file_change_revert_failed Events.error
          (field "relative_path" (str row.relative_path) (field "error" (str error) end)))

  after_exception : FileChange → Error → Option FileChangeCode → Exec World Unit
  unfolding note_failure
  after_exception row e (some code) = raise e
  after_exception row e none = do
    note_failure row e
    raise (file_change_error FileChangeCode.generic)

  -- `try: … except FileChangeError: raise; except Exception: …`
  after_apply : FileChange → Result (Unit {0}) × World → Result (Unit {0}) × World
  unfolding after_exception
  after_apply row (ok done, world) = (ok done, world)
  after_apply row (raised e, world) = after_exception row e (caught_code e) world

  -- `metadata["restore_source"] = "git_head"`
  abbrev pub noted_source : Bool → Fields → Fields
  noted_source true metadata = set "restore_source" (str "git_head") metadata
  noted_source false metadata = metadata

  abbrev source_text : Bool → String
  source_text true = "git_head"
  source_text false = "stored_snapshot"

  finish_revert : ℕ → RevertOptions → FileChange → Bool → Exec World FileChange
  unfolding publish change_event
  finish_revert now options row from_git = do
    let reverted = reverted_row now options (noted_source from_git row.metadata_json) row
    modify (save_change reverted)
    publish env (
        change_event reverted file_change_reverted Events.info (
          field "tool_name" (str row.tool_name) (
            field "operation" (str (operation_text row.operation)) (
              field "relative_path" (str row.relative_path) (
                field "tool_call_id" (opt_str env.uuid_text options.tool_call_id) (
                  field "forced" (bool options.force) (
                    field "restore_source" (str (source_text from_git)) (
                      field "permission_request_id"
                        (opt_str env.uuid_text options.permission_request_id) end))))))))
    return reverted

  -- after the checks
  apply_and_finish : ℕ → RevertOptions → FileChange → Exec World FileChange
  unfolding after_apply finish_revert
  apply_and_finish now options row = do
    let restored = restore_content options row
    (λ world. after_apply row (apply_revert row.operation row.resolved_path restored.0 world))
    finish_revert now options row restored.1

  -- from the loaded row on
  revert_found : ℕ → RevertOptions → FileChange → Exec World FileChange
  unfolding publish_requested check_hash_now apply_and_finish
  revert_found now options row = do
    publish_requested options row
    validate_revert_preconditions options true row
    check_hash_now options row
    apply_and_finish now options row

  unfoldable pub revert_file_change : ℕ → RevertOptions → ℕ → Exec World FileChange
  unfolding revert_found
  revert_file_change now options file_change_id = do
    found ← read (λ world. Table.find world.file_changes file_change_id)
    row ← found_change found
    revert_found now options row
