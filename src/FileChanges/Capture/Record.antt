-- ===== src/FileChanges/Capture/Record.antt =====
-- `build_captures_for_tool`, `capture_for_tool_call` and `capture_from_tool_call`
-- (file_changes/file_change_service.py).
use agent_v.Prelude.{
  String, Bool, ◌&&◌, ◌||◌, Option, none, some, List, [], ◌∷◌, str_eq, if◌then◌else◌,
}
use agent_v.Json.{bool, str, obj, Fields, end, field}
use agent_v.Env.{Env}
use agent_v.Events.{file_change_created, info}
use agent_v.Files.{Files}
use agent_v.World.{World}
use agent_v.World.Rows.{FileChange, RevertStatus}
use agent_v.Exec.{Exec, return, read, ◌>>=◌, ◌>>◌}
use agent_v.EventBus.{publish}
use agent_v.FileChanges.{FileEnv, operation_text}
use agent_v.FileChanges.Capture.{
  FileChangeCapture, FileChangeContext, CaptureSettings, persist_capture,
}
use agent_v.FileChanges.Capture.Build.{build_capture_for_write, build_capture_for_edit}
use agent_v.FileChanges.Capture.Patch.{build_captures_for_patch}

abbrev pub revert_status_text : RevertStatus → String
revert_status_text RevertStatus.not_reverted = "not_reverted"
revert_status_text RevertStatus.reverted = "reverted"
revert_status_text RevertStatus.revert_failed = "revert_failed"

-- `tool_name in FILE_CHANGE_TOOLS`
abbrev is_file_change_tool : String → Bool
is_file_change_tool tool_name =
    str_eq tool_name "write.file"
    || (str_eq tool_name "edit.file" || str_eq tool_name "patch.apply")

-- `[capture] if capture is not None else []`
abbrev optional_list : Option FileChangeCapture → List FileChangeCapture
optional_list none = []
optional_list (some capture) = capture ∷ []

module _ (env : Env) (file_env : FileEnv) where
  unfoldable pub build_captures_for_tool :
      String → Fields → Fields → Fields → Files → List FileChangeCapture
  build_captures_for_tool tool_name input_json output metadata files =
      if str_eq tool_name "write.file"
      then optional_list (build_capture_for_write env file_env files input_json metadata)
      else if str_eq tool_name "edit.file"
      then optional_list (build_capture_for_edit env file_env files input_json metadata)
      else if str_eq tool_name "patch.apply"
      then build_captures_for_patch env file_env files input_json output metadata
      else []

  publish_created : FileChange → Exec World Unit
  unfolding publish
  publish_created row = publish env (record {
    tenant = some row.tenant;
    session_id = some row.session_id;
    agent_run_id = row.agent_run_id;
    tool_call_id = row.tool_call_id;
    event_type = file_change_created;
    severity = info;
    payload = obj (
        field "id" (str (env.uuid_text row.id)) (
          field "file_change_id" (str (env.uuid_text row.id)) (
            field "tool_name" (str row.tool_name) (
              field "operation" (str (operation_text row.operation)) (
                field "relative_path" (str row.relative_path) (
                  field "revertible" (bool row.revertible) (
                    field "redacted" (bool row.redacted) (
                      field "revert_status" (str (revert_status_text row.revert_status))
                        end))))))));
  })

  persist_all :
      FileChangeContext → CaptureSettings → List FileChangeCapture → Exec World (List FileChange)
  unfolding persist_capture
  persist_all ctx settings [] = return []
  persist_all ctx settings (capture ∷ captures) = do
    row ← persist_capture env file_env ctx capture settings
    rows ← persist_all ctx settings captures
    return (row ∷ rows)

  publish_all : List FileChange → Exec World Unit
  unfolding publish_created
  publish_all [] = return tt
  publish_all (row ∷ rows) = do publish_created row; publish_all rows

  unfoldable pub capture_for_tool_call :
      FileChangeContext
      → CaptureSettings
      → String
      → Fields
      → Fields
      → Fields
      → Exec World (List FileChange)
  unfolding persist_all publish_all
  capture_for_tool_call ctx settings tool_name input_json output metadata = do
    captures ←
        read (λ world. build_captures_for_tool tool_name input_json output metadata world.files)
    rows ← persist_all ctx settings captures
    publish_all rows
    return rows

  unfoldable pub capture_from_tool_call :
      FileChangeContext
      → CaptureSettings
      → String
      → Fields
      → Fields
      → Fields
      → Exec World (List FileChange)
  unfolding capture_for_tool_call
  capture_from_tool_call ctx settings tool_name input_json output metadata =
      if settings.enabled && is_file_change_tool tool_name
      then capture_for_tool_call ctx settings tool_name input_json output metadata
      else return []
