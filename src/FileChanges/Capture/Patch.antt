-- ===== src/FileChanges/Capture/Patch.antt =====
-- `_build_captures_for_patch` (file_changes/file_change_service.py). It runs after the tool: `files` is
-- the workspace as the patch has left it.
use agent_v.Prelude.{
  String, not, ◌&&◌, ◌||◌, Option, none, some, List, [], ◌∷◌, ◌++◌, is_none, str_eq, if◌then◌else◌,
}
use agent_v.Json.{Json, arr, obj, Items, nil, cons, Fields, end, get, truthy, text_of}
use agent_v.Env.{Env}
use agent_v.Files.{Files}
use agent_v.World.Rows.{FileOperation}
use agent_v.FileChanges.{FileEnv}
use agent_v.FileChanges.Capture.{FileChangeCapture}
use agent_v.FileChanges.Capture.Build.{json_text, json_count, text_or_empty, or_text, read_now}
use agent_v.FileChanges.Revert.{hash_of}

-- `a or b`
abbrev or_json : Option Json → Option Json → Option Json
or_json a b = if truthy a then a else b

-- `list(output.get("changed_files") or metadata.get("changed_files") or [])`
abbrev changed_files : Option Json → Items
changed_files (some (arr items)) = items
changed_files _ = nil

-- `op if op in {"add", "update", "delete"} else "patch"`, of `str(entry.get("type") or "update")`
abbrev patch_operation : String → FileOperation
patch_operation op =
    if str_eq op "add"
    then FileOperation.add
    else if str_eq op "update" || str_eq op ""
    then FileOperation.update
    else if str_eq op "delete"
    then FileOperation.delete
    else FileOperation.patch

-- the text goes before a deletion, and after any other change
abbrev before_of : FileOperation → Option String → Option String
before_of FileOperation.delete now = now
before_of _ now = none

abbrev after_of : FileOperation → Option String → Option String
after_of FileOperation.delete now = none
after_of _ now = now

module _ (env : Env) (file_env : FileEnv) (files : Files) where
  unfoldable pub capture_entry : Fields → String → FileChangeCapture
  capture_entry entry target =
      let operation = patch_operation (text_of (get entry "type")) in
      let now = read_now file_env files target in
      let before = before_of operation now in
      let after = after_of operation now in
      let relative_path = file_env.relative_path target in
      record {
        tool_name = "patch.apply";
        operation = operation;
        relative_path = relative_path;
        resolved_path = target;
        before_sha256 = hash_of env before;
        after_sha256 = hash_of env after;
        before_content = before;
        after_content = after;
        diff =
            or_text
              (some
                (file_env.unified_diff (text_or_empty before) (text_or_empty after) relative_path))
              none;
        additions = json_count (get entry "additions");
        deletions = json_count (get entry "deletions");
        replacement_count = 1;
        backup_path = none;
        metadata = end;
      }

  -- an entry that is a dictionary with a path in the workspace
  capture_of : Json → List FileChangeCapture
  unfolding capture_entry
  capture_of (obj entry) =
      let raw_path = text_of (get entry "path") in
      let target = if file_env.is_absolute raw_path then raw_path else file_env.resolve raw_path in
      if not (str_eq raw_path "") && file_env.is_inside target
      then capture_entry entry target ∷ []
      else []
  capture_of _ = []

  captures_of : Items → List FileChangeCapture
  unfolding capture_of
  captures_of nil = []
  captures_of (cons entry entries) = capture_of entry ++ captures_of entries

  unfoldable pub build_captures_for_patch : Fields → Fields → Fields → List FileChangeCapture
  unfolding captures_of
  build_captures_for_patch input_json output metadata =
      if truthy (get metadata "dry_run") || is_none (json_text (get input_json "patch_text"))
      then []
      else captures_of
          (changed_files (or_json (get output "changed_files") (get metadata "changed_files")))
