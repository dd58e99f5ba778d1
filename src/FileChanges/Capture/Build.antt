-- ===== src/FileChanges/Capture/Build.antt =====
-- `_build_capture_for_write` and `_build_capture_for_edit` (file_changes/file_change_service.py). They
-- run after the tool: `files` is the workspace as the tool has left it.
use mathlib.Core.Option
use agent_v.Prelude.{
  universal_newlines, ℕ, suc, ◌+◌, String, Bool, not, ◌&&◌, ◌||◌, Option, none, some, List, [], ◌∷◌,
  is_none, newlines, ends_with_newline, text_given, starts_with, str_eq, if◌then◌else◌,
}
use agent_v.Json.{Json, bool, num, str, Fields, end, field, get, truthy}
use agent_v.Env.{Env}
use agent_v.Files.{Files}
use agent_v.Files
use agent_v.World.Rows.{FileOperation}
use agent_v.FileChanges.{FileEnv}
use agent_v.FileChanges.Capture.{FileChangeCapture}

-- `value if isinstance(value, str) else None`
abbrev pub json_text : Option Json → Option String
json_text (some (str s)) = some s
json_text _ = none

-- `int(value or 0)` of a count
abbrev pub json_count : Option Json → ℕ
json_count (some (num n)) = n
json_count _ = 0

-- `str(input_json.get("content", ""))`, where the input model has made it a text
abbrev pub text_or_empty : Option String → String
text_or_empty none = ""
text_or_empty (some s) = s

-- the number of lines: a last line counts also without its line break
unfoldable pub line_count : Option String → ℕ
line_count none = 0
line_count (some text) =
    newlines text + (if not (str_eq text "") && not (ends_with_newline text) then 1 else 0)

-- `a or b`, where b may be None
abbrev pub or_text : Option String → Option String → Option String
or_text none b = b
or_text (some a) b = if str_eq a "" then b else some a

-- the text of a file, with its newlines translated, if it is there and can be read
abbrev pub read_now : FileEnv → Files → String → Option String
read_now file_env files path =
    if file_env.read_fails path then none else Option.map universal_newlines (Files.read files path)

-- the recorded text if there is one; else, if a hash was recorded, the text that is there now
abbrev pub recorded_or_read : Option String → Option String → Option String → Option String
recorded_or_read (some text) hash now = some text
recorded_or_read none hash now = if text_given hash then now else none

-- the counts of the lines of a diff
abbrev is_added : String → Bool
is_added line = starts_with line "+" && not (starts_with line "+++")

abbrev is_removed : String → Bool
is_removed line = not (is_added line) && (starts_with line "-" && not (starts_with line "---"))

count_lines : (String → Bool) → List String → ℕ
count_lines test [] = 0
count_lines test (line ∷ lines) =
    let rest = count_lines test lines in if test line then suc rest else rest

-- the target and its path in the workspace, if the input has a path and it is inside
target_of : FileEnv → Option String → Option (String × String)
target_of file_env none = none
target_of file_env (some path) =
    let target = file_env.resolve path in
    if not (str_eq path "") && file_env.is_inside target
    then some (target, file_env.relative_path target)
    else none

module _ (env : Env) (file_env : FileEnv) (files : Files) where
  write_capture : Fields → Fields → Option (String × String) → Option FileChangeCapture
  unfolding line_count
  write_capture input_json metadata none = none
  write_capture input_json metadata (some (target, relative_path)) =
      let content = text_or_empty (json_text (get input_json "content")) in
      let previous_sha = json_text (get metadata "previous_sha256") in
      let before =
        recorded_or_read (json_text (get metadata "before_content")) previous_sha
          (read_now file_env files target) in
      let is_create = truthy (get metadata "created") && not (text_given before) in
      let diff = file_env.unified_diff (text_or_empty before) content relative_path in
      some (record {
        tool_name = "write.file";
        operation = if is_create then FileOperation.add else FileOperation.write;
        relative_path = relative_path;
        resolved_path = target;
        before_sha256 = previous_sha;
        after_sha256 = or_text (json_text (get metadata "sha256")) (some (env.sha256 content));
        before_content = before;
        after_content = some content;
        diff = or_text (some diff) none;
        additions = line_count (some content);
        deletions = line_count before;
        replacement_count = 1;
        backup_path = json_text (get metadata "backup_path");
        metadata = field "created" (bool is_create) end;
      })

  unfoldable pub build_capture_for_write : Fields → Fields → Option FileChangeCapture
  unfolding write_capture target_of
  build_capture_for_write input_json metadata =
      write_capture input_json metadata (target_of file_env (json_text (get input_json "path")))

  edit_capture : Fields → Option (String × String) → Option FileChangeCapture
  unfolding count_lines
  edit_capture metadata none = none
  edit_capture metadata (some (target, relative_path)) =
      let before_sha = json_text (get metadata "before_sha256") in
      let after_sha = json_text (get metadata "after_sha256") in
      let diff = or_text (json_text (get metadata "diff")) none in
      let lines = file_env.splitlines (text_or_empty diff) in
      if (text_given before_sha || text_given after_sha) && not (is_none diff)
      then some (record {
        tool_name = "edit.file";
        operation = FileOperation.edit;
        relative_path = relative_path;
        resolved_path = target;
        before_sha256 = before_sha;
        after_sha256 = after_sha;
        before_content =
            recorded_or_read (json_text (get metadata "before_content")) before_sha
              (read_now file_env files target);
        after_content =
            recorded_or_read (json_text (get metadata "after_content")) after_sha
              (read_now file_env files target);
        diff = diff;
        additions = count_lines is_added lines;
        deletions = count_lines is_removed lines;
        replacement_count = json_count (get metadata "replacements");
        backup_path = none;
        metadata = end;
      })
      else none

  unfoldable pub build_capture_for_edit : Fields → Fields → Option FileChangeCapture
  unfolding edit_capture target_of
  build_capture_for_edit input_json metadata =
      if truthy (get metadata "dry_run")
      then none
      else edit_capture metadata (target_of file_env (json_text (get input_json "path")))
