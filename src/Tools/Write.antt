-- ===== src/Tools/Write.antt =====
-- `WriteFileTool.run` (tools/write.py). That the parent directory is made is left out, with the other
-- directories; `output` repeats a part of `metadata` and is left out.
use Prim.Native.String.{len}
use agent_v.Prelude.{
  universal_newlines, String, Bool, true, not, ◌&&◌, ◌||◌, Option, none, some, is_none, text_given,
  if◌then◌else◌,
}
use agent_v.Json.{Json, null, bool, num, str, Fields, end, field, text_or_null}
use agent_v.Env.{Env}
use agent_v.Files
use agent_v.Files.{Files}
use agent_v.World.{World}
use agent_v.Exec.{
  Exec, os_error, permission_error, file_not_found_error, is_a_directory_error, return, read,
  require, ◌>>=◌, ◌>>◌,
}
use agent_v.FileChanges.{FileEnv}
use agent_v.FileChanges.Revert.{write_file, hash_of, text_is}
use agent_v.Tools.{ToolResult, failure, success}

pub record WriteFileInput : Type 0 where
  pub path : String
  pub content : String
  pub create_dirs : Bool
  pub backup : Bool
  pub expected_existing_hash : Option String

-- what the tool asks of the directories: the path is one, its parent is there; and the name of a
-- backup of the file, which holds the time
pub record WriteEnv : Type 0 where
  pub is_directory : String → Bool
  pub parent_exists : String → Bool
  pub backup_name : String → String

-- `if input_data.expected_existing_hash and before_hash != input_data.expected_existing_hash`
abbrev is_stale : Option String → Option String → Bool
is_stale expected before_hash = text_given expected && not (text_is before_hash expected)

-- the size in bytes, where there is a text
abbrev size_or_null : Option String → Json
size_or_null none = null
size_or_null (some text) = num (len text)

abbrev pub write_metadata :
    Env → WriteFileInput → String → Option String → Option String → Option String → Fields
write_metadata env input target before before_content backup_path = field "path" (str input.path) (
    field "resolved_path" (str target) (
      field "bytes_written" (num (len input.content)) (
        field "sha256" (str (env.sha256 input.content)) (
          field "backup_path" (text_or_null backup_path) (
            field "created" (bool (is_none before)) (
              field "overwritten" (bool (not (is_none before))) (
                field "previous_sha256" (text_or_null (hash_of env before)) (
                  field "before_content" (text_or_null before_content)
                    (field "before_size_bytes" (size_or_null before_content) end)))))))))

module _ (env : Env) (file_env : FileEnv) (write_env : WriteEnv) where
  -- The backup is made of the bytes. What goes into the metadata is read as text, with its newlines
  -- translated.
  make_backup : Bool → String → Option String → Exec World (Option String × Option String)
  unfolding write_file
  make_backup true target (some text) = do
    write_file env file_env (write_env.backup_name target) text
    return (some (write_env.backup_name target), some (universal_newlines text))
  make_backup _ target before = return (none, none)

  -- from the test of the expected hash on
  replace_file : WriteFileInput → String → Option String → Exec World ToolResult
  unfolding make_backup write_file
  replace_file input target before =
      if is_stale input.expected_existing_hash (hash_of env before)
      then return (failure "stale_file_hash" true)
      else (do
        backup ← make_backup input.backup target before
        write_file env file_env target input.content
        return (success (write_metadata env input target before backup.1 backup.0)))

  unfoldable pub run_write : WriteFileInput → Exec World ToolResult
  unfolding replace_file
  run_write input = do
    let target = file_env.resolve input.path
    require (file_env.is_inside target) permission_error
    require (not (write_env.is_directory target)) is_a_directory_error
    require (write_env.parent_exists target || input.create_dirs) file_not_found_error
    before ← read (λ world. Files.read world.files target)
    require (is_none before || not (file_env.read_fails target)) os_error
    replace_file input target before
