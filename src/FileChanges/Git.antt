-- ===== src/FileChanges/Git.antt =====
-- `restore_from_git_head` and `_is_path_inside` (file_changes/file_change_service.py).
use Prim.Native.String.{len}
use agent_v.Prelude.{
  ℕ, String, Bool, not, ◌&&◌, ◌||◌, Option, none, some, str_eq, starts_with, leb, if◌then◌else◌,
}
use agent_v.FileChanges.{FileEnv}

-- `MAX_GIT_OUTPUT_BYTES`
abbrev pub max_git_output_bytes : ℕ
max_git_output_bytes = 1048576

-- `_is_path_inside`: the path is safe to hand to git
unfoldable pub is_path_inside : FileEnv → String → Bool
is_path_inside file_env relative_path =
    not (str_eq relative_path "")
    && (not (
          file_env.has_backslash relative_path
          || (starts_with relative_path "/" || starts_with relative_path "~"))
        && (not (file_env.is_absolute relative_path)
            && (not (file_env.has_parent_part relative_path)
                && file_env.is_inside (file_env.join_root relative_path))))

-- `if len(data) > MAX_GIT_OUTPUT_BYTES: return None`
unfoldable pub small_enough : Option String → Option String
small_enough none = none
small_enough (some text) = if leb (len text) max_git_output_bytes then some text else none

unfoldable pub restore_from_git_head : FileEnv → String → Option String
unfolding is_path_inside small_enough
restore_from_git_head file_env relative_path =
    if is_path_inside file_env relative_path
    then small_enough (file_env.git_show relative_path)
    else none
