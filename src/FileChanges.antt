-- ===== src/FileChanges.antt =====
-- backend/app/file_changes/file_change_service.py: what a tool has changed in the workspace is
-- recorded, and can be taken back. Paths, globs, difflib, git and failing I/O are parameters.
pub mod Approval
pub mod Batch
pub mod Capture
pub mod Git
pub mod Revert
pub mod RoundTrip
pub mod Routes
use agent_v.Prelude.{ℕ, String, Bool, Option, none, some, List, any}
use agent_v.Exec.{Error, FileChangeCode, file_change_error}
use agent_v.World.Rows.{FileOperation}

pub record FileEnv : Type 0 where
  -- `is_inside(workspace_root, path)`, `resolved.relative_to(workspace_root).as_posix()` and
  -- `resolve_workspace_path(workspace_root, text)` (tools/base.py)
  pub is_inside : String → Bool
  pub relative_path : String → String
  pub resolve : String → String
  -- `Path(path).name.lower()`, and `fnmatch(name, pattern.lower())`
  pub lower_name : String → String
  pub fnmatch : String → String → Bool
  -- `"".join(unified_diff(before, after, fromfile=path, tofile=path))`, on the lines of the texts
  pub unified_diff : String → String → String → String
  -- `text.splitlines()`
  pub splitlines : String → List String
  -- a text has a backslash; a path is absolute; it has a part `..`; `(root / path).resolve()`
  pub has_backslash : String → Bool
  pub is_absolute : String → Bool
  pub has_parent_part : String → Bool
  pub join_root : String → String
  -- what `git show HEAD:path` prints, if git is there, ends in time and returns 0
  pub git_show : String → Option String
  -- reading, replacing or unlinking the file raises OSError
  pub read_fails : String → Bool
  pub write_fails : String → Bool
  pub unlink_fails : String → Bool
  -- `str(exc)`
  pub error_text : Error → String

-- `_is_secret_filename`
unfoldable pub is_secret_filename : FileEnv → String → List String → Bool
is_secret_filename files relative_path secret_globs =
    any (λ pattern. files.fnmatch (files.lower_name relative_path) pattern) secret_globs

abbrev pub code_text : FileChangeCode → String
code_text FileChangeCode.generic = "file_change_error"
code_text FileChangeCode.not_found = "file_change_not_found"
code_text FileChangeCode.conflict = "file_change_conflict"
code_text FileChangeCode.forbidden = "file_change_forbidden"
code_text FileChangeCode.validation = "file_change_validation"
code_text FileChangeCode.secret_requires_force = "file_change_secret_requires_force"
code_text FileChangeCode.not_revertible = "file_change_not_revertible"
code_text FileChangeCode.already_reverted = "file_change_already_reverted"
code_text FileChangeCode.hash_mismatch = "file_change_hash_mismatch"

-- the `status_code` of the error classes
abbrev pub status_code : FileChangeCode → ℕ
status_code FileChangeCode.generic = 500
status_code FileChangeCode.not_found = 404
status_code FileChangeCode.forbidden = 403
status_code FileChangeCode.validation = 422
status_code _ = 409

-- `except FileChangeError`: the code, if the exception is one
abbrev pub caught_code : Error → Option FileChangeCode
caught_code (file_change_error code) = some code
caught_code _ = none

abbrev pub operation_text : FileOperation → String
operation_text FileOperation.write = "write"
operation_text FileOperation.edit = "edit"
operation_text FileOperation.add = "add"
operation_text FileOperation.update = "update"
operation_text FileOperation.delete = "delete"
operation_text FileOperation.patch = "patch"
