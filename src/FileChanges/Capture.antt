-- ===== src/FileChanges/Capture.antt =====
-- `_build_capture_for_write`, `_build_capture_for_edit` and `_persist_capture`
-- (file_changes/file_change_service.py): a tool's result becomes a row.
pub mod Build
pub mod Patch
pub mod Record
pub mod Secret
use agent_v.Prelude.{
  ℕ, ◌+◌, String, append, Bool, true, false, not, ◌&&◌, ◌||◌, Option, none, some, List, is_none,
  leb, str_len, str_take, if◌then◌else◌,
}
use agent_v.Json.{Fields}
use agent_v.Env.{Env}
use agent_v.Redaction.{redact_text}
use agent_v.World.{World}
use agent_v.World.Rows.{Tenant, FileChange, FileOperation, not_reverted}
use agent_v.Table
use agent_v.Exec.{Exec, return, read, modify, ◌>>=◌, ◌>>◌}
use agent_v.FileChanges.{FileEnv, is_secret_filename}

pub record FileChangeCapture : Type 0 where
  pub tool_name : String
  pub operation : FileOperation
  pub relative_path : String
  pub resolved_path : String
  pub before_sha256 : Option String
  pub after_sha256 : Option String
  pub before_content : Option String
  pub after_content : Option String
  pub diff : Option String
  pub additions : ℕ
  pub deletions : ℕ
  pub replacement_count : ℕ
  pub backup_path : Option String
  pub metadata : Fields

pub record FileChangeContext : Type 0 where
  pub tenant : Tenant
  pub session_id : ℕ
  pub agent_run_id : Option ℕ
  pub tool_call_id : Option ℕ

-- the part of `file_change_settings_snapshot` that captures read
pub record CaptureSettings : Type 0 where
  pub enabled : Bool
  pub secret_filename_globs : List String
  pub max_content_bytes : ℕ
  pub max_diff_bytes : ℕ
  pub capture_content : Bool
  pub capture_diff : Bool

-- `_truncate`: the text, and whether it was cut
unfoldable pub truncate : ℕ → Option String → Option String × Bool
truncate limit none = (none, false)
truncate limit (some value) =
    if leb limit 0 || leb (str_len value) limit
    then (some value, false)
    else (some (append (str_take limit value) "\n...truncated..."), true)

-- `if not keep: value = None`
abbrev pub kept : Bool → Option String → Option String
kept true value = value
kept false value = none

abbrev redacted_option : Env → Option String → Option String
redacted_option env none = none
redacted_option env (some value) = some (redact_text env value)

-- `revertible`, by the operation
abbrev pub is_revertible : FileOperation → Option String → Option String → Bool
is_revertible FileOperation.delete before after = not (is_none before)
is_revertible FileOperation.add before after = not (is_none after)
is_revertible _ before after = not (is_none before) || is_none after

module _ (env : Env) (file_env : FileEnv) where
  -- the text that is stored, and whether it was cut; nothing is stored of a secret file
  unfoldable pub stored_text : Bool → Bool → ℕ → Option String → Option String × Bool
  unfolding truncate
  stored_text is_secret capture limit value =
      let cut = truncate limit (kept (not is_secret) (kept capture value)) in
      (redacted_option env cut.0, cut.1)

  unfoldable pub new_file_change :
      FileChangeContext → FileChangeCapture → CaptureSettings → ℕ → FileChange
  unfolding stored_text
  new_file_change ctx capture settings id =
      let is_secret =
        is_secret_filename file_env capture.relative_path settings.secret_filename_globs in
      let before =
        stored_text is_secret settings.capture_content settings.max_content_bytes
          capture.before_content in
      let after =
        stored_text is_secret settings.capture_content settings.max_content_bytes
          capture.after_content in
      let diff = stored_text is_secret settings.capture_diff settings.max_diff_bytes capture.diff in
      record {
        id = id;
        tenant = ctx.tenant;
        session_id = ctx.session_id;
        agent_run_id = ctx.agent_run_id;
        tool_call_id = ctx.tool_call_id;
        tool_name = capture.tool_name;
        operation = capture.operation;
        relative_path = capture.relative_path;
        resolved_path = capture.resolved_path;
        before_sha256 = capture.before_sha256;
        after_sha256 = capture.after_sha256;
        before_content = before.0;
        after_content = after.0;
        before_content_truncated = before.1;
        after_content_truncated = after.1;
        diff = diff.0;
        diff_truncated = diff.1;
        additions = capture.additions;
        deletions = capture.deletions;
        replacement_count = capture.replacement_count;
        backup_path = capture.backup_path;
        redacted = is_secret;
        redaction_reason = if is_secret then some "secret_filename_match" else none;
        revertible =
            not is_secret
            && is_revertible capture.operation capture.before_content capture.after_content;
        revert_status = not_reverted;
        reverted_at = none;
        reverted_by_user_id = none;
        revert_tool_call_id = none;
        revert_error = none;
        metadata_json = capture.metadata;
      }

  abbrev pub add_file_change : FileChange → World → World
  add_file_change row world = record world {
    file_changes = Table.put world.file_changes row.id row;
    fresh = world.fresh + 1;
  }

  unfoldable pub persist_capture :
      FileChangeContext → FileChangeCapture → CaptureSettings → Exec World FileChange
  unfolding new_file_change
  persist_capture ctx capture settings = do
    row ← read (λ world. new_file_change ctx capture settings world.fresh)
    modify (add_file_change row)
    return row
