-- ===== src/Tests/Changes.antt =====
-- Recorded file changes, and what the tests of them share.
use agent_v.Prelude.{true, false, none, some, [], ◌∷◌, str_eq}
use agent_v.Json.{end}
use agent_v.Files.{Files}
use agent_v.World.{World}
use agent_v.World.Rows.{FileChange, FileOperation, RevertStatus}
use agent_v.FileChanges.{FileEnv}
use agent_v.FileChanges.Capture.{FileChangeContext, CaptureSettings}
use agent_v.FileChanges.Revert.{RevertOptions}
use agent_v.Tests.Data.{tenant, world}

-- every path is inside, no path has `..`, and git has nothing
abbrev pub file_env : FileEnv
file_env = record {
  is_inside = λ path. true;
  relative_path = λ path. path;
  resolve = λ path. path;
  lower_name = λ path. path;
  fnmatch = λ name pattern. str_eq name pattern;
  unified_diff = λ a b path. "diff";
  splitlines = λ text. text ∷ [];
  has_backslash = λ text. false;
  is_absolute = λ text. false;
  has_parent_part = λ text. false;
  join_root = λ path. path;
  git_show = λ path. none;
  read_fails = λ path. false;
  write_fails = λ path. false;
  unlink_fails = λ path. false;
  error_text = λ e. "error";
}

abbrev pub ctx : FileChangeContext
ctx = record { tenant = tenant; session_id = 10; agent_run_id = some 20; tool_call_id = some 30 }

abbrev pub capture_settings : CaptureSettings
capture_settings = record {
  enabled = true;
  secret_filename_globs = ".env" ∷ [];
  max_content_bytes = 100;
  max_diff_bytes = 100;
  capture_content = true;
  capture_diff = true;
}

abbrev pub options : RevertOptions
options = record {
  actor_user_id = some 5;
  tool_call_id = none;
  force = false;
  permission_request_id = none;
  secret_globs = ".env" ∷ [];
  git_fallback_enabled = false;
}

-- a.txt was "old" and is "new"
abbrev pub change : FileChange
change = record {
  id = 50;
  tenant = tenant;
  session_id = 10;
  agent_run_id = some 20;
  tool_call_id = some 30;
  tool_name = "write.file";
  operation = FileOperation.write;
  relative_path = "a.txt";
  resolved_path = "a.txt";
  before_sha256 = some "old";
  after_sha256 = some "new";
  before_content = some "old";
  after_content = some "new";
  before_content_truncated = false;
  after_content_truncated = false;
  diff = none;
  diff_truncated = false;
  additions = 1;
  deletions = 1;
  replacement_count = 1;
  backup_path = none;
  redacted = false;
  redaction_reason = none;
  revertible = true;
  revert_status = RevertStatus.not_reverted;
  reverted_at = none;
  reverted_by_user_id = none;
  revert_tool_call_id = none;
  revert_error = none;
  metadata_json = end;
}

-- b.txt is not what the change has left
abbrev pub stale_change : FileChange
stale_change = record change {
  id = 51;
  relative_path = "b.txt";
  resolved_path = "b.txt";
  before_content = some "first";
  after_sha256 = some "second";
}

-- a change that is reverted already
abbrev pub done_change : FileChange
done_change = record change { id = 52; revert_status = RevertStatus.reverted }

abbrev pub files : Files
files = record { entries = ("a.txt", "new") ∷ ("b.txt", "third") ∷ [] }

abbrev pub changed_world : World
changed_world = record world {
  file_changes = record { rows = (50, change) ∷ (51, stale_change) ∷ (52, done_change) ∷ [] };
  files = files;
}
