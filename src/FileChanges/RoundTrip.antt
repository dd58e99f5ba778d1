-- ===== src/FileChanges/RoundTrip.antt =====
-- A file that write.file replaces, and whose change is recorded and then reverted (tools/write.py and
-- file_changes/file_change_service.py).
use agent_v.Prelude.{
  universal_newlines-none, has_return, ℕ, String, true, false, ◌≡◌, refl, sym, none, some, arith,
  leb, List, [], ◌∷◌, str_len, str_eq, str_eq_refl, str_eq_iff, text_given, if◌then◌else◌,
  Bool-cases, inl, inr,
}
use mathlib.Core.Path.{subst}
use agent_v.Json.{str, bool, end, field, Fields, get}
use agent_v.Env.{Env}
use agent_v.Redaction.{redact_text}
use agent_v.Files
use agent_v.Files.{Files, read-write}
use agent_v.World.{World}
use agent_v.World.Rows.{FileChange, FileOperation}
use agent_v.Table
use agent_v.Table.{find-put_same}
use agent_v.Exec.{Exec, Result, ok, return}
use agent_v.FileChanges.{FileEnv, is_secret_filename}
use agent_v.FileChanges.Capture.{
  FileChangeCapture, FileChangeContext, CaptureSettings, new_file_change, stored_text, truncate,
}
use agent_v.FileChanges.Capture.Build.{build_capture_for_write, line_count, or_text}
use agent_v.FileChanges.Capture.Record.{build_captures_for_tool, capture_from_tool_call}
use agent_v.FileChanges.Revert.{RevertOptions, revert_file_change, hash_matches, restore_content}
use agent_v.FileChanges.Revert.Effect.{
  IsInOrder, is_allowed, IsReverted, revert_file_change-IsReverted,
}
use agent_v.Tools.{ToolResult, success}
use agent_v.Tools.Write.{WriteFileInput, WriteEnv, write_metadata, run_write}

abbrev pub write_input_json : WriteFileInput → Fields
write_input_json input = field "path" (str input.path) (field "content" (str input.content) end)

truncate_short :
    (limit : ℕ) (text : String)
    → leb (str_len text) limit ≡ true
    → truncate limit (some text) ≡ (some text, false)
unfolding truncate
truncate_short limit text short = ground arith

or_text_same : (text : String) → or_text (some text) (some text) ≡ some text
or_text_same text = ground arith

module _ (env : Env) (file_env : FileEnv) (write_env : WriteEnv) (ctx : FileChangeContext)
    (settings : CaptureSettings) (options : RevertOptions) (input : WriteFileInput) where
  abbrev pub target : String
  target = file_env.resolve input.path

  -- The tool is given a path in the workspace, to a file that holds `before` and is no secret, and
  -- asked for a backup; I/O goes well; the text is short enough to be kept and holds no "\r" and
  -- nothing that redaction changes.
  pub record IsPlain (before : String) (files : Files) : Type 0 where
    pub path_given : str_eq input.path "" ≡ false
    pub inside : file_env.is_inside target ≡ true
    pub no_directory : write_env.is_directory target ≡ false
    pub parent_there : write_env.parent_exists target ≡ true
    pub holds_before : Files.read files target ≡ some before
    pub reads : file_env.read_fails target ≡ false
    pub writes : (path : String) → file_env.write_fails path ≡ false
    pub unlinks : file_env.unlink_fails target ≡ false
    pub asks_backup : input.backup ≡ true
    pub no_expected_hash : text_given input.expected_existing_hash ≡ false
    pub unix_newlines : has_return before ≡ false
    pub unredacted : redact_text env before ≡ before
    pub fits : leb (str_len before) settings.max_content_bytes ≡ true
    pub enabled : settings.enabled ≡ true
    pub keeps_content : settings.capture_content ≡ true
    pub no_secret :
        is_secret_filename file_env (file_env.relative_path target) settings.secret_filename_globs
        ≡ false
    pub no_secret_now :
        is_secret_filename file_env (file_env.relative_path target) options.secret_globs ≡ false

  module _ (before : String) (world : World) (plain : IsPlain before world.files) where
    abbrev metadata : Fields
    metadata =
        write_metadata env input target (some before) (some before)
          (some (write_env.backup_name target))

    abbrev written : World
    written = record world {
      files =
          Files.write target input.content
            (Files.write (write_env.backup_name target) before world.files);
    }

    written_result : run_write env file_env write_env input world ≡ (ok (success metadata), written)
    unfolding run_write
    written_result =
        rw (plain.inside, plain.no_directory, plain.parent_there)
          (rw plain.holds_before (
            rw plain.reads (
              rw plain.no_expected_hash (
                rw plain.asks_backup (
                  rw plain.writes (
                    rw plain.writes
                      (rw (universal_newlines-none before plain.unix_newlines) refl)))))))

    abbrev captured : FileChangeCapture
    captured = record {
      tool_name = "write.file";
      operation = FileOperation.write;
      relative_path = file_env.relative_path target;
      resolved_path = target;
      before_sha256 = some (env.sha256 before);
      after_sha256 = or_text (some (env.sha256 input.content)) (some (env.sha256 input.content));
      before_content = some before;
      after_content = some input.content;
      diff =
          or_text
            (some (file_env.unified_diff before input.content (file_env.relative_path target)))
            none;
      additions = line_count (some input.content);
      deletions = line_count (some before);
      replacement_count = 1;
      backup_path = some (write_env.backup_name target);
      metadata = field "created" (bool false) end;
    }

    build_result :
        build_captures_for_tool env file_env "write.file"
          (write_input_json input)
          end
          metadata
          written.files
        ≡ captured ∷ []
    unfolding build_captures_for_tool build_capture_for_write line_count get
    build_result = rw (plain.path_given, plain.inside) refl

    abbrev stored : FileChange
    stored = new_file_change env file_env ctx captured settings world.fresh

    abbrev recorded : Result (List FileChange) × World
    recorded =
        capture_from_tool_call env file_env ctx settings "write.file" (write_input_json input) end
          metadata written

    recorded_result : recorded.0 ≡ ok (stored ∷ [])
    unfolding capture_from_tool_call
    recorded_result = rw (plain.enabled, build_result) refl

    recorded_files : recorded.1.files ≡ written.files
    unfolding capture_from_tool_call
    recorded_files = rw (plain.enabled, build_result) refl

    recorded_row : Table.find recorded.1.file_changes world.fresh ≡ some stored
    unfolding capture_from_tool_call
    recorded_row =
        rw (plain.enabled, build_result) (find-put_same world.file_changes world.fresh stored)

    before_stored : stored.before_content ≡ some before
    unfolding new_file_change stored_text
    before_stored =
        rw (plain.no_secret, plain.keeps_content)
          (rw (truncate_short settings.max_content_bytes before plain.fits)
            (rw plain.unredacted refl))

    stored_allowed : is_allowed env file_env options stored ≡ true
    unfolding new_file_change
    stored_allowed = rw (plain.no_secret, plain.inside, plain.no_secret_now) refl

    content_there : Files.read recorded.1.files target ≡ some input.content
    content_there = rw recorded_files (rw read-write (rw (str_eq_refl target) refl))

    same_hash : hash_matches env file_env options.force stored recorded.1.files ≡ true
    unfolding hash_matches new_file_change
    same_hash =
        rw (or_text_same (env.sha256 input.content)) (
          rw content_there
            (rw (plain.reads, str_eq_refl (env.sha256 input.content)) (ground arith)))

    content_known : (restore_content env file_env options stored).0 ≡ some before
    unfolding restore_content
    content_known = rw before_stored refl

    revert-IsInOrder : IsInOrder env file_env options stored recorded.1.files (some before)
    unfolding new_file_change
    revert-IsInOrder = record {
      allowed = stored_allowed;
      same_hash = same_hash;
      goal_known = rw content_known refl;
      writes = plain.writes target;
      unlinks = plain.unlinks;
    }

    read_written :
        (path : String)
        → str_eq (write_env.backup_name target) path ≡ false
        → (if str_eq target path then some before else Files.read recorded.1.files path)
          ≡ Files.read world.files path
    read_written path other = elim (Bool-cases (str_eq target path)) [
      | inl same ↦
          let at_path : target ≡ path = ground (arith, str_eq_iff target path) in
          rw same
            (sym (subst (λ p. Files.read world.files p ≡ some before) at_path plain.holds_before))
      | inr different ↦
          rw recorded_files (rw read-write (rw read-write (rw (different, other) refl)))
    ]

  -- What a run of the tool leaves is recorded. Of write.file, the output is not read.
  record_result : Result ToolResult → Exec World (List FileChange)
  record_result (ok (success result)) =
      capture_from_tool_call env file_env ctx settings "write.file" (write_input_json input) end
        result
  record_result _ = return []

  unfoldable pub write_and_record : Exec World (List FileChange)
  unfolding record_result
  write_and_record world =
      let done = run_write env file_env write_env input world in record_result done.0 done.1

  -- A text file in the workspace is replaced with a backup, and the change is recorded: its revert
  -- then leaves every file but the backup as it was before the tool ran. It is asked that I/O goes
  -- well, that no hash is expected, and that the text is kept whole: captures are on, it is short
  -- enough, it has no "\r", redaction does not change it, and its name matches no secret pattern.
  pub write_and_record-revert_file_change :
      (before : String) (now : ℕ) (world : World) (path : String)
      → IsPlain before world.files
      → str_eq (write_env.backup_name target) path ≡ false
      → Files.read
          (revert_file_change env file_env now options world.fresh
            (write_and_record world).1).1.files
          path
        ≡ Files.read world.files path
  unfolding write_and_record new_file_change
  write_and_record-revert_file_change before now world path plain other =
      rw (written_result before world plain) (
        rw
          (IsReverted.file_restored
            (revert_file_change-IsReverted env file_env now options world.fresh
              (stored before world plain) (some before) (recorded before world plain).1
              (recorded_row before world plain) (revert-IsInOrder before world plain))
            path)
          (read_written before world plain path other))
