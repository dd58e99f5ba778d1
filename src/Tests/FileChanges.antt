-- ===== src/Tests/FileChanges.antt =====
-- backend/app/file_changes and backend/app/api/routes_file_changes.py at concrete inputs.
use agent_v.Prelude.{has_return, true, false, ◌≡◌, refl, none, some, [], ◌∷◌, append}
use agent_v.Json.{end}
use agent_v.Files
use agent_v.Files.{Files}
use agent_v.World.{World}
use agent_v.World.Rows.{FileChange, FileOperation}
use agent_v.Table
use agent_v.Exec.{raised, file_change_error, FileChangeCode, permission_resume_security_error}
use agent_v.Redaction.{redact_text}
use agent_v.FileChanges.{is_secret_filename}
use agent_v.FileChanges.Capture.{FileChangeCapture, new_file_change, persist_capture}
use agent_v.FileChanges.Capture.Secret.{HasNoText, persist_capture-secret}
use agent_v.FileChanges.Revert.{revert_file_change, hash_matches, restore_content}
use agent_v.FileChanges.Revert.Confined.{IsOneFile, revert_file_change-IsOneFile}
use agent_v.FileChanges.Revert.Effect.{IsInOrder, IsReverted, revert_file_change-IsReverted}
use agent_v.FileChanges.RoundTrip.{IsPlain, write_and_record, write_and_record-revert_file_change}
use agent_v.FileChanges.Approval.{create_revert_permission_request, verify_revert_approval}
use agent_v.FileChanges.Approval.Unanswered.{create_revert_permission_request-approve}
use agent_v.Permissions.Service.{approve}
use agent_v.Tools.Write.{WriteFileInput, WriteEnv}
use agent_v.Tests.Data.{env}
use agent_v.Tests.Changes.{file_env, ctx, capture_settings, options, change, files, changed_world}

change_stored : Table.find changed_world.file_changes 50 ≡ some change
unfolding Table.find
change_stored = refl

in_order : IsInOrder env file_env options change files (some "old")
unfolding is_secret_filename hash_matches restore_content Files.read
in_order = record {
  allowed = refl;
  same_hash = refl;
  goal_known = refl;
  writes = refl;
  unlinks = refl;
}

revert_file_change-IsReverted_example :
    IsReverted env file_env 200 options change
      (some "old")
      changed_world
      (revert_file_change env file_env 200 options 50 changed_world)
revert_file_change-IsReverted_example =
    revert_file_change-IsReverted env file_env 200 options 50 change (some "old") changed_world
      change_stored in_order

revert_file_change-IsOneFile_example :
    IsOneFile "a.txt" files (revert_file_change env file_env 200 options 50 changed_world)
revert_file_change-IsOneFile_example =
    revert_file_change-IsOneFile env file_env 200 options 50 change changed_world change_stored

abbrev input : WriteFileInput
input = record {
  path = "a.txt";
  content = "newer";
  create_dirs = false;
  backup = true;
  expected_existing_hash = none;
}

abbrev write_env : WriteEnv
write_env = record {
  is_directory = λ path. false;
  parent_exists = λ path. true;
  backup_name = λ path. append path ".bak";
}

plain : IsPlain env file_env write_env ctx capture_settings options input "new" files
unfolding is_secret_filename Files.read redact_text has_return
plain = record {
  path_given = refl;
  inside = refl;
  no_directory = refl;
  parent_there = refl;
  holds_before = refl;
  reads = refl;
  writes = λ path. refl;
  unlinks = refl;
  asks_backup = refl;
  no_expected_hash = refl;
  unix_newlines = refl;
  unredacted = refl;
  fits = refl;
  enabled = refl;
  keeps_content = refl;
  no_secret = refl;
  no_secret_now = refl;
}

abbrev recorded_world : World
recorded_world =
    (write_and_record env file_env write_env ctx capture_settings options input changed_world).1

write_and_record-revert_file_change_example :
    Files.read (revert_file_change env file_env 200 options 100 recorded_world).1.files "a.txt"
    ≡ Files.read files "a.txt"
write_and_record-revert_file_change_example =
    write_and_record-revert_file_change env file_env write_env ctx capture_settings options input
      "new" 200 changed_world "a.txt" plain refl

abbrev secret_capture : FileChangeCapture
secret_capture = record {
  tool_name = "write.file";
  operation = FileOperation.write;
  relative_path = ".env";
  resolved_path = ".env";
  before_sha256 = none;
  after_sha256 = some "KEY=2";
  before_content = some "KEY=1";
  after_content = some "KEY=2";
  diff = some "KEY";
  additions = 1;
  deletions = 1;
  replacement_count = 1;
  backup_path = none;
  metadata = end;
}

name_is_secret : is_secret_filename file_env ".env" (".env" ∷ []) ≡ true
unfolding is_secret_filename
name_is_secret = refl

abbrev secret_row : FileChange
secret_row = new_file_change env file_env ctx secret_capture capture_settings 100

abbrev secret_world : World
secret_world = (persist_capture env file_env ctx secret_capture capture_settings changed_world).1

persist_capture-secret_example :
    (Table.find secret_world.file_changes 100 ≡ some secret_row)
    × HasNoText env file_env secret_row
    × ((revert_file_change env file_env 200 options 100 secret_world).0
        ≡ raised (file_change_error FileChangeCode.not_revertible))
    × ((revert_file_change env file_env 200 options 100 secret_world).1.files ≡ files)
persist_capture-secret_example =
    persist_capture-secret env file_env ctx secret_capture capture_settings 200 options
      changed_world name_is_secret

abbrev asked_world : World
asked_world = (create_revert_permission_request env change false changed_world).1

create_revert_permission_request-approve_example :
    ((approve env 200 100 (some 5) none asked_world).0 ≡ raised permission_resume_security_error)
    × (verify_revert_approval env change 100 false (approve env 200 100 (some 5) none asked_world).1
        ≡ (
          raised (file_change_error FileChangeCode.conflict),
          (approve env 200 100 (some 5) none asked_world).1,
        ))
unfolding Table.find
create_revert_permission_request-approve_example =
    create_revert_permission_request-approve env change false 200 (some 5) none changed_world
      (λ call found. absurd cc)
