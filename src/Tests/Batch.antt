-- ===== src/Tests/Batch.antt =====
-- `revert_file_changes_batch` (file_changes/file_change_service.py) at concrete inputs: the second
-- change of the first batch has another hash by now, and that of the second is reverted already.
use agent_v.Prelude.{ℕ, true, ◌≡◌, refl, some, [], ◌∷◌, arith}
use mathlib.Core.Path.{subst}
use agent_v.Files
use agent_v.World.{World}
use agent_v.World.Rows.{FileChange}
use agent_v.Table
use agent_v.Exec.{Result, ok, FileChangeCode}
use agent_v.FileChanges.{is_secret_filename}
use agent_v.FileChanges.Revert.{
  revert_file_change, validate_revert_preconditions, hash_matches, restore_content, apply_revert,
}
use agent_v.FileChanges.Batch.{BatchRevertResult, is_in, revert_file_changes_batch}
use agent_v.FileChanges.Batch.Rejected.{revert_file_changes_batch-rejected}
use agent_v.FileChanges.Batch.Restored.{revert_file_changes_batch-SameFiles}
use agent_v.FileChanges.Batch.RollBack.{SameFiles, IsRestorable}
use agent_v.Tests.Data.{env}
use agent_v.Tests.Changes.{file_env, options, change, done_change, files, changed_world}

abbrev batch : Result BatchRevertResult × World
batch = revert_file_changes_batch env file_env 200 options (50 ∷ 51 ∷ []) changed_world

abbrev result : BatchRevertResult
result = record {
  reverted = 50 ∷ [];
  skipped = [];
  failed = (51, FileChangeCode.hash_mismatch) ∷ [];
  restored_from_snapshots = true;
  error = some FileChangeCode.hash_mismatch;
}

goes_back : batch ≡ (ok result, batch.1)
unfolding revert_file_changes_batch revert_file_change validate_revert_preconditions hash_matches
    restore_content apply_revert is_secret_filename Table.find Table.put Files.read Files.write
goes_back = refl

keyed :
    (id : ℕ) (row : FileChange) → Table.find changed_world.file_changes id ≡ some row → row.id ≡ id
unfolding Table.find
keyed id row found = ground arith

first_restorable :
    (row : FileChange)
    → Table.find changed_world.file_changes 50 ≡ some row
    → IsRestorable env file_env files row
unfolding Table.find Files.read
first_restorable row found =
    let is_change : change ≡ row = cc in
    subst (IsRestorable env file_env files) is_change
      (record { text = "new"; there = refl; reads = refl; writes = refl })

restorable :
    (id : ℕ) (row : FileChange)
    → Table.find changed_world.file_changes id ≡ some row
    → is_in id result.reverted ≡ true
    → IsRestorable env file_env files row
restorable id row found here =
    let is_first : id ≡ 50 = ground arith in
    first_restorable row
      (subst (λ i. Table.find changed_world.file_changes i ≡ some row) is_first found)

revert_file_changes_batch-SameFiles_example : SameFiles files batch.1.files
revert_file_changes_batch-SameFiles_example =
    revert_file_changes_batch-SameFiles env file_env 200 options (50 ∷ 51 ∷ []) result changed_world
      batch.1 keyed goes_back refl restorable

done_stored : Table.find changed_world.file_changes 52 ≡ some done_change
unfolding Table.find
done_stored = refl

revert_file_changes_batch-rejected_example :
    (refused : BatchRevertResult) × (revert_file_changes_batch env file_env 200 options
        (50 ∷ 52 ∷ [])
        changed_world
      ≡ (ok refused, changed_world))
    × (refused.reverted ≡ [])
    × (refused.failed ≡ [])
revert_file_changes_batch-rejected_example =
    revert_file_changes_batch-rejected env file_env options changed_world 200 52 done_change
      (50 ∷ 52 ∷ []) refl refl done_stored refl
