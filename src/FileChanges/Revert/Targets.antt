-- ===== src/FileChanges/Revert/Targets.antt =====
-- The ids and the paths of stored changes, and a revert (file_changes/file_change_service.py).
use agent_v.Prelude.{
  ℕ, String, Bool, true, ◌≡◌, refl, sym, ◌∙◌, Option, none, some, arith, ◌==◌, Bool-cases, inl, inr,
}
use mathlib.Core.Path.{subst}
use agent_v.Env.{Env}
use agent_v.World.{World}
use agent_v.World.Rows.{FileChange, FileOperation}
use agent_v.Table
use agent_v.Table.{Table, find-put}
use agent_v.Exec.{Result, ok, raised, FileChangeCode, resume, ◌>>◌}
use agent_v.Exec.Reads.{check_then}
use agent_v.FileChanges.{FileEnv, caught_code}
use agent_v.FileChanges.Revert.{
  RevertOptions, check_hash_now, validate_revert_preconditions, restore_content, write_file,
  unlink_file, put_back, apply_revert, publish_requested, note_failure, after_exception,
  after_apply, finish_revert, apply_and_finish, revert_found, revert_file_change,
}
use agent_v.FileChanges.Revert.Confined.{validate-KeepsState, check_hash_now-KeepsState}

abbrev pub id_and_path : Option FileChange → Option (ℕ × String)
id_and_path none = none
id_and_path (some row) = some (row.id, row.resolved_path)

-- the ids and the paths under which the changes are stored
abbrev pub SameTargets : Table FileChange → Table FileChange → Type 0
SameTargets before after =
    (id : ℕ) → id_and_path (Table.find after id) ≡ id_and_path (Table.find before id)

pub put-SameTargets :
    (changes : Table FileChange) (row changed : FileChange)
    → Table.find changes row.id ≡ some row
    → changed.id ≡ row.id
    → changed.resolved_path ≡ row.resolved_path
    → SameTargets changes (Table.put changes changed.id changed)
put-SameTargets changes row changed stored same_id same_path id =
    elim (Bool-cases (changed.id == id)) [
      | inr other ↦ rw find-put (rw other refl)
      | inl same ↦
          let at_row : row.id ≡ id = sym same_id ∙ ground arith in
          let there : Table.find changes id ≡ some row =
            subst (λ i. Table.find changes i ≡ some row) at_row stored in
          rw find-put (rw (same, there, same_id, same_path) refl)
    ]

module _ (env : Env) (file_env : FileEnv) where
  write_file-changes :
      (path content : String) (world : World)
      → (write_file env file_env path content world).1.file_changes ≡ world.file_changes
  unfolding write_file
  write_file-changes path content world = ground arith

  unlink_file-changes :
      (path : String) (world : World)
      → (unlink_file env file_env path world).1.file_changes ≡ world.file_changes
  unfolding unlink_file
  unlink_file-changes path world = ground arith

  put_back-changes :
      (path : String) (content : Option String) (world : World)
      → (put_back env file_env path content world).1.file_changes ≡ world.file_changes
  unfolding put_back
  put_back-changes path none world = refl
  put_back-changes path (some content) world = write_file-changes path content world

  apply_revert-changes :
      (operation : FileOperation) (path : String) (content : Option String) (world : World)
      → (apply_revert env file_env operation path content world).1.file_changes ≡ world.file_changes
  unfolding apply_revert
  apply_revert-changes FileOperation.add path content world = unlink_file-changes path world
  apply_revert-changes FileOperation.write path content world = put_back-changes path content world
  apply_revert-changes FileOperation.edit path content world = put_back-changes path content world
  apply_revert-changes FileOperation.update path content world = put_back-changes path content world
  apply_revert-changes FileOperation.delete path content world = put_back-changes path content world
  apply_revert-changes FileOperation.patch path content world = put_back-changes path content world

  finish-SameTargets :
      (now : ℕ) (options : RevertOptions) (row : FileChange) (from_git : Bool)
      (changes : Table FileChange) (result : Result (Unit {0})) (world : World)
      → world.file_changes ≡ changes
      → Table.find changes row.id ≡ some row
      → SameTargets changes
          (resume
            (after_apply env file_env row (result, world)).0
            (after_apply env file_env row (result, world)).1
            (λ x. finish_revert env file_env now options row from_git)).1.file_changes
  unfolding after_apply after_exception note_failure finish_revert
  finish-SameTargets now options row from_git changes (ok done) world same stored =
      rw same (put-SameTargets changes row _ stored refl refl)
  finish-SameTargets now options row from_git changes (raised e) world same stored =
      go (caught_code e)
    where
      go :
          (code : Option FileChangeCode)
          → SameTargets changes
              (resume
                (after_exception env file_env row e code world).0
                (after_exception env file_env row e code world).1
                (λ x. finish_revert env file_env now options row from_git)).1.file_changes
      go none = rw same (put-SameTargets changes row _ stored refl refl)
      go (some code) = λ id. rw same refl

  revert_found-SameTargets :
      (now : ℕ) (options : RevertOptions) (row : FileChange) (world : World)
      → Table.find world.file_changes row.id ≡ some row
      → SameTargets world.file_changes
          (revert_found env file_env now options row world).1.file_changes
  unfolding revert_found publish_requested apply_and_finish
  revert_found-SameTargets now options row world stored =
      let middle = (publish_requested env file_env options row world).1 in
      let apply = apply_and_finish env file_env now options row in
      let check = check_hash_now env file_env options row in
      let same : Result FileChange × World → Type 0 =
        λ after. SameTargets middle.file_changes after.1.file_changes in
      let restored = restore_content env file_env options row in
      let applied = apply_revert env file_env row.operation row.resolved_path restored.0 middle in
      check_then same (validate_revert_preconditions env file_env options true row) (check >> apply)
        middle (validate-KeepsState env file_env options true row) (λ e id. refl)
        (check_then same check apply middle (check_hash_now-KeepsState env file_env options row)
          (λ e id. refl)
          (finish-SameTargets now options row restored.1 middle.file_changes applied.0 applied.1
            (apply_revert-changes row.operation row.resolved_path restored.0 middle) stored))

  -- A revert leaves every stored change its id and its path.
  pub revert_file_change-SameTargets :
      (now : ℕ) (options : RevertOptions) (row : FileChange) (world : World)
      → Table.find world.file_changes row.id ≡ some row
      → SameTargets world.file_changes
          (revert_file_change env file_env now options row.id world).1.file_changes
  unfolding revert_file_change
  revert_file_change-SameTargets now options row world stored =
      rw stored (revert_found-SameTargets now options row world stored)
