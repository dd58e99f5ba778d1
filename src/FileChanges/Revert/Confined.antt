-- ===== src/FileChanges/Revert/Confined.antt =====
-- Which files a revert touches (file_changes/file_change_service.py).
use agent_v.Prelude.{
  ℕ, String, Bool, true, false, ◌≡◌, refl, ◌∙◌, Option, none, some, arith, str_eq, Option-cases,
  Bool-cases, inl, inr,
}
use agent_v.Env.{Env}
use agent_v.Files
use agent_v.Files.{Files, read-write, read-unlink}
use agent_v.World.{World}
use agent_v.World.Rows.{FileChange, FileOperation}
use agent_v.Table
use agent_v.Exec.{Result, Error, ok, raised, return, FileChangeCode, resume, ◌>>◌}
use agent_v.Exec.Reads.{KeepsState, require-KeepsState, then-KeepsState, check_then}
use agent_v.FileChanges.{FileEnv, caught_code}
use agent_v.FileChanges.Revert.{
  RevertOptions, validate_row, check_hash_now, validate_revert_preconditions, restore_content,
  write_file, unlink_file, put_back, apply_revert, publish_requested, note_failure, after_exception,
  after_apply, finish_revert, apply_and_finish, revert_found, revert_file_change,
}

-- files differ at most at the path
abbrev pub IsConfined : String → Files → Files → Type 0
IsConfined path files after =
    (other : String) → str_eq path other ≡ false → Files.read after other ≡ Files.read files other

-- a step that does no more to the files than to change the one at the path, and nothing if it raises
pub record IsOneFile {ℓ} {A : Type ℓ} (path : String) (files : Files) (after : Result A × World)
    : Type ℓ where
  pub confined : IsConfined path files after.1.files
  pub raise_keeps : (e : Error) → after.0 ≡ raised e → after.1.files ≡ files

kept_files {ℓ} :
    {A : Type ℓ} (path : String) (files : Files) (before : World) (after : Result A × World)
    → before.files ≡ files
    → after.1.files ≡ before.files
    → IsOneFile path files after
kept_files path files before after same kept = record {
  confined = λ other apart. rw (kept, same) refl;
  raise_keeps = λ e done. kept ∙ same;
}

module _ (env : Env) (file_env : FileEnv) where
  write_file-IsOneFile :
      (path content : String) (world : World)
      → IsOneFile path world.files (write_file env file_env path content world)
  unfolding write_file
  write_file-IsOneFile path content world = elim (Bool-cases (file_env.write_fails path)) [
    | inl fails ↦ rw fails (record { confined = λ other apart. refl; raise_keeps = λ e done. refl })
    | inr good ↦ rw good (record {
      confined = λ other apart. rw read-write (rw apart refl);
      raise_keeps = λ e done. absurd cc;
    })
  ]

  unlink_file-IsOneFile :
      (path : String) (world : World)
      → IsOneFile path world.files (unlink_file env file_env path world)
  unfolding unlink_file
  unlink_file-IsOneFile path world = elim (Option-cases (Files.read world.files path)) [
    | inl missing ↦
        rw missing (record { confined = λ other apart. refl; raise_keeps = λ e done. refl })
    | inr (text, there) ↦ elim (Bool-cases (file_env.unlink_fails path)) [
      | inl fails ↦
          rw (there, fails)
            (record { confined = λ other apart. refl; raise_keeps = λ e done. refl })
      | inr good ↦
          rw (there, good)
            (record {
              confined = λ other apart. rw read-unlink (rw apart refl);
              raise_keeps = λ e done. absurd cc;
            })
    ]
  ]

  put_back-IsOneFile :
      (path : String) (content : Option String) (world : World)
      → IsOneFile path world.files (put_back env file_env path content world)
  unfolding put_back
  put_back-IsOneFile path none world = record {
    confined = λ other apart. refl;
    raise_keeps = λ e done. refl;
  }
  put_back-IsOneFile path (some content) world = write_file-IsOneFile path content world

  apply_revert-IsOneFile :
      (operation : FileOperation) (path : String) (content : Option String) (world : World)
      → IsOneFile path world.files (apply_revert env file_env operation path content world)
  unfolding apply_revert
  apply_revert-IsOneFile FileOperation.add path content world = unlink_file-IsOneFile path world
  apply_revert-IsOneFile FileOperation.write path content world =
      put_back-IsOneFile path content world
  apply_revert-IsOneFile FileOperation.edit path content world =
      put_back-IsOneFile path content world
  apply_revert-IsOneFile FileOperation.update path content world =
      put_back-IsOneFile path content world
  apply_revert-IsOneFile FileOperation.delete path content world =
      put_back-IsOneFile path content world
  apply_revert-IsOneFile FileOperation.patch path content world =
      put_back-IsOneFile path content world

  after_exception-keeps :
      (row : FileChange) (e : Error) (code : Option FileChangeCode) (world : World)
      → (after_exception env file_env row e code world).1.files ≡ world.files
  unfolding after_exception note_failure
  after_exception-keeps row e none world = refl
  after_exception-keeps row e (some code) world = refl

  after_apply-IsOneFile :
      (row : FileChange) (path : String) (files : Files) (result : Result (Unit {0}))
      (world : World)
      → IsOneFile path files (result, world)
      → IsOneFile path files (after_apply env file_env row (result, world))
  unfolding after_apply
  after_apply-IsOneFile row path files (ok done) world one = one
  after_apply-IsOneFile row path files (raised e) world one =
      kept_files path files world _ (one.raise_keeps e refl)
        (after_exception-keeps row e (caught_code e) world)

  validate_row-KeepsState :
      (options : RevertOptions) (row : FileChange)
      → KeepsState (validate_row env file_env options row)
  unfolding validate_row
  validate_row-KeepsState options row world = ground arith

  pub check_hash_now-KeepsState :
      (options : RevertOptions) (row : FileChange)
      → KeepsState (check_hash_now env file_env options row)
  unfolding check_hash_now
  check_hash_now-KeepsState options row world = require-KeepsState _ _ world

  -- The checks before a revert change nothing.
  pub validate-KeepsState :
      (options : RevertOptions) (check_hash : Bool) (row : FileChange)
      → KeepsState (validate_revert_preconditions env file_env options check_hash row)
  unfolding validate_revert_preconditions
  validate-KeepsState options true row =
      then-KeepsState (validate_row env file_env options row)
        (check_hash_now env file_env options row) (validate_row-KeepsState options row)
        (check_hash_now-KeepsState options row)
  validate-KeepsState options false row =
      then-KeepsState (validate_row env file_env options row) (return tt)
        (validate_row-KeepsState options row) (λ world. refl)

  finish_keeps :
      (now : ℕ) (options : RevertOptions) (row : FileChange) (from_git : Bool) (world : World)
      → (finish_revert env file_env now options row from_git world).1.files ≡ world.files
  unfolding finish_revert
  finish_keeps now options row from_git world = refl

  finish-IsOneFile :
      (now : ℕ) (options : RevertOptions) (row : FileChange) (from_git : Bool) (path : String)
      (files : Files) (result : Result (Unit {0})) (world : World)
      → IsOneFile path files (result, world)
      → IsOneFile path files
          (resume result world (λ x. finish_revert env file_env now options row from_git))
  unfolding finish_revert
  finish-IsOneFile now options row from_git path files (ok done) world one = record {
    confined = one.confined;
    raise_keeps = λ e raising. absurd cc;
  }
  finish-IsOneFile now options row from_git path files (raised e) world one = record {
    confined = one.confined;
    raise_keeps = λ f raising. one.raise_keeps e refl;
  }

  apply_and_finish-IsOneFile :
      (now : ℕ) (options : RevertOptions) (row : FileChange) (world : World)
      → IsOneFile row.resolved_path world.files
          (apply_and_finish env file_env now options row world)
  unfolding apply_and_finish
  apply_and_finish-IsOneFile now options row world =
      let restored = restore_content env file_env options row in
      let applied = apply_revert env file_env row.operation row.resolved_path restored.0 world in
      let after = after_apply env file_env row applied in
      finish-IsOneFile now options row restored.1 row.resolved_path world.files after.0 after.1 (
        after_apply-IsOneFile row row.resolved_path world.files applied.0 applied.1
          (apply_revert-IsOneFile row.operation row.resolved_path restored.0 world))

  revert_found-IsOneFile :
      (now : ℕ) (options : RevertOptions) (row : FileChange) (world : World)
      → IsOneFile row.resolved_path world.files (revert_found env file_env now options row world)
  unfolding revert_found publish_requested
  revert_found-IsOneFile now options row world =
      let middle = (publish_requested env file_env options row world).1 in
      let apply = apply_and_finish env file_env now options row in
      let check = check_hash_now env file_env options row in
      let one : Result FileChange × World → Type 0 = IsOneFile row.resolved_path middle.files in
      let refused : (e : Error) → one (raised e, middle) =
        λ e. record { confined = λ other apart. refl; raise_keeps = λ f raising. refl } in
      check_then one (validate_revert_preconditions env file_env options true row) (check >> apply)
        middle (validate-KeepsState options true row) refused
        (check_then one check apply middle (check_hash_now-KeepsState options row) refused
          (apply_and_finish-IsOneFile now options row middle))

  -- A revert of a stored change touches no file but the change's own, and if it raises, every file is
  -- as it was.
  pub revert_file_change-IsOneFile :
      (now : ℕ) (options : RevertOptions) (id : ℕ) (row : FileChange) (world : World)
      → Table.find world.file_changes id ≡ some row
      → IsOneFile row.resolved_path world.files
          (revert_file_change env file_env now options id world)
  unfolding revert_file_change
  revert_file_change-IsOneFile now options id row world stored =
      rw stored (revert_found-IsOneFile now options row world)
