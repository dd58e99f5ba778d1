-- ===== src/FileChanges/Batch.antt =====
-- `revert_file_changes_batch` (file_changes/file_change_service.py). The `message` of an error is left
-- out: its code stands for it. The options of a batch have no tool_call_id.
pub mod Checks
pub mod Rejected
pub mod RollBack
pub mod Touched
pub mod Restored
use agent_v.Prelude.{
  ℕ, String, append, Bool, true, false, not, ◌&&◌, ◌||◌, Option, none, some, List, [], ◌∷◌, ◌++◌,
  any, is_none, length, leb, ◌==◌, str_eq, if◌then◌else◌,
}
use agent_v.Env.{Env}
use agent_v.Files
use agent_v.Files.{Files}
use agent_v.World.{World}
use agent_v.World.Rows.{FileChange}
use agent_v.Table
use agent_v.Exec.{
  Result, ok, raised, Error, file_change_error, FileChangeCode, Exec, return, raise, read, modify,
  require, ◌>>=◌, ◌>>◌,
}
use agent_v.FileChanges.{FileEnv, caught_code, code_text}
use agent_v.FileChanges.Revert.{
  RevertOptions, validate_revert_preconditions, revert_file_change, write_file, unlink_file,
  save_change, revert_failed_row,
}

pub record BatchRevertResult : Type 0 where
  pub reverted : List ℕ
  pub skipped : List (ℕ × FileChangeCode)
  pub failed : List (ℕ × FileChangeCode)
  pub restored_from_snapshots : Bool
  pub error : Option FileChangeCode

-- what the validation of one id gives: the row, or the reason to skip the id
pub data Checked : Type 0 where
  valid : FileChange → Checked
  unsafe : ℕ → FileChangeCode → Checked

-- whether the file was there, and its text: the value of `snapshots`
pub record Snapshot : Type 0 where
  pub existed : Bool
  pub content : Option String

abbrev pub empty_result : BatchRevertResult
empty_result = record {
  reverted = [];
  skipped = [];
  failed = [];
  restored_from_snapshots = false;
  error = none;
}

abbrev pub is_in : ℕ → List ℕ → Bool
is_in id ids = any (λ other. other == id) ids

-- the ids, each once, in the order in which they first come; `seen` holds those that came
unfoldable pub dedupe : List ℕ → List ℕ → List ℕ
dedupe seen [] = []
dedupe seen (id ∷ ids) =
    let others = dedupe (id ∷ seen) ids in
    let rest = dedupe seen ids in if is_in id seen then rest else id ∷ others

unfoldable pub rows_of : List Checked → List FileChange
rows_of [] = []
rows_of (valid row ∷ checks) = row ∷ rows_of checks
rows_of (unsafe id code ∷ checks) = rows_of checks

unfoldable pub skipped_of : List Checked → List (ℕ × FileChangeCode)
skipped_of [] = []
skipped_of (valid row ∷ checks) = skipped_of checks
skipped_of (unsafe id code ∷ checks) = (id, code) ∷ skipped_of checks

abbrev pub is_not_found : FileChangeCode → Bool
is_not_found FileChangeCode.not_found = true
is_not_found _ = false

abbrev pub is_empty {ℓ} : {A : Type ℓ} → List A → Bool
is_empty [] = true
is_empty (x ∷ xs) = false

-- the test between the validation and the snapshots
unfoldable pub is_rejected : List Checked → Bool
unfolding rows_of skipped_of
is_rejected checks =
    any (λ entry. not (is_not_found entry.1)) (skipped_of checks)
    || (not (is_empty (skipped_of checks)) && is_empty (rows_of checks))

-- `snapshots.get(target, (False, None))`; two entries for one path hold the same
unfoldable pub snapshot_of : String → List (String × Snapshot) → Snapshot
snapshot_of path [] = record { existed = false; content = none }
snapshot_of path ((p, snapshot) ∷ rest) = if str_eq p path then snapshot else snapshot_of path rest

-- `except OSError: pass`, and so for any exception
ignore_failure : Result (Unit {0}) × World → Result (Unit {0}) × World
ignore_failure (done, world) = (ok tt, world)

module _ (env : Env) (file_env : FileEnv) where
  caught_check : FileChange → Error → Option FileChangeCode → Exec World Checked
  caught_check row e (some code) = return (unsafe row.id code)
  caught_check row e none = raise e

  check_row : FileChange → Result (Unit {0}) × World → Result Checked × World
  unfolding caught_check
  check_row row (ok done, world) = (ok (valid row), world)
  check_row row (raised e, world) = caught_check row e (caught_code e) world

  pub check_found : RevertOptions → ℕ → Option FileChange → Exec World Checked
  unfolding check_row
  check_found options id none = return (unsafe id FileChangeCode.not_found)
  check_found options id (some row) =
      λ world. check_row row (validate_revert_preconditions env file_env options false row world)

  pub check_all : RevertOptions → List ℕ → Exec World (List Checked)
  unfolding check_found
  check_all options [] = return []
  check_all options (id ∷ ids) = do
    found ← read (λ world. Table.find world.file_changes id)
    check ← check_found options id found
    checks ← check_all options ids
    return (check ∷ checks)

  pub take_snapshot : Files → String → Snapshot
  take_snapshot files path =
      if file_env.read_fails path then record { existed = false; content = none } else record {
        existed = not (is_none (Files.read files path));
        content = Files.read files path;
      }

  pub take_snapshots : Files → List FileChange → List (String × Snapshot)
  unfolding take_snapshot
  take_snapshots files [] = []
  take_snapshots files (row ∷ rows) =
      (row.resolved_path, take_snapshot files row.resolved_path) ∷ take_snapshots files rows

  put_snapshot : String → Snapshot → Exec World Unit
  put_snapshot path snapshot = elim snapshot.existed [
    | false ↦ return tt
    | true ↦ elim snapshot.content [
      | some text ↦ write_file env file_env path text
      | none ↦ unlink_file env file_env path
    ]
  ]

  -- The row is the one that the revert changed: its other columns stay.
  note_rolled_back : FileChangeCode → Option FileChange → World → World
  note_rolled_back code none world = world
  note_rolled_back code (some row) world =
      save_change (revert_failed_row (append "rolled_back_due_to:" (code_text code)) row) world

  roll_back_row : List (String × Snapshot) → FileChangeCode → FileChange → Exec World Unit
  unfolding snapshot_of ignore_failure put_snapshot note_rolled_back
  roll_back_row snapshots code row = do
    (λ world.
        ignore_failure
          (put_snapshot row.resolved_path (snapshot_of row.resolved_path snapshots) world))
    modify (λ world. note_rolled_back code (Table.find world.file_changes row.id) world)

  -- `for previous in rows: if previous.id in result.reverted`
  pub roll_back :
      List (String × Snapshot) → FileChangeCode → List ℕ → List FileChange → Exec World Unit
  unfolding roll_back_row
  roll_back snapshots code reverted [] = return tt
  roll_back snapshots code reverted (row ∷ rows) = do
    if is_in row.id reverted then roll_back_row snapshots code row else return tt
    roll_back snapshots code reverted rows

  caught_revert :
      List FileChange
      → List (String × Snapshot)
      → FileChange
      → BatchRevertResult
      → Error
      → Option FileChangeCode
      → Exec World BatchRevertResult
  unfolding roll_back
  caught_revert rows snapshots row result e none = raise e
  caught_revert rows snapshots row result e (some code) = do
    roll_back snapshots code result.reverted rows
    return (record result {
      restored_from_snapshots = true;
      failed = result.failed ++ (row.id, code) ∷ [];
      error = some code;
    })

  -- after one revert: on to the next, or back
  after_revert :
      List FileChange
      → List (String × Snapshot)
      → FileChange
      → BatchRevertResult
      → (BatchRevertResult → Exec World BatchRevertResult)
      → Result FileChange × World
      → Result BatchRevertResult × World
  unfolding caught_revert
  after_revert rows snapshots row result go (ok done, world) =
      go (record result { reverted = result.reverted ++ row.id ∷ [] }) world
  after_revert rows snapshots row result go (raised e, world) =
      caught_revert rows snapshots row result e (caught_code e) world

  pub apply_all :
      ℕ
      → RevertOptions
      → List FileChange
      → List (String × Snapshot)
      → List FileChange
      → BatchRevertResult
      → Exec World BatchRevertResult
  unfolding after_revert
  apply_all now options rows snapshots [] result = return result
  apply_all now options rows snapshots (row ∷ rest) result = λ world.
      after_revert rows snapshots row result
        (λ next. apply_all now options rows snapshots rest next)
        (revert_file_change env file_env now options row.id world)

  -- from the validated ids on
  pub apply_checked : ℕ → RevertOptions → List Checked → Exec World BatchRevertResult
  unfolding is_rejected take_snapshots apply_all
  apply_checked now options checks =
      let result = record empty_result { skipped = skipped_of checks } in
      let rows = rows_of checks in
      if is_rejected checks then return result else (do
        snapshots ← read (λ world. take_snapshots world.files rows)
        apply_all now options rows snapshots rows result)

  unfoldable pub revert_file_changes_batch :
      ℕ → RevertOptions → List ℕ → Exec World BatchRevertResult
  unfolding dedupe check_all apply_checked
  revert_file_changes_batch now options [] = return empty_result
  revert_file_changes_batch now options file_change_ids = do
    require (leb (length file_change_ids) 100) (file_change_error FileChangeCode.validation)
    checks ← check_all options (dedupe [] file_change_ids)
    apply_checked now options checks
