-- ===== src/FileChanges/Batch/Restored.antt =====
-- The files after a batch in which a revert raises (file_changes/file_change_service.py).
use agent_v.Prelude.{
  ℕ, String, true, false, ◌≡◌, refl, sym, ap, ◌∙◌, Option, none, some, List, [], ◌∷◌, ◌++◌, All,
  All-map, length, leb, Bool-cases, inl, inr,
}
use mathlib.Core.Path.{subst}
use agent_v.Env.{Env}
use agent_v.Files
use agent_v.Files.{Files}
use agent_v.World.{World}
use agent_v.World.Rows.{FileChange}
use agent_v.Table
use agent_v.Table.{Table}
use agent_v.Exec.{Result, Error, ok, raised, file_change_error, FileChangeCode}
use agent_v.FileChanges.{FileEnv, caught_code}
use agent_v.FileChanges.Revert.{RevertOptions, revert_file_change}
use agent_v.FileChanges.Revert.Confined.{IsOneFile, IsConfined, revert_file_change-IsOneFile}
use agent_v.FileChanges.Revert.Targets.{SameTargets, revert_file_change-SameTargets}
use agent_v.FileChanges.Batch.{
  BatchRevertResult, Checked, empty_result, skipped_of, Snapshot, is_in, dedupe, rows_of,
  is_rejected, take_snapshots, roll_back, caught_revert, after_revert, apply_all, apply_checked,
  revert_file_changes_batch,
}
use agent_v.FileChanges.Batch.Touched.{
  touched-fewer, IsOneOf, All-IsOneOf, last-is_in, still_stored,
}
use agent_v.FileChanges.Batch.Checks.{all-AreChecked}
use agent_v.FileChanges.Batch.RollBack.{
  is_touched, SameFiles, IsRestorable, roll_back-ok, snapshot_of-take_snapshots,
  roll_back-SameFiles,
}

module _ (env : Env) (file_env : FileEnv) (now : ℕ) (options : RevertOptions) (start : World)
    (rows : List FileChange) where
  abbrev snapshots : List (String × Snapshot)
  snapshots = take_snapshots env file_env start.files rows

  abbrev Restorable : BatchRevertResult → Type 0
  Restorable result =
      All (λ row. is_in row.id result.reverted ≡ true → IsRestorable env file_env start.files row)
        rows

  -- what holds after some of the rows are reverted
  record IsUnderway (reverted : List ℕ) (world : World) : Type 0 where
    pub untouched_same :
        (path : String)
        → is_touched path reverted rows ≡ false
        → Files.read world.files path ≡ Files.read start.files path
    pub same_targets : SameTargets start.file_changes world.file_changes

  -- one more revert went well
  next-IsUnderway :
      (reverted : List ℕ) (row : FileChange) (world after : World)
      → IsUnderway reverted world
      → IsOneOf rows row
      → IsConfined row.resolved_path world.files after.files
      → SameTargets world.file_changes after.file_changes
      → IsUnderway (reverted ++ row.id ∷ []) after
  next-IsUnderway reverted row world after underway one confined targets = record {
    untouched_same = λ path untouched.
        confined path (one path (reverted ++ row.id ∷ []) (last-is_in row.id reverted) untouched)
        ∙ underway.untouched_same path (touched-fewer path reverted (row.id ∷ []) rows untouched);
    same_targets = λ id. targets id ∙ underway.same_targets id;
  }

  -- one revert raised: what was done is rolled back
  caught_revert-SameFiles :
      (result final : BatchRevertResult) (row : FileChange) (e : Error)
      (code : Option FileChangeCode) (world after : World)
      → IsUnderway result.reverted world
      → caught_revert env file_env rows snapshots row result e code world ≡ (ok final, after)
      → Restorable final
      → SameFiles start.files after.files
  unfolding caught_revert
  caught_revert-SameFiles result final row e none world after underway done restorable = absurd cc
  caught_revert-SameFiles result final row e (some code) world after underway done restorable =
      let back : Result (Unit {0}) × World =
        roll_back env file_env snapshots code result.reverted rows world in
      let left : BatchRevertResult = record result {
        restored_from_snapshots = true;
        failed = result.failed ++ (row.id, code) ∷ [];
        error = some code;
      } in
      let settled : ◌≡◌ {A = Result BatchRevertResult × World} (ok left, back.1) (ok final, after) =
        rw (roll_back-ok env file_env start.files snapshots code result.reverted rows world) at
          done in
      let same_result : left ≡ final = cc in
      let same_reverted : final.reverted ≡ result.reverted =
        sym (ap BatchRevertResult.reverted same_result) in
      let same_world : after ≡ back.1 = cc in
      rw same_world (
        roll_back-SameFiles env file_env start.files snapshots code result.reverted rows world
          (λ path. snapshot_of-take_snapshots env file_env start.files path rows)
          (subst
            (λ ids. All (λ r. is_in r.id ids ≡ true → IsRestorable env file_env start.files r) rows)
            same_reverted restorable)
          underway.untouched_same)

  apply_all-SameFiles :
      (rest : List FileChange) (result final : BatchRevertResult) (world after : World)
      → All (λ row. Table.find start.file_changes row.id ≡ some row) rest
      → All (IsOneOf rows) rest
      → result.restored_from_snapshots ≡ false
      → final.restored_from_snapshots ≡ true
      → IsUnderway result.reverted world
      → apply_all env file_env now options rows snapshots rest result world ≡ (ok final, after)
      → Restorable final
      → SameFiles start.files after.files
  unfolding apply_all
  apply_all-SameFiles [] result final world after stored one_of unrestored restored underway done
        restorable =
      let same : result ≡ final = cc in
      let impossible : false ≡ true =
        sym unrestored ∙ ap BatchRevertResult.restored_from_snapshots same ∙ restored in
      absurd cc
  apply_all-SameFiles (row ∷ rest) result final world after (stored, all_stored) (one, one_of)
        unrestored restored underway done restorable =
      let (here, found, same_id, same_path) =
        still_stored start.file_changes world.file_changes row underway.same_targets stored in
      let step = revert_file_change env file_env now options row.id world in
      go
        (λ reached begun.
          apply_all-SameFiles rest (record result { reverted = result.reverted ++ row.id ∷ [] })
            final reached after all_stored one_of unrestored restored begun)
        step.0 step.1
        (subst (λ p. IsOneFile p world.files step) same_path
          (revert_file_change-IsOneFile env file_env now options row.id here world found))
        (subst
          (λ id.
            SameTargets world.file_changes
              (revert_file_change env file_env now options id world).1.file_changes)
          same_id
          (revert_file_change-SameTargets env file_env now options here world
            (subst (λ id. Table.find world.file_changes id ≡ some here) (sym same_id) found)))
        done
    where
      go :
          ((reached : World)
            → IsUnderway (result.reverted ++ row.id ∷ []) reached
            → apply_all env file_env now options rows snapshots rest
                (record result { reverted = result.reverted ++ row.id ∷ [] })
                reached
              ≡ (ok final, after)
            → Restorable final
            → SameFiles start.files after.files)
          → (result_of : Result FileChange) (reached : World)
          → IsOneFile row.resolved_path world.files (result_of, reached)
          → SameTargets world.file_changes reached.file_changes
          → after_revert env file_env rows snapshots row result
              (λ next. apply_all env file_env now options rows snapshots rest next)
              (result_of, reached)
            ≡ (ok final, after)
          → SameFiles start.files after.files
      go next (ok reverted) reached one_file targets done =
          next reached
            (next-IsUnderway result.reverted row world reached underway one one_file.confined
              targets)
            done restorable
      go next (raised e) reached one_file targets done =
          caught_revert-SameFiles result final row e (caught_code e) reached after
            (record {
              untouched_same = λ path untouched.
                  rw (one_file.raise_keeps e refl) (underway.untouched_same path untouched);
              same_targets = λ id. targets id ∙ underway.same_targets id;
            })
            done restorable

checked-SameFiles :
    (env : Env) (file_env : FileEnv) (now : ℕ) (options : RevertOptions) (checks : List Checked)
    (result : BatchRevertResult) (world after : World)
    → All (λ row. Table.find world.file_changes row.id ≡ some row) (rows_of checks)
    → apply_checked env file_env now options checks world ≡ (ok result, after)
    → result.restored_from_snapshots ≡ true
    → All
        (λ row. is_in row.id result.reverted ≡ true → IsRestorable env file_env world.files row)
        (rows_of checks)
    → SameFiles world.files after.files
unfolding apply_checked
checked-SameFiles env file_env now options checks result world after stored done restored
      restorable =
    elim (Bool-cases (is_rejected checks)) [
      | inl rejected ↦ absurd (not_restored (rw rejected at done))
      | inr accepted ↦
          let rows = rows_of checks in
          apply_all-SameFiles env file_env now options world rows rows
            (record empty_result { skipped = skipped_of checks }) result world after stored
            (All-IsOneOf rows) refl restored
            (record { untouched_same = λ path untouched. refl; same_targets = λ id. refl })
            (rw accepted at done) restorable
    ]
  where
    not_restored :
        ◌≡◌ {A = Result BatchRevertResult × World}
          (ok (record empty_result { skipped = skipped_of checks }), world)
          (ok result, after)
        → ⊥
    not_restored done =
        let same : record empty_result { skipped = skipped_of checks } ≡ result = cc in
        let impossible : false ≡ true =
          ap BatchRevertResult.restored_from_snapshots same ∙ restored in
        absurd cc

-- A batch that says it went back did so: if every change is stored under its id, and the files of the
-- changes that the result lists as reverted were there before and can be read and written, then every
-- file is as it was before the batch.
pub revert_file_changes_batch-SameFiles :
    (env : Env) (file_env : FileEnv) (now : ℕ) (options : RevertOptions) (ids : List ℕ)
    (result : BatchRevertResult) (world after : World)
    → ((id : ℕ) (row : FileChange) → Table.find world.file_changes id ≡ some row → row.id ≡ id)
    → revert_file_changes_batch env file_env now options ids world ≡ (ok result, after)
    → result.restored_from_snapshots ≡ true
    → ((id : ℕ) (row : FileChange)
        → Table.find world.file_changes id ≡ some row
        → is_in id result.reverted ≡ true
        → IsRestorable env file_env world.files row)
    → SameFiles world.files after.files
unfolding revert_file_changes_batch
revert_file_changes_batch-SameFiles env file_env now options [] result world after keyed done
      restored restorable =
    let same : empty_result ≡ result = cc in
    let impossible : false ≡ true = ap BatchRevertResult.restored_from_snapshots same ∙ restored in
    absurd cc
revert_file_changes_batch-SameFiles env file_env now options (first ∷ ids) result world after keyed
      done restored restorable =
    elim (Bool-cases (leb (length (first ∷ ids)) 100)) [
      | inl few ↦
          let all = all-AreChecked env file_env options world (dedupe [] (first ∷ ids)) in
          let stored : All (λ row. Table.find world.file_changes row.id ≡ some row)
              (rows_of all.checks) =
            All-map _ _
              (λ row (id, found).
                subst (λ i. Table.find world.file_changes i ≡ some row) (sym (keyed id row found))
                  found)
              (rows_of all.checks) all.loads in
          checked-SameFiles env file_env now options all.checks result world after stored
            (rw (few, all.computed) at done) restored
            (All-map _ _ (λ row found. restorable row.id row found) (rows_of all.checks) stored)
      | inr many ↦ absurd (refused (rw many at done))
    ]
  where
    refused :
        ◌≡◌ {A = Result BatchRevertResult × World}
          (raised (file_change_error FileChangeCode.validation), world)
          (ok result, after)
        → ⊥
    refused e = cc
