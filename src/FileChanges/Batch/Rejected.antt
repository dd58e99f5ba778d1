-- ===== src/FileChanges/Batch/Rejected.antt =====
-- A batch that holds a change which may not be reverted (file_changes/file_change_service.py).
use agent_v.Prelude.{ℕ, true, false, not, ◌≡◌, refl, some, List, [], ◌∷◌, any, arith, length, leb}
use agent_v.Env.{Env}
use agent_v.World.{World}
use agent_v.World.Rows.{FileChange}
use agent_v.Table
use agent_v.Exec.{ok}
use agent_v.FileChanges.{FileEnv}
use agent_v.FileChanges.Revert.{RevertOptions}
use agent_v.FileChanges.Revert.Effect.{is_allowed}
use agent_v.FileChanges.Batch.Checks.{is_refused, all-AreChecked}
use agent_v.FileChanges.Batch.{
  BatchRevertResult, Checked, valid, unsafe, empty_result, is_in, dedupe, skipped_of, is_not_found,
  is_rejected, apply_checked, revert_file_changes_batch,
}

any_refused-skipped_of :
    (checks : List Checked)
    → any is_refused checks ≡ true
    → any (λ entry. not (is_not_found entry.1)) (skipped_of checks) ≡ true
unfolding skipped_of
any_refused-skipped_of [] refused = refused
any_refused-skipped_of (valid row ∷ checks) refused = any_refused-skipped_of checks refused
any_refused-skipped_of (unsafe id code ∷ checks) refused =
    ground (arith, any_refused-skipped_of checks)

refused-is_rejected :
    (checks : List Checked) → any is_refused checks ≡ true → is_rejected checks ≡ true
unfolding is_rejected
refused-is_rejected checks refused = rw (any_refused-skipped_of checks refused) refl

-- an id that is in a list is in it also after the repetitions are gone
in-dedupe :
    (id : ℕ) (seen ids : List ℕ)
    → is_in id ids ≡ true
    → is_in id seen ≡ false
    → is_in id (dedupe seen ids) ≡ true
unfolding dedupe
in-dedupe id seen [] here new = absurd cc
in-dedupe id seen (other ∷ ids) here new =
    ground (arith, in-dedupe id seen ids, in-dedupe id (other ∷ seen) ids)

module _ (env : Env) (file_env : FileEnv) (options : RevertOptions) (world : World) where
  apply_checked-rejected :
      (now : ℕ) (checks : List Checked)
      → any is_refused checks ≡ true
      → apply_checked env file_env now options checks world
        ≡ (ok (record empty_result { skipped = skipped_of checks }), world)
  unfolding apply_checked
  apply_checked-rejected now checks refused = rw (refused-is_rejected checks refused) refl

  -- One stored change that may not be reverted, in a batch of at most 100: the batch returns, nothing
  -- is reverted, and nothing at all is changed.
  pub revert_file_changes_batch-rejected :
      (now id : ℕ) (row : FileChange) (ids : List ℕ)
      → leb (length ids) 100 ≡ true
      → is_in id ids ≡ true
      → Table.find world.file_changes id ≡ some row
      → is_allowed env file_env options row ≡ false
      → (result : BatchRevertResult) × (revert_file_changes_batch env file_env now options ids world
          ≡ (ok result, world))
        × (result.reverted ≡ [])
        × (result.failed ≡ [])
  unfolding revert_file_changes_batch
  revert_file_changes_batch-rejected now id row [] few here stored refused = absurd cc
  revert_file_changes_batch-rejected now id row (first ∷ ids) few here stored refused =
      let all = all-AreChecked env file_env options world (dedupe [] (first ∷ ids)) in
      let rejected =
        apply_checked-rejected now all.checks
          (all.refuses id row (in-dedupe id [] (first ∷ ids) here refl) stored refused) in
      (
        record empty_result { skipped = skipped_of all.checks },
        rw (few, all.computed, rejected) refl,
        refl,
        refl,
      )
