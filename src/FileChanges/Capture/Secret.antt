-- ===== src/FileChanges/Capture/Secret.antt =====
-- Captured changes of files with a secret name (file_changes/file_change_service.py).
use agent_v.Prelude.{ℕ, true, false, ◌≡◌, refl, none, some}
use agent_v.Env.{Env}
use agent_v.World.{World}
use agent_v.World.Rows.{FileChange}
use agent_v.Table
use agent_v.Table.{find-put_same}
use agent_v.Exec.{raised, file_change_error, FileChangeCode}
use agent_v.FileChanges.{FileEnv, is_secret_filename}
use agent_v.FileChanges.Capture.{
  FileChangeCapture, FileChangeContext, CaptureSettings, new_file_change, add_file_change,
  persist_capture,
}
use agent_v.FileChanges.Revert.{
  RevertOptions, is_reverted, validate_revert_preconditions, validate_row, revert_file_change,
}

module _ (env : Env) (file_env : FileEnv) where
  -- no text of the change is kept
  pub record HasNoText (row : FileChange) : Type 0 where
    pub no_before : row.before_content ≡ none
    pub no_after : row.after_content ≡ none
    pub no_diff : row.diff ≡ none

  secret-HasNoText :
      (ctx : FileChangeContext) (capture : FileChangeCapture) (settings : CaptureSettings) (id : ℕ)
      → is_secret_filename file_env capture.relative_path settings.secret_filename_globs ≡ true
      → HasNoText (new_file_change env file_env ctx capture settings id)
  unfolding new_file_change
  secret-HasNoText ctx capture settings id secret =
      rw secret (record { no_before = refl; no_after = refl; no_diff = refl })

  secret-irrevertible :
      (ctx : FileChangeContext) (capture : FileChangeCapture) (settings : CaptureSettings) (id : ℕ)
      → is_secret_filename file_env capture.relative_path settings.secret_filename_globs ≡ true
      → (new_file_change env file_env ctx capture settings id).revertible ≡ false
  unfolding new_file_change
  secret-irrevertible ctx capture settings id secret = rw secret refl

  -- a stored change that is not marked as revertible
  revert-irrevertible :
      (now id : ℕ) (options : RevertOptions) (row : FileChange) (world : World)
      → Table.find world.file_changes id ≡ some row
      → is_reverted row.revert_status ≡ false
      → row.revertible ≡ false
      → ((revert_file_change env file_env now options id world).0
          ≡ raised (file_change_error FileChangeCode.not_revertible))
        × ((revert_file_change env file_env now options id world).1.files ≡ world.files)
  unfolding revert_file_change validate_revert_preconditions validate_row
  revert-irrevertible now id options row world stored fresh irrevertible =
      rw (stored, fresh, irrevertible) (refl, refl)

  -- A captured change of a file whose name matches a secret pattern is stored without its texts and
  -- its diff, and to revert it raises and leaves every file as it is, forced or not.
  pub persist_capture-secret :
      (ctx : FileChangeContext) (capture : FileChangeCapture) (settings : CaptureSettings) (now : ℕ)
      (options : RevertOptions) (world : World)
      → is_secret_filename file_env capture.relative_path settings.secret_filename_globs ≡ true
      → let row = new_file_change env file_env ctx capture settings world.fresh in
        let after = (persist_capture env file_env ctx capture settings world).1 in
        let reverted = revert_file_change env file_env now options world.fresh after in
        (Table.find after.file_changes world.fresh ≡ some row)
        × HasNoText row
        × (reverted.0 ≡ raised (file_change_error FileChangeCode.not_revertible))
        × (reverted.1.files ≡ world.files)
  unfolding persist_capture
  persist_capture-secret ctx capture settings now options world secret =
      let row = new_file_change env file_env ctx capture settings world.fresh in
      let stored = find-put_same world.file_changes world.fresh row in
      let (raises, keeps) =
        revert-irrevertible now world.fresh options row (add_file_change env file_env row world)
          stored refl (secret-irrevertible ctx capture settings world.fresh secret) in
      (stored, secret-HasNoText ctx capture settings world.fresh secret, raises, keeps)
