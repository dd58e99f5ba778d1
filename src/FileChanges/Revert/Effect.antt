-- ===== src/FileChanges/Revert/Effect.antt =====
-- What a revert does to the files and to the row (file_changes/file_change_service.py).
use agent_v.Prelude.{
  ℕ, String, Bool, true, false, not, ◌&&◌, ◌≡◌, refl, Option, none, some, arith, str_eq, str_eq_iff,
  if◌then◌else◌, Option-cases, inl, inr,
}
use mathlib.Core.Path.{subst}
use agent_v.Json.{Fields}
use agent_v.Env.{Env}
use agent_v.Files
use agent_v.Files.{Files, read-write, read-unlink}
use agent_v.World.{World}
use agent_v.World.Rows.{FileChange, FileOperation}
use agent_v.Table
use agent_v.Table.{find-put}
use agent_v.Exec.{Result, ok}
use agent_v.FileChanges.{FileEnv, is_secret_filename}
use agent_v.FileChanges.Revert.{
  RevertOptions, is_reverted, hash_matches, validate_row, check_hash_now,
  validate_revert_preconditions, restore_content, write_file, unlink_file, put_back, apply_revert,
  publish_requested, after_apply, noted_source, finish_revert, revert_found, revert_file_change,
  reverted_row,
}

abbrev pub text_given_back : Option String → Option (Option String)
text_given_back none = none
text_given_back (some content) = some (some content)

-- the file after a revert, from what there is to put back; nothing if it cannot be reverted
abbrev pub text_after : FileOperation → Option String → Option (Option String)
text_after FileOperation.add content = some none
text_after _ content = text_given_back content

absent :
    (path other : String) (files : Files)
    → Files.read files path ≡ none
    → Files.read files other ≡ (if str_eq path other then none else Files.read files other)
absent path other files missing = ground (arith, str_eq_iff path other)

some-same : (a b : Option String) → ◌≡◌ {A = Option (Option String)} (some a) (some b) → a ≡ b
some-same a b e = cc

module _ (env : Env) (file_env : FileEnv) where
  -- the checks of a row that do not look at the file
  abbrev pub is_allowed : RevertOptions → FileChange → Bool
  is_allowed options row =
      not (is_reverted row.revert_status)
      && (row.revertible
          && (not row.redacted
              && (file_env.is_inside row.resolved_path
                  && not (is_secret_filename file_env row.relative_path options.secret_globs))))

  -- the revert of row is in order, and `goal` is the file that it leaves
  pub record IsInOrder (options : RevertOptions) (row : FileChange) (files : Files)
      (goal : Option String) : Type 0 where
    pub allowed : is_allowed options row ≡ true
    pub same_hash : hash_matches env file_env options.force row files ≡ true
    pub goal_known :
        text_after row.operation (restore_content env file_env options row).0 ≡ some goal
    pub writes : file_env.write_fails row.resolved_path ≡ false
    pub unlinks : file_env.unlink_fails row.resolved_path ≡ false

  abbrev with_files : Files → World → World
  with_files files world = record world { files = files }

  record Applied (path : String) (goal : Option String) (world : World)
      (after : Result (Unit {0}) × World) : Type 0 where
    pub files : Files
    pub applied : after ≡ (ok tt, with_files files world)
    pub read_after :
        (other : String)
        → Files.read files other
          ≡ (if str_eq path other then goal else Files.read world.files other)

  write-Applied :
      (path content : String) (world : World)
      → file_env.write_fails path ≡ false
      → Applied path (some content) world (write_file env file_env path content world)
  unfolding write_file
  write-Applied path content world good = rw good (record {
    files = Files.write path content world.files;
    applied = refl;
    read_after = λ other. read-write path other content world.files;
  })

  unlink-Applied :
      (path : String) (world : World)
      → file_env.unlink_fails path ≡ false
      → Applied path none world (unlink_file env file_env path world)
  unfolding unlink_file
  unlink-Applied path world good = elim (Option-cases (Files.read world.files path)) [
    | inl missing ↦ rw missing (record {
      files = world.files;
      applied = refl;
      read_after = λ other. absent path other world.files missing;
    })
    | inr (text, there) ↦
        rw (there, good)
          (record {
            files = Files.unlink path world.files;
            applied = refl;
            read_after = λ other. read-unlink path other world.files;
          })
  ]

  put_back-Applied :
      (path : String) (content : Option String) (goal : Option String) (world : World)
      → text_given_back content ≡ some goal
      → file_env.write_fails path ≡ false
      → Applied path goal world (put_back env file_env path content world)
  unfolding put_back
  put_back-Applied path none goal world known good = absurd (impossible known)
    where
      impossible : ◌≡◌ {A = Option (Option String)} none (some goal) → ⊥
      impossible e = cc
  put_back-Applied path (some content) goal world known good =
      subst (λ g. Applied path g world (write_file env file_env path content world))
        (some-same (some content) goal known) (write-Applied path content world good)

  apply_revert-Applied :
      (operation : FileOperation) (path : String) (content goal : Option String) (world : World)
      → text_after operation content ≡ some goal
      → file_env.write_fails path ≡ false
      → file_env.unlink_fails path ≡ false
      → Applied path goal world (apply_revert env file_env operation path content world)
  unfolding apply_revert
  apply_revert-Applied FileOperation.add path content goal world known writes unlinks =
      subst (λ g. Applied path g world (unlink_file env file_env path world))
        (some-same none goal known) (unlink-Applied path world unlinks)
  apply_revert-Applied FileOperation.write path content goal world known writes unlinks =
      put_back-Applied path content goal world known writes
  apply_revert-Applied FileOperation.edit path content goal world known writes unlinks =
      put_back-Applied path content goal world known writes
  apply_revert-Applied FileOperation.update path content goal world known writes unlinks =
      put_back-Applied path content goal world known writes
  apply_revert-Applied FileOperation.delete path content goal world known writes unlinks =
      put_back-Applied path content goal world known writes
  apply_revert-Applied FileOperation.patch path content goal world known writes unlinks =
      put_back-Applied path content goal world known writes

  abbrev pub metadata_after : RevertOptions → FileChange → Fields
  metadata_after options row =
      noted_source env file_env (restore_content env file_env options row).1 row.metadata_json

  -- a world after a revert that went well
  pub record IsReverted (now : ℕ) (options : RevertOptions) (row : FileChange)
      (goal : Option String) (world : World) (after : Result FileChange × World) : Type 0 where
    pub returned : after.0 ≡ ok (reverted_row now options (metadata_after options row) row)
    pub row_saved :
        after.1.file_changes
        ≡ Table.put world.file_changes row.id
            (reverted_row now options (metadata_after options row) row)
    pub file_restored :
        (path : String)
        → Files.read after.1.files path
          ≡ (if str_eq row.resolved_path path then goal else Files.read world.files path)

  -- A change that passes the checks before the hash changes nothing.
  pub validates :
      (options : RevertOptions) (row : FileChange) (world : World)
      → is_allowed options row ≡ true
      → validate_row env file_env options row world ≡ (ok tt, world)
  unfolding validate_row
  validates options row world allowed = ground arith

  hash_checked :
      (options : RevertOptions) (row : FileChange) (world : World)
      → hash_matches env file_env options.force row world.files ≡ true
      → check_hash_now env file_env options row world ≡ (ok tt, world)
  unfolding check_hash_now
  hash_checked options row world same = rw same refl

  preconditions_hold :
      (options : RevertOptions) (row : FileChange) (world : World)
      → is_allowed options row ≡ true
      → hash_matches env file_env options.force row world.files ≡ true
      → validate_revert_preconditions env file_env options true row world ≡ (ok tt, world)
  unfolding validate_revert_preconditions
  preconditions_hold options row world allowed same =
      rw (validates options row world allowed) (hash_checked options row world same)

  revert_found-IsReverted :
      (now : ℕ) (options : RevertOptions) (row : FileChange) (goal : Option String) (world : World)
      → IsInOrder options row world.files goal
      → IsReverted now options row goal world (revert_found env file_env now options row world)
  unfolding revert_found publish_requested after_apply finish_revert
  revert_found-IsReverted now options row goal world order =
      let middle = (publish_requested env file_env options row world).1 in
      let done =
        apply_revert-Applied row.operation row.resolved_path
          (restore_content env file_env options row).0 goal middle order.goal_known order.writes
          order.unlinks in
      rw (preconditions_hold options row middle order.allowed order.same_hash) (
        rw (hash_checked options row middle order.same_hash) (
          rw done.applied
            (record { returned = refl; row_saved = refl; file_restored = done.read_after })))

  -- A stored change whose checks pass, whose file still has the recorded hash where that is asked
  -- for, for which there is a text to put back, and whose file can be written and unlinked, is
  -- reverted: its file is that text, or is gone if the change had added it, every other file is as
  -- it was, and the row is returned and stored as reverted.
  pub revert_file_change-IsReverted :
      (now : ℕ) (options : RevertOptions) (id : ℕ) (row : FileChange) (goal : Option String)
      (world : World)
      → Table.find world.file_changes id ≡ some row
      → IsInOrder options row world.files goal
      → IsReverted now options row goal world (revert_file_change env file_env now options id world)
  unfolding revert_file_change
  revert_file_change-IsReverted now options id row goal world stored order =
      rw stored (revert_found-IsReverted now options row goal world order)
