-- ===== src/FileChanges/Batch/RollBack.antt =====
-- What the roll-back of a batch does to the files (file_changes/file_change_service.py).
use agent_v.Prelude.{
  ℕ, String, Bool, true, false, ◌&&◌, ◌≡◌, refl, sym, Option, none, some, List, [], ◌∷◌, any, All,
  arith, str_eq, str_eq_refl, str_eq_iff, if◌then◌else◌, Bool-cases, inl, inr,
}
use mathlib.Core.Path.{subst}
use agent_v.Env.{Env}
use agent_v.Files
use agent_v.Files.{Files, read-write}
use agent_v.World.{World}
use agent_v.World.Rows.{FileChange}
use agent_v.Exec.{ok, FileChangeCode}
use agent_v.FileChanges.{FileEnv}
use agent_v.FileChanges.Revert.{write_file}
use agent_v.FileChanges.Batch.{
  Snapshot, is_in, snapshot_of, ignore_failure, take_snapshot, take_snapshots, put_snapshot,
  note_rolled_back, roll_back_row, roll_back,
}

-- a reverted change has this path
abbrev pub is_touched : String → List ℕ → List FileChange → Bool
is_touched path reverted rows =
    any (λ row. is_in row.id reverted && str_eq row.resolved_path path) rows

-- some change has this path
abbrev pub is_target : String → List FileChange → Bool
is_target path rows = any (λ row. str_eq row.resolved_path path) rows

abbrev pub SameFiles : Files → Files → Type 0
SameFiles before after = (path : String) → Files.read after path ≡ Files.read before path

module _ (env : Env) (file_env : FileEnv) (before : Files) where
  -- the file of a change was there, and can be read and written
  pub record IsRestorable (row : FileChange) : Type 0 where
    pub text : String
    pub there : Files.read before row.resolved_path ≡ some text
    pub reads : file_env.read_fails row.resolved_path ≡ false
    pub writes : file_env.write_fails row.resolved_path ≡ false

  pub snapshot_of-take_snapshots :
      (path : String) (rows : List FileChange)
      → is_target path rows ≡ true
      → snapshot_of path (take_snapshots env file_env before rows)
        ≡ take_snapshot env file_env before path
  unfolding snapshot_of take_snapshots
  snapshot_of-take_snapshots path [] target = absurd cc
  snapshot_of-take_snapshots path (row ∷ rows) target =
      elim (Bool-cases (str_eq row.resolved_path path)) [
        | inl same ↦
            let at_path : row.resolved_path ≡ path =
              ground (arith, str_eq_iff row.resolved_path path) in
            rw same (rw at_path refl)
        | inr other ↦ rw other (snapshot_of-take_snapshots path rows (rw other at target))
      ]

  note_rolled_back-files :
      (code : FileChangeCode) (found : Option FileChange) (world : World)
      → (note_rolled_back env file_env code found world).files ≡ world.files
  unfolding note_rolled_back
  note_rolled_back-files code none world = refl
  note_rolled_back-files code (some row) world = refl

  old_text :
      (row : FileChange) (restorable : IsRestorable row) (world : World) (path : String)
      → (if str_eq row.resolved_path path
          then some restorable.text
          else Files.read world.files path)
        ≡ (if str_eq row.resolved_path path
            then Files.read before path
            else Files.read world.files path)
  old_text row restorable world path = elim (Bool-cases (str_eq row.resolved_path path)) [
    | inl same ↦
        let at_path : row.resolved_path ≡ path =
          ground (arith, str_eq_iff row.resolved_path path) in
        rw same
          (sym (subst (λ p. Files.read before p ≡ some restorable.text) at_path restorable.there))
    | inr other ↦ rw other refl
  ]

  module _ (snapshots : List (String × Snapshot)) (code : FileChangeCode) where
    -- a restored file has its old text, and no other file is touched
    roll_back_row-files :
        (row : FileChange) (restorable : IsRestorable row) (world : World) (path : String)
        → snapshot_of row.resolved_path snapshots
          ≡ take_snapshot env file_env before row.resolved_path
        → Files.read (roll_back_row env file_env snapshots code row world).1.files path ≡ (
            if str_eq row.resolved_path path
            then Files.read before path
            else Files.read world.files path)
    unfolding roll_back_row take_snapshot put_snapshot ignore_failure write_file
    roll_back_row-files row restorable world path snapshot = rw note_rolled_back-files (
        rw (snapshot, restorable.reads, restorable.there)
          (rw restorable.writes (rw read-write (old_text row restorable world path))))

    -- the rows from here on are rolled back, and then every file is as before
    pub roll_back-SameFiles :
        (reverted : List ℕ) (rows : List FileChange) (world : World)
        → ((path : String)
            → is_target path rows ≡ true
            → snapshot_of path snapshots ≡ take_snapshot env file_env before path)
        → All (λ row. is_in row.id reverted ≡ true → IsRestorable row) rows
        → ((path : String)
            → is_touched path reverted rows ≡ false
            → Files.read world.files path ≡ Files.read before path)
        → SameFiles before (roll_back env file_env snapshots code reverted rows world).1.files
    unfolding roll_back
    roll_back-SameFiles reverted [] world snapshot restorable same = λ path. same path refl
    roll_back-SameFiles reverted (row ∷ rows) world snapshot (restore, restorable) same =
        elim (Bool-cases (is_in row.id reverted)) [
          | inl was_reverted ↦
              let next = (roll_back_row env file_env snapshots code row world).1 in
              let own = snapshot row.resolved_path (rw (str_eq_refl row.resolved_path) refl) in
              rw was_reverted (
                roll_back-SameFiles reverted rows next
                  (λ path target. snapshot path (rw target (ground arith))) restorable
                  (λ path untouched.
                    rw (roll_back_row-files row (restore was_reverted) world path own)
                      (elim (Bool-cases (str_eq row.resolved_path path)) [
                        | inl here ↦ rw here refl
                        | inr other ↦
                            rw other (same path (rw (was_reverted, other, untouched) refl))
                      ])))
          | inr kept ↦ rw kept (
              roll_back-SameFiles reverted rows world
                (λ path target. snapshot path (rw target (ground arith))) restorable
                (λ path untouched. same path (rw (kept, untouched) refl)))
        ]

    pub roll_back-ok :
        (reverted : List ℕ) (rows : List FileChange) (world : World)
        → (roll_back env file_env snapshots code reverted rows world).0 ≡ ok tt
    unfolding roll_back roll_back_row
    roll_back-ok reverted [] world = refl
    roll_back-ok reverted (row ∷ rows) world = elim (Bool-cases (is_in row.id reverted)) [
      | inl was_reverted ↦ rw was_reverted (roll_back-ok reverted rows _)
      | inr kept ↦ rw kept (roll_back-ok reverted rows world)
    ]
