-- ===== src/FileChanges/Batch/Checks.antt =====
-- What the validation of a batch finds (file_changes/file_change_service.py).
use agent_v.Prelude.{
  ℕ, Bool, true, false, not, ◌&&◌, ◌≡◌, refl, sym, ap, ◌∙◌, Option, none, some, List, [], ◌∷◌, any,
  All, arith, ◌==◌, Bool-cases, inl, inr,
}
use mathlib.Core.Path.{subst}
use agent_v.Env.{Env}
use agent_v.World.{World}
use agent_v.World.Rows.{FileChange}
use agent_v.Table
use agent_v.Exec.{ok, raised, require, file_change_error, FileChangeCode, ◌>>◌}
use agent_v.FileChanges.{FileEnv, is_secret_filename}
use agent_v.FileChanges.Revert.{
  RevertOptions, is_reverted, validate_row, validate_revert_preconditions,
}
use agent_v.FileChanges.Revert.Effect.{is_allowed, validates}
use agent_v.FileChanges.Batch.{
  Checked, valid, unsafe, is_in, rows_of, is_not_found, check_row, check_found, check_all,
}

-- the reason that a check of one id gives for a rejection
abbrev pub is_refused : Checked → Bool
is_refused (valid row) = false
is_refused (unsafe id code) = not (is_not_found code)

-- five guards in a row, of which one fails
guards_refuse :
    (a b c d e : Bool) (world : World)
    → (a && (b && (c && (d && e)))) ≡ false
    → (code : FileChangeCode) × (is_not_found code ≡ false)
      × ((require a (file_change_error FileChangeCode.already_reverted)
              >> (require b (file_change_error FileChangeCode.not_revertible)
                  >> (require c (file_change_error FileChangeCode.forbidden)
                      >> (require d (file_change_error FileChangeCode.forbidden)
                          >> require e (file_change_error FileChangeCode.secret_requires_force)))))
            world
          ≡ (raised (file_change_error code), world))
guards_refuse false b c d e world refused = (FileChangeCode.already_reverted, refl, refl)
guards_refuse true false c d e world refused = (FileChangeCode.not_revertible, refl, refl)
guards_refuse true true false d e world refused = (FileChangeCode.forbidden, refl, refl)
guards_refuse true true true false e world refused = (FileChangeCode.forbidden, refl, refl)
guards_refuse true true true true false world refused =
    (FileChangeCode.secret_requires_force, refl, refl)
guards_refuse true true true true true world refused = absurd cc

module _ (env : Env) (file_env : FileEnv) (options : RevertOptions) (world : World) where
  -- the check of one id changes nothing, and what it finds
  pub record IsChecked (id : ℕ) (found : Option FileChange) : Type 0 where
    pub check : Checked
    pub computed : check_found env file_env options id found world ≡ (ok check, world)
    pub refuses :
        (row : FileChange)
        → found ≡ some row
        → is_allowed env file_env options row ≡ false
        → is_refused check ≡ true
    pub loads : (row : FileChange) → check ≡ valid row → found ≡ some row

  refused_check :
      (row : FileChange)
      → is_allowed env file_env options row ≡ false
      → (code : FileChangeCode) × (is_not_found code ≡ false)
        × (validate_revert_preconditions env file_env options false row world
            ≡ (raised (file_change_error code), world))
  unfolding validate_revert_preconditions validate_row
  refused_check row refused =
      let (code, known, raises) =
        guards_refuse (not (is_reverted row.revert_status)) row.revertible (not row.redacted)
          (file_env.is_inside row.resolved_path)
          (not (is_secret_filename file_env row.relative_path options.secret_globs)) world
          refused in
      (code, known, rw raises refl)

  allowed_check :
      (row : FileChange)
      → is_allowed env file_env options row ≡ true
      → validate_revert_preconditions env file_env options false row world ≡ (ok tt, world)
  unfolding validate_revert_preconditions
  allowed_check row allowed = rw (validates env file_env options row world allowed) refl

  row-IsChecked : (id : ℕ) (row : FileChange) → IsChecked id (some row)
  unfolding check_found check_row
  row-IsChecked id row = elim (Bool-cases (is_allowed env file_env options row)) [
    | inl allowed ↦ record {
      check = valid row;
      computed = rw (allowed_check row allowed) refl;
      refuses = λ other same refused. absurd (contradiction other same allowed refused);
      loads = λ other same. cc;
    }
    | inr refused ↦
        let (code, known, raises) = refused_check row refused in
        record {
          check = unsafe row.id code;
          computed = rw raises refl;
          refuses = λ other same again. rw known refl;
          loads = λ other same. absurd cc;
        }
  ]
    where
      contradiction :
          (other : FileChange)
          → ◌≡◌ {A = Option FileChange} (some row) (some other)
          → is_allowed env file_env options row ≡ true
          → is_allowed env file_env options other ≡ false
          → ⊥
      contradiction other same allowed refused =
          let one : row ≡ other = cc in
          let impossible : true ≡ false =
            sym allowed ∙ ap (is_allowed env file_env options) one ∙ refused in
          absurd cc

  found-IsChecked : (id : ℕ) (found : Option FileChange) → IsChecked id found
  unfolding check_found
  found-IsChecked id (some row) = row-IsChecked id row
  found-IsChecked id none = record {
    check = unsafe id FileChangeCode.not_found;
    computed = refl;
    refuses = λ row same. absurd cc;
    loads = λ row same. absurd cc;
  }

  -- the checks of the ids change nothing, and what they find
  pub record AreChecked (ids : List ℕ) : Type 0 where
    pub checks : List Checked
    pub computed : check_all env file_env options ids world ≡ (ok checks, world)
    pub refuses :
        (id : ℕ) (row : FileChange)
        → is_in id ids ≡ true
        → Table.find world.file_changes id ≡ some row
        → is_allowed env file_env options row ≡ false
        → any is_refused checks ≡ true
    pub loads :
        All (λ row. (id : ℕ) × (Table.find world.file_changes id ≡ some row)) (rows_of checks)

  loads_more :
      (id : ℕ) (check : Checked) (checks : List Checked)
      → ((row : FileChange) → check ≡ valid row → Table.find world.file_changes id ≡ some row)
      → All (λ row. (i : ℕ) × (Table.find world.file_changes i ≡ some row)) (rows_of checks)
      → All
          (λ row. (i : ℕ) × (Table.find world.file_changes i ≡ some row))
          (rows_of (check ∷ checks))
  unfolding rows_of
  loads_more id (valid row) checks load loads = ((id, load row refl), loads)
  loads_more id (unsafe i code) checks load loads = loads

  -- The validation of a batch changes nothing: it loads stored rows, and refuses what may not be
  -- reverted.
  pub all-AreChecked : (ids : List ℕ) → AreChecked ids
  unfolding check_all rows_of
  all-AreChecked [] = record {
    checks = [];
    computed = refl;
    refuses = λ id row here stored refused. absurd cc;
    loads = tt;
  }
  all-AreChecked (id ∷ ids) =
      let one = found-IsChecked id (Table.find world.file_changes id) in
      let others = all-AreChecked ids in
      record {
        checks = one.check ∷ others.checks;
        computed = rw (one.computed) (rw others.computed refl);
        refuses = λ other row here stored refused. elim (Bool-cases (id == other)) [
          | inl same ↦
              let at_id : other ≡ id = sym (ground arith) in
              let stored_here : Table.find world.file_changes id ≡ some row =
                subst (λ i. Table.find world.file_changes i ≡ some row) at_id stored in
              rw (one.refuses row stored_here refused) refl
          | inr different ↦
              let later : any is_refused others.checks ≡ true =
                others.refuses other row (rw different at here) stored refused in
              rw later (ground arith)
        ];
        loads = loads_more id one.check others.checks one.loads others.loads;
      }
