-- ===== src/FileChanges/Routes/Gate.antt =====
-- What the approval gate of the routes lets through (api/routes_file_changes.py).
use agent_v.Prelude.{
  ℕ, Bool, true, false, not, ◌&&◌, ◌||◌, ◌≡◌, refl, Option, none, some, Option-cases, inl, inr,
}
use agent_v.Json.{str, end, field}
use agent_v.Env.{Env}
use agent_v.Events
use agent_v.Events.{file_change_revert_approved}
use agent_v.World.{World}
use agent_v.World.Rows.{FileChange}
use agent_v.Table
use agent_v.Exec.{Exec, Result, Error, ok, raised, require, return, FileChangeCode, ◌>>◌}
use agent_v.Exec.Reads.{then-ok}
use agent_v.FileChanges.{FileEnv, is_secret_filename, caught_code}
use agent_v.FileChanges.Approval.{create_revert_permission_request, verify_revert_approval}
use agent_v.FileChanges.Approval.Bound.{IsApproved, verify_revert_approval-IsApproved}
use agent_v.FileChanges.Revert.{is_reverted, revert_file_change}
use agent_v.FileChanges.Routes.{
  RouteSettings, RevertRequest, http_error, rollback_response, respond, options_of, approval_gate,
  publish_for, prepare_revert, revert_file_change_route,
}

-- four guards before a step
guarded-ok :
    {A : Type 0} (a b c d : Bool) (e f g h : Error) (m : Exec World A) (world after : World) (x : A)
    → (require a e >> (require b f >> (require c g >> (require d h >> m)))) world ≡ (ok x, after)
    → m world ≡ (ok x, after)
guarded-ok true true true true e f g h m world after x done = done
guarded-ok false b c d e f g h m world after x done = absurd cc
guarded-ok true false c d e f g h m world after x done = absurd cc
guarded-ok true true false d e f g h m world after x done = absurd cc
guarded-ok true true true false e f g h m world after x done = absurd cc

respond-ok :
    {A : Type 0} (committed : World) (r : Result A) (s t : World) (a : A)
    → respond committed (r, s) ≡ (ok a, t)
    → ◌≡◌ {A = Result A × World} (r, s) (ok a, t)
unfolding respond
respond-ok committed (ok b) s t a done = done
respond-ok committed (raised e) s t a done = absurd (go (caught_code e) done)
  where
    go : (code : Option FileChangeCode) → rollback_response committed e code s ≡ (ok a, t) → ⊥
    go none done = cc
    go (some code) done = cc

module _ (env : Env) (file_env : FileEnv) where
  gate-IsApproved :
      (committed : World) (required : Bool) (row : FileChange) (force : Bool) (id : Option ℕ)
      (world after : World)
      → required ≡ true
      → approval_gate env file_env committed required row force id world ≡ (ok tt, after)
      → (given : ℕ) × (id ≡ some given) × IsApproved env given row force world
  unfolding approval_gate create_revert_permission_request
  gate-IsApproved committed false row force id world after required done = absurd cc
  gate-IsApproved committed true row force none world after required done = absurd cc
  gate-IsApproved committed true row force (some id) world after required done =
      let verify : Exec World (Unit {0}) =
        λ w. respond committed (verify_revert_approval env row id force w) in
      let checked = then-ok verify (published row id) world after tt done in
      (
        id,
        refl,
        verify_revert_approval-IsApproved env row id force world (verify world).1 (
            respond-ok committed (verify_revert_approval env row id force world).0
              (verify_revert_approval env row id force world).1 (verify world).1 tt checked.1),
      )
    where
      published : FileChange → ℕ → Exec World (Unit {0})
      published row id = publish_for env file_env row file_change_revert_approved Events.info (
          field "file_change_id" (str (env.uuid_text row.id))
            (field "permission_request_id" (str (env.uuid_text id)) end))

  prepare_revert-IsApproved :
      (committed : World) (settings : RouteSettings) (id : ℕ) (request : RevertRequest)
      (world after : World) (found : FileChange)
      → settings.revert_requires_approval ≡ true
      → prepare_revert env file_env committed settings id request world ≡ (ok found, after)
      → (row : FileChange) × (Table.find world.file_changes id ≡ some row)
        × ((given : ℕ) × (request.permission_request_id ≡ some given)
            × IsApproved env given row request.force world)
  unfolding prepare_revert
  prepare_revert-IsApproved committed settings id request world after found required done =
      elim (Option-cases (Table.find world.file_changes id)) [
        | inl missing ↦ absurd (not_found (rw missing at done))
        | inr (row, stored) ↦
            let gate =
              approval_gate env file_env committed settings.revert_requires_approval row
                request.force request.permission_request_id in
            let gated : (gate >> return row) world ≡ (ok found, after) =
              guarded-ok (not (is_reverted row.revert_status)) (not row.redacted && row.revertible)
                (file_env.is_inside row.resolved_path)
                (request.force
                  || not (
                      is_secret_filename file_env row.relative_path settings.secret_filename_globs))
                _ _ _ _ (gate >> return row) world after found (rw stored at done) in
            let (passed, through, ends) = then-ok gate (return row) world after found gated in
            (
              row,
              stored,
              gate-IsApproved committed settings.revert_requires_approval row request.force
                  request.permission_request_id world (gate world).1 required through,
            )
      ]
    where
      not_found :
          ◌≡◌ {A = Result FileChange × World}
            (raised (http_error FileChangeCode.not_found), world)
            (ok found, after)
          → ⊥
      not_found e = cc

  -- Where a revert needs approval, the route reverts a change only with the id of a stored request
  -- that is for reverts, is approved and carries the nonce of this change and flag.
  pub revert_file_change_route-IsApproved :
      (now : ℕ) (settings : RouteSettings) (id : ℕ) (request : RevertRequest) (world after : World)
      (reverted : FileChange)
      → settings.revert_requires_approval ≡ true
      → revert_file_change_route env file_env now settings id request world ≡ (ok reverted, after)
      → (row : FileChange) × (Table.find world.file_changes id ≡ some row)
        × ((given : ℕ) × (request.permission_request_id ≡ some given)
            × IsApproved env given row request.force world)
  unfolding revert_file_change_route
  revert_file_change_route-IsApproved now settings id request world after reverted required done =
      let prepare = prepare_revert env file_env world settings id request in
      let revert : Exec World FileChange = λ w.
        respond world (revert_file_change env file_env now (options_of settings request) id w) in
      let (found, prepared, rest) = then-ok prepare revert world after reverted done in
      prepare_revert-IsApproved world settings id request world (prepare world).1 found required
        prepared
