-- ===== src/FileChanges/Routes.antt =====
-- The routes that revert (api/routes_file_changes.py). A response is the row or the result that it is
-- made of; the texts and details of an `HTTPException` are left out.
pub mod Gate
use agent_v.Prelude.{
  ℕ, String, Bool, true, false, not, ◌&&◌, ◌||◌, Option, none, some, List, [], ◌∷◌, is_none, length,
  leb, map, if◌then◌else◌,
}
use agent_v.Json.{Json, bool, str, arr, obj, Items, nil, cons, Fields, end, field, opt_str}
use agent_v.Env.{Env}
use agent_v.Events
use agent_v.Events.{
  EventType, Severity, file_change_revert_approved, file_change_batch_revert_requested,
  file_change_batch_reverted, file_change_batch_revert_failed,
}
use agent_v.World.{World}
use agent_v.World.Rows.{FileChange}
use agent_v.Table
use agent_v.Exec.{
  Result, ok, raised, Error, http_exception, FileChangeCode, Exec, return, raise, read, require,
  ◌>>=◌, ◌>>◌,
}
use agent_v.EventBus.{publish}
use agent_v.Queue.Worker.{rollback}
use agent_v.FileChanges.{FileEnv, is_secret_filename, caught_code, code_text, status_code}
use agent_v.FileChanges.Approval.{create_revert_permission_request, verify_revert_approval}
use agent_v.FileChanges.Batch.{BatchRevertResult, is_empty, revert_file_changes_batch}
use agent_v.FileChanges.Revert.{RevertOptions, is_reverted, revert_file_change}

-- the part of `settings.file_changes` that the routes read
pub record RouteSettings : Type 0 where
  pub secret_filename_globs : List String
  pub git_fallback_enabled : Bool
  pub revert_requires_approval : Bool

-- `RevertRequest`
pub record RevertRequest : Type 0 where
  pub force : Bool
  pub permission_request_id : Option ℕ

abbrev pub http_error : FileChangeCode → Error
http_error code = http_exception (status_code code) (code_text code)

-- `except FileChangeError as exc: await db.rollback(); raise _file_change_error_response(exc)`: the
-- database goes back to the last commit, the files do not
rollback_response : {A : Type 0} → World → Error → Option FileChangeCode → Exec World A
rollback_response committed e none = raise e
rollback_response committed e (some code) =
    λ world. (raised (http_error code), rollback committed world)

respond : {A : Type 0} → World → Result A × World → Result A × World
unfolding rollback_response
respond committed (ok a, world) = (ok a, world)
respond committed (raised e, world) = rollback_response committed e (caught_code e) world

abbrev found_or_404 : Option FileChange → Exec World FileChange
found_or_404 none = raise (http_error FileChangeCode.not_found)
found_or_404 (some row) = return row

abbrev pub options_of : RouteSettings → RevertRequest → RevertOptions
options_of settings request = record {
  actor_user_id = none;
  tool_call_id = none;
  force = request.force;
  permission_request_id = request.permission_request_id;
  secret_globs = settings.secret_filename_globs;
  git_fallback_enabled = settings.git_fallback_enabled;
}

module _ (env : Env) (file_env : FileEnv) where
  publish_for : FileChange → EventType → Severity → Fields → Exec World Unit
  unfolding publish
  publish_for row event_type severity payload = publish env (record {
    tenant = some row.tenant;
    session_id = some row.session_id;
    agent_run_id = row.agent_run_id;
    tool_call_id = row.tool_call_id;
    event_type = event_type;
    severity = severity;
    payload = obj payload;
  })

  -- the approval of a single revert
  approval_gate : World → Bool → FileChange → Bool → Option ℕ → Exec World Unit
  unfolding respond publish_for
  approval_gate committed false row force id = return tt
  approval_gate committed true row force none = do
    create_revert_permission_request env row force
    raise (http_exception 202 "permission_pending")
  approval_gate committed true row force (some id) = do
    (λ world. respond committed (verify_revert_approval env row id force world))
    publish_for row file_change_revert_approved Events.info (
        field "file_change_id" (str (env.uuid_text row.id))
          (field "permission_request_id" (str (env.uuid_text id)) end))

  prepare_revert : World → RouteSettings → ℕ → RevertRequest → Exec World FileChange
  unfolding approval_gate
  prepare_revert committed settings file_change_id request = do
    found ← read (λ world. Table.find world.file_changes file_change_id)
    row ← found_or_404 found
    require (not (is_reverted row.revert_status)) (http_error FileChangeCode.already_reverted)
    require (not row.redacted && row.revertible) (http_error FileChangeCode.forbidden)
    require (file_env.is_inside row.resolved_path) (http_error FileChangeCode.forbidden)
    require
        (request.force
          || not (is_secret_filename file_env row.relative_path settings.secret_filename_globs))
        (http_error FileChangeCode.secret_requires_force)
    approval_gate committed settings.revert_requires_approval row request.force
        request.permission_request_id
    return row

  unfoldable pub revert_file_change_route :
      ℕ → RouteSettings → ℕ → RevertRequest → Exec World FileChange
  unfolding prepare_revert respond
  revert_file_change_route now settings file_change_id request committed =
      (prepare_revert committed settings file_change_id request >> (λ world.
          respond committed (
            revert_file_change env file_env now (options_of settings request) file_change_id
              world)))
        committed

  load_rows : List ℕ → Exec World (List FileChange)
  load_rows [] = return []
  load_rows (id ∷ ids) = do
    found ← read (λ world. Table.find world.file_changes id)
    row ← found_or_404 found
    rows ← load_rows ids
    return (row ∷ rows)

  id_items : List ℕ → Items
  id_items [] = nil
  id_items (id ∷ ids) = cons (str (env.uuid_text id)) (id_items ids)

  -- the payload of the event that a batch is requested
  requested_payload : List ℕ → ℕ → Bool → Fields
  unfolding id_items
  requested_payload ids permission_request_id force = field "change_ids" (arr (id_items ids)) (
      field "permission_request_id" (str (env.uuid_text permission_request_id))
        (field "force" (bool force) end))

  verify_rows : World → ℕ → Bool → List FileChange → Exec World Unit
  unfolding respond
  verify_rows committed id force [] = return tt
  verify_rows committed id force (row ∷ rows) = do
    (λ world. respond committed (verify_revert_approval env row id force world))
    verify_rows committed id force rows

  -- the approval of a batch, whose first row stands for it
  batch_gate :
      World → Bool → List ℕ → FileChange → List FileChange → Bool → Option ℕ → Exec World Unit
  unfolding publish_for verify_rows requested_payload
  batch_gate committed false ids first rows force id = return tt
  batch_gate committed true ids first rows force none = do
    made ← create_revert_permission_request env first force
    publish_for first file_change_batch_revert_requested Events.info
        (requested_payload ids made.id force)
    raise (http_exception 202 "permission_pending")
  batch_gate committed true ids first rows force (some id) = do
    verify_rows committed id force (first ∷ rows)
    publish_for first file_change_batch_revert_requested Events.info
        (requested_payload ids id force)

  -- the response to a batch that has run
  batch_response : List ℕ → FileChange → Bool → BatchRevertResult → Exec World BatchRevertResult
  unfolding publish_for id_items
  batch_response ids first force result = elim result.error [
    | some code ↦ (do
      publish_for first file_change_batch_revert_failed Events.error (
          field "change_ids" (arr (id_items ids)) (
            field "error" (str (code_text code))
              (field "restored_from_snapshots" (bool result.restored_from_snapshots) end)))
      raise (http_exception 409 "file_change_batch_revert_failed"))
    | none ↦
        if is_empty result.skipped
        then (do
          publish_for first file_change_batch_reverted Events.info (
              field "change_ids" (arr (id_items ids)) (
                field "force" (bool force)
                  (field "restored_from_snapshots" (bool result.restored_from_snapshots) end)))
          return result)
        else raise (http_exception 409 "file_change_batch_rejected")
  ]

  run_batch :
      World → ℕ → RouteSettings → RevertRequest → List FileChange → Exec World BatchRevertResult
  unfolding batch_gate batch_response
  run_batch committed now settings request [] = raise (http_exception 422 "")
  run_batch committed now settings request (first ∷ rows) = do
    let ids = first.id ∷ map (λ row. row.id) rows
    batch_gate committed settings.revert_requires_approval ids first rows request.force
        request.permission_request_id
    result ← λ world.
        respond committed
          (revert_file_changes_batch env file_env now (options_of settings request) ids world)
    batch_response ids first request.force result

  -- A body without ids does not pass the model of the request.
  unfoldable pub revert_file_changes_batch_route :
      ℕ → RouteSettings → List ℕ → RevertRequest → Exec World BatchRevertResult
  unfolding load_rows run_batch
  revert_file_changes_batch_route now settings change_ids request committed =
      (do
        require (leb (length change_ids) 100) (http_error FileChangeCode.validation)
        rows ← load_rows change_ids
        run_batch committed now settings request rows)
        committed
