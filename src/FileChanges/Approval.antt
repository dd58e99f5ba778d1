-- ===== src/FileChanges/Approval.antt =====
-- The approval of a revert: `compute_approval_nonce` (file_changes/file_change_service.py),
-- `_revert_request_payload`, `_create_revert_permission_request` and `_verify_revert_approval`
-- (api/routes_file_changes.py).
pub mod Bound
pub mod Unanswered
use agent_v.Prelude.{ℕ, String, Bool, true, false, not, ◌&&◌, Option, none, some, str_eq}
use agent_v.Json.{bool, str, arr, obj, nil, cons, Fields, end, field, get, text_of, text_or_null}
use agent_v.Env.{Env}
use agent_v.Events.{file_change_revert_waiting_permission, info}
use agent_v.World.{World}
use agent_v.World.Rows.{FileChange, PermissionRequest, PermissionStatus, approved}
use agent_v.Table
use agent_v.Exec.{
  Exec, file_change_error, FileChangeCode, return, raise, read, require, ◌>>=◌, ◌>>◌,
}
use agent_v.EventBus.{publish}
use agent_v.Permissions.Context.{permission_status_eq}
use agent_v.Permissions.Service.{PermissionRequestCreate, create_request}

-- `REVERT_PERMISSION_KEY`
abbrev pub revert_permission_key : String
revert_permission_key = "file_change.revert"

module _ (env : Env) where
  unfoldable pub nonce_payload : ℕ → String → Option String → Bool → Fields
  nonce_payload file_change_id relative_path expected_after_sha256 force =
      field "file_change_id" (str (env.uuid_text file_change_id)) (
        field "relative_path" (str relative_path) (
          field "expected_after_sha256" (text_or_null expected_after_sha256)
            (field "force" (bool force) end)))

  unfoldable pub compute_approval_nonce : ℕ → String → Option String → Bool → String
  unfolding nonce_payload
  compute_approval_nonce file_change_id relative_path expected_after_sha256 force =
      env.sha256
        (env.dumps (obj (nonce_payload file_change_id relative_path expected_after_sha256 force)))

  -- the nonce that both the request and its check compute for a row
  abbrev pub nonce_of : FileChange → Bool → String
  nonce_of row force = compute_approval_nonce row.id row.relative_path row.after_sha256 force

  unfoldable pub revert_request_payload : FileChange → Bool → Fields
  revert_request_payload row force = field "tool" (str "file_change.revert") (
      field "reason" (str "file_change_revert_requires_approval") (
        field "tool_name" (str "file_change.revert") (
          field "risk_level" (str "medium") (
            field "operation_type" (str "revert") (
              field "target_paths" (arr (cons (str row.relative_path) nil)) (
                field "input_hash" (str (nonce_of row force)) (field "force" (bool force) end)))))))

  unfoldable pub revert_request : FileChange → Bool → PermissionRequestCreate
  unfolding revert_request_payload
  revert_request row force = record {
    tenant = row.tenant;
    session_id = row.session_id;
    agent_run_id = row.agent_run_id;
    tool_call_id = row.tool_call_id;
    permission_key = revert_permission_key;
    resource = row.relative_path;
    input_json = obj (
        field "file_change_id" (str (env.uuid_text row.id)) (
          field "relative_path" (str row.relative_path) (
            field "force" (bool force)
              (field "expected_after_sha256" (text_or_null row.after_sha256) end))));
    metadata_json = revert_request_payload row force;
    requested_by_user_id = none;
  }

  publish_waiting : FileChange → Bool → PermissionRequest → Exec World Unit
  unfolding publish
  publish_waiting row force request = publish env (record {
    tenant = some row.tenant;
    session_id = some row.session_id;
    agent_run_id = row.agent_run_id;
    tool_call_id = row.tool_call_id;
    event_type = file_change_revert_waiting_permission;
    severity = info;
    payload = obj (
        field "file_change_id" (str (env.uuid_text row.id)) (
          field "permission_request_id" (str (env.uuid_text request.id)) (
            field "relative_path" (str row.relative_path) (
              field "force" (bool force)
                (field "approval_nonce" (str (nonce_of row force)) end)))));
  })

  unfoldable pub create_revert_permission_request : FileChange → Bool → Exec World PermissionRequest
  unfolding revert_request publish_waiting create_request
  create_revert_permission_request row force = do
    request ← create_request env (revert_request row force)
    publish_waiting row force request
    return request

  -- the request carries the nonce of this row and flag
  abbrev pub nonce_matches : FileChange → Bool → PermissionRequest → Bool
  nonce_matches row force request =
      let stored_nonce = text_of (get request.metadata_json "input_hash") in
      not (str_eq stored_nonce "") && str_eq stored_nonce (nonce_of row force)

  check_approval : FileChange → Bool → Option PermissionRequest → Exec World Unit
  check_approval row force none = raise (file_change_error FileChangeCode.validation)
  check_approval row force (some request) = do
    require (str_eq request.permission_key revert_permission_key)
        (file_change_error FileChangeCode.forbidden)
    require (permission_status_eq request.status approved)
        (file_change_error FileChangeCode.conflict)
    require (nonce_matches row force request) (file_change_error FileChangeCode.forbidden)

  unfoldable pub verify_revert_approval : FileChange → ℕ → Bool → Exec World Unit
  unfolding check_approval
  verify_revert_approval row permission_request_id force = do
    found ← read (λ world. Table.find world.permissions permission_request_id)
    check_approval row force found
