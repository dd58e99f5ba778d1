-- ===== src/Permissions/Listing.antt =====
-- `PermissionService.list_pending` (permissions/service.py).
pub mod Found
use agent_v.Prelude.{ℕ, Bool, true, false, ◌&&◌, Option, List, [], ◌∷◌, if◌then◌else◌, keeps_filter}
use agent_v.World.{World}
use agent_v.World.Rows.{PermissionRequest, PermissionStatus, pending}
use agent_v.Table

-- `select(...).where(status == "pending")`, narrowed by organization and session
unfoldable pub is_pending : PermissionStatus → Bool
is_pending pending = true
is_pending _ = false

pending_of : Option ℕ → Option ℕ → List PermissionRequest → List PermissionRequest
unfolding is_pending
pending_of organization_id session_id [] = []
pending_of organization_id session_id (r ∷ rs) =
    let rest = pending_of organization_id session_id rs in
    if is_pending r.status
      && (keeps_filter organization_id r.tenant.organization_id
          && keeps_filter session_id r.session_id)
    then r ∷ rest
    else rest

-- The rows of one query; their order by time of creation is not modelled.
unfoldable pub list_pending : Option ℕ → Option ℕ → World → List PermissionRequest
unfolding pending_of
list_pending organization_id session_id world =
    pending_of organization_id session_id (Table.values world.permissions)
