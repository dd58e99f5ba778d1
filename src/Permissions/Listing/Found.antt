-- ===== src/Permissions/Listing/Found.antt =====
-- Which requests `list_pending` finds (permissions/service.py).
use agent_v.Prelude.{ℕ, Bool, ◌≡◌, refl, ◌&&◌, Option, List, [], ◌∷◌, any, arith, keeps_filter}
use agent_v.World.{World}
use agent_v.World.Rows.{PermissionRequest}
use agent_v.Table
use agent_v.Permissions.Listing.{is_pending, pending_of, list_pending}

module _ (organization_id session_id : Option ℕ) (test : PermissionRequest → Bool) where
  any-pending_of :
      (rows : List PermissionRequest)
      → any test (pending_of organization_id session_id rows)
        ≡ any
            (λ r.
              is_pending r.status
              && (keeps_filter organization_id r.tenant.organization_id
                  && keeps_filter session_id r.session_id)
              && test r)
            rows
  unfolding pending_of
  any-pending_of [] = refl
  any-pending_of (r ∷ rs) = ground (arith, any-pending_of rs)

  -- For every test on requests, some listed request passes it exactly if some stored request passes
  -- it that is pending and in the given organization and session, if these are given.
  pub any-list_pending :
      (world : World)
      → any test (list_pending organization_id session_id world)
        ≡ any
            (λ r.
              is_pending r.status
              && (keeps_filter organization_id r.tenant.organization_id
                  && keeps_filter session_id r.session_id)
              && test r)
            (Table.values world.permissions)
  unfolding list_pending
  any-list_pending world = any-pending_of (Table.values world.permissions)
