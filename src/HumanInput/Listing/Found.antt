-- ===== src/HumanInput/Listing/Found.antt =====
-- Which questions `list_requests` finds (runtime/human_input_service.py).
use agent_v.Prelude.{ℕ, Bool, ◌≡◌, refl, ◌&&◌, Option, List, [], ◌∷◌, any, arith, keeps_filter}
use agent_v.World.{World}
use agent_v.World.Rows.{HumanInputRequest, HumanInputStatus}
use agent_v.Table
use agent_v.HumanInput.Listing.{keeps_status, requests_of, list_requests}

module _ (organization_id session_id : Option ℕ) (status : Option HumanInputStatus)
    (test : HumanInputRequest → Bool) where
  any-requests_of :
      (rows : List HumanInputRequest)
      → any test (requests_of organization_id session_id status rows)
        ≡ any
            (λ r.
              keeps_filter organization_id r.tenant.organization_id
              && (keeps_filter session_id r.session_id && keeps_status status r.status)
              && test r)
            rows
  unfolding requests_of
  any-requests_of [] = refl
  any-requests_of (r ∷ rs) = ground (arith, any-requests_of rs)

  -- For every test on questions, some listed question passes it exactly if some stored question
  -- passes it that is in the given organization and session and has the given status, if these are
  -- given.
  pub any-list_requests :
      (world : World)
      → any test (list_requests organization_id session_id status world)
        ≡ any
            (λ r.
              keeps_filter organization_id r.tenant.organization_id
              && (keeps_filter session_id r.session_id && keeps_status status r.status)
              && test r)
            (Table.values world.human_inputs)
  unfolding list_requests
  any-list_requests world = any-requests_of (Table.values world.human_inputs)
