-- ===== src/HumanInput/Listing.antt =====
-- `list_requests` and `expire_pending` (runtime/human_input_service.py).
pub mod Found
use agent_v.Prelude.{
  keeps_filter, ℕ, Bool, true, ◌&&◌, Option, none, some, List, [], ◌∷◌, if◌then◌else◌,
}
use agent_v.Env.{Env}
use agent_v.World.{World}
use agent_v.World.Rows.{HumanInputRequest, HumanInputStatus, pending}
use agent_v.Table
use agent_v.Exec.{Exec, return, read, ◌>>=◌, ◌>>◌}
use agent_v.HumanInput.Context.{status_eq}
use agent_v.HumanInput.Changes.{is_expired}
use agent_v.HumanInput.Service.{expire_request}

-- `list_requests`, narrowed by organization, session and status. The rows of one query; their order
-- by time of creation is not modelled.
unfoldable pub keeps_status : Option HumanInputStatus → HumanInputStatus → Bool
keeps_status none s = true
keeps_status (some t) s = status_eq s t

requests_of :
    Option ℕ → Option ℕ → Option HumanInputStatus → List HumanInputRequest → List HumanInputRequest
unfolding keeps_status
requests_of organization_id session_id status [] = []
requests_of organization_id session_id status (r ∷ rs) =
    let rest = requests_of organization_id session_id status rs in
    if keeps_filter organization_id r.tenant.organization_id
      && (keeps_filter session_id r.session_id && keeps_status status r.status)
    then r ∷ rest
    else rest

unfoldable pub list_requests :
    Option ℕ → Option ℕ → Option HumanInputStatus → World → List HumanInputRequest
unfolding requests_of
list_requests organization_id session_id status world =
    requests_of organization_id session_id status (Table.values world.human_inputs)

-- The loop of `expire_pending`, which ends at the first request that cannot be expired.
module _ (env : Env) (now : ℕ) where
  expire_each : List HumanInputRequest → Exec World (List HumanInputRequest)
  expire_each [] = return []
  expire_each (r ∷ rs) =
      let rest = expire_each rs in
      if is_expired now r.expires_at
      then (do expire_request env now r.id; more ← rest; return (r ∷ more))
      else rest

  unfoldable pub expire_pending : Exec World (List HumanInputRequest)
  unfolding expire_each
  expire_pending = do waiting ← read (list_requests none none (some pending)); expire_each waiting
