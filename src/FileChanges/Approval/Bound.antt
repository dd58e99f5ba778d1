-- ===== src/FileChanges/Approval/Bound.antt =====
-- What an approval of a revert is bound to (api/routes_file_changes.py).
use agent_v.Prelude.{
  ℕ, String, Bool, true, false, ◌≡◌, refl, Option, none, some, arith, ap, sym, ◌∙◌, str_eq,
  str_eq_iff, Option-cases, inl, inr,
}
use agent_v.Json.{Json, obj, get, text_of, text_or_null}
use agent_v.Env.{Env}
use agent_v.World.{World}
use agent_v.World.Rows.{FileChange, PermissionRequest, approved}
use agent_v.Table
use agent_v.Exec.{Error, ok, require, ◌>>◌}
use agent_v.Permissions.Context.{permission_status_eq}
use agent_v.FileChanges.Approval.{
  revert_permission_key, nonce_payload, compute_approval_nonce, nonce_of, nonce_matches,
  check_approval, verify_revert_approval,
}

abbrev pub payload_of : Env → FileChange → Bool → Json
payload_of env row force = obj (nonce_payload env row.id row.relative_path row.after_sha256 force)

-- `dumps`, `sha256` and `str(uuid)` do not give two different arguments here the same result.
pub record NoCollision (env : Env) (row other : FileChange) (force forced : Bool) : Type 0 where
  pub sha256_apart :
      env.sha256 (env.dumps (payload_of env row force))
        ≡ env.sha256 (env.dumps (payload_of env other forced))
      → env.dumps (payload_of env row force) ≡ env.dumps (payload_of env other forced)
  pub dumps_apart :
      env.dumps (payload_of env row force) ≡ env.dumps (payload_of env other forced)
      → payload_of env row force ≡ payload_of env other forced
  pub uuid_apart : env.uuid_text row.id ≡ env.uuid_text other.id → row.id ≡ other.id

-- the two reverts are one
pub record IsSameRevert (row other : FileChange) (force forced : Bool) : Type 0 where
  pub same_change : row.id ≡ other.id
  pub same_path : row.relative_path ≡ other.relative_path
  pub same_hash : row.after_sha256 ≡ other.after_sha256
  pub same_force : force ≡ forced

text_or_null-same : (a b : Option String) → text_or_null a ≡ text_or_null b → a ≡ b
text_or_null-same none none e = refl
text_or_null-same none (some b) e = absurd cc
text_or_null-same (some a) none e = absurd cc
text_or_null-same (some a) (some b) e = cc

some-same : (a b : PermissionRequest) → ◌≡◌ {A = Option PermissionRequest} (some a) (some b) → a ≡ b
some-same a b e = cc

-- three guards in a row
requires_hold :
    (a b c : Bool) (e f g : Error) (world after : World)
    → (require a e >> (require b f >> require c g)) world ≡ (ok tt, after)
    → (a ≡ true) × (b ≡ true) × (c ≡ true)
requires_hold true true true e f g world after done = (refl, refl, refl)
requires_hold false b c e f g world after done = absurd cc
requires_hold true false c e f g world after done = absurd cc
requires_hold true true false e f g world after done = absurd cc

module _ (env : Env) where
  payload-same :
      (row other : FileChange) (force forced : Bool)
      → (env.uuid_text row.id ≡ env.uuid_text other.id → row.id ≡ other.id)
      → payload_of env row force ≡ payload_of env other forced
      → IsSameRevert row other force forced
  unfolding nonce_payload
  payload-same row other force forced uuid same = record {
    same_change = uuid cc;
    same_path = cc;
    same_hash = text_or_null-same row.after_sha256 other.after_sha256 cc;
    same_force = cc;
  }

  nonce_of-same :
      (row other : FileChange) (force forced : Bool)
      → NoCollision env row other force forced
      → nonce_of env row force ≡ nonce_of env other forced
      → IsSameRevert row other force forced
  unfolding compute_approval_nonce
  nonce_of-same row other force forced apart same =
      payload-same row other force forced apart.uuid_apart
        (apart.dumps_apart (apart.sha256_apart same))

  -- the stored request that a check accepts
  pub record IsApproved (id : ℕ) (row : FileChange) (force : Bool) (world : World) : Type 0 where
    pub request : PermissionRequest
    pub stored : Table.find world.permissions id ≡ some request
    pub for_revert : str_eq request.permission_key revert_permission_key ≡ true
    pub status_approved : permission_status_eq request.status approved ≡ true
    pub same_nonce : nonce_matches env row force request ≡ true

  check_approval-nonce :
      (row : FileChange) (force : Bool) (request : PermissionRequest) (world after : World)
      → check_approval env row force (some request) world ≡ (ok tt, after)
      → (str_eq request.permission_key revert_permission_key ≡ true)
        × (permission_status_eq request.status approved ≡ true)
        × (nonce_matches env row force request ≡ true)
  unfolding check_approval
  check_approval-nonce row force request world after done =
      requires_hold _ _ (nonce_matches env row force request) _ _ _ world after done

  -- What a check of an approval accepts is a stored request for reverts, which is approved and
  -- carries the nonce of this change and flag.
  pub verify_revert_approval-IsApproved :
      (row : FileChange) (id : ℕ) (force : Bool) (world after : World)
      → verify_revert_approval env row id force world ≡ (ok tt, after)
      → IsApproved id row force world
  unfolding verify_revert_approval
  verify_revert_approval-IsApproved row id force world after done =
      elim (Option-cases (Table.find world.permissions id)) [
        | inl missing ↦ absurd (not_found (rw missing at done))
        | inr (request, there) ↦
            let (key, status, nonce) =
              check_approval-nonce row force request world after (rw there at done) in
            record {
              request = request;
              stored = there;
              for_revert = key;
              status_approved = status;
              same_nonce = nonce;
            }
      ]
    where
      not_found : check_approval env row force none world ≡ (ok tt, after) → ⊥
      not_found e = cc

  stored_nonce :
      (row : FileChange) (force : Bool) (request : PermissionRequest)
      → nonce_matches env row force request ≡ true
      → text_of (get request.metadata_json "input_hash") ≡ nonce_of env row force
  stored_nonce row force request same = ground (
    arith,
    str_eq_iff (text_of (get request.metadata_json "input_hash")) (nonce_of env row force),
  )

  accepted-same :
      (row other : FileChange) (id : ℕ) (force forced : Bool) (world first second : World)
      → NoCollision env row other force forced
      → verify_revert_approval env row id force world ≡ (ok tt, first)
      → verify_revert_approval env other id forced world ≡ (ok tt, second)
      → IsSameRevert row other force forced
  accepted-same row other id force forced world first second apart done again =
      let one = verify_revert_approval-IsApproved row id force world first done in
      let two = verify_revert_approval-IsApproved other id forced world second again in
      let one_nonce = stored_nonce row force one.request one.same_nonce in
      let two_nonce = stored_nonce other forced two.request two.same_nonce in
      let one_request : one.request ≡ two.request =
        some-same one.request two.request (sym one.stored ∙ two.stored) in
      nonce_of-same row other force forced apart (
        sym one_nonce
        ∙ ap (λ r. text_of (get (PermissionRequest.metadata_json r) "input_hash")) one_request
        ∙ two_nonce)

  same-nonce_of :
      (row other : FileChange) (force forced : Bool)
      → IsSameRevert row other force forced
      → nonce_of env row force ≡ nonce_of env other forced
  same-nonce_of row other force forced same =
      rw (same.same_change, same.same_path, same.same_hash, same.same_force) refl

  approved-accepted :
      (row : FileChange) (id : ℕ) (force : Bool) (world : World)
      → IsApproved id row force world
      → verify_revert_approval env row id force world ≡ (ok tt, world)
  unfolding verify_revert_approval check_approval
  approved-accepted row id force world good =
      rw (good.stored, good.for_revert, good.status_approved, good.same_nonce) refl

  -- A request that is accepted for one revert is accepted for another exactly if the two are the same:
  -- the change, its path, its recorded hash and the flag are equal. It is asked that the hashes and
  -- the texts of the two do not collide.
  pub verify_revert_approval-same :
      (row other : FileChange) (id : ℕ) (force forced : Bool) (world : World)
      → NoCollision env row other force forced
      → verify_revert_approval env row id force world ≡ (ok tt, world)
      → (verify_revert_approval env other id forced world ≡ (ok tt, world)
          → IsSameRevert row other force forced)
        × (IsSameRevert row other force forced
            → verify_revert_approval env other id forced world ≡ (ok tt, world))
  verify_revert_approval-same row other id force forced world apart done = (
    accepted-same row other id force forced world world world apart done,
    λ same.
        let good = verify_revert_approval-IsApproved row id force world world done in
        approved-accepted other id forced world (record {
          request = good.request;
          stored = good.stored;
          for_revert = good.for_revert;
          status_approved = good.status_approved;
          same_nonce = rw (sym (same-nonce_of row other force forced same)) good.same_nonce;
        }),
  )
