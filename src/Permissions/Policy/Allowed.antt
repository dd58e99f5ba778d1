-- ===== src/Permissions/Policy/Allowed.antt =====
-- What a default decision to allow means (permissions/policy.py).
use agent_v.Prelude.{
  String, Bool, true, false, ◌≡◌, refl, ◌&&◌, ◌||◌, Option, none, some, List, [], ◌∷◌, All, All-map,
  any, contains, str_eq, str_eq_iff, arith, if◌then◌else◌, Option-cases, Bool-cases, inl, inr, ◌⊎◌,
  ◌∙◌,
}
use mathlib.Core.Path.{subst, sym}
use agent_v.Json.{Fields, get, text_of}
use agent_v.Permissions.Policy.{
  PermissionAction, allow, ask, deny, or_else, PermissionDecision, PolicyEnv, write_permission_keys,
  read_permission_keys, default_action, policy_of, first_decision, split_resource_paths,
  normalize_policy_path, is_external_path, secret_path_action, check_directory, check_path,
  secret_decision, shell_decision, default_decision, evaluate_default_policy,
}

abbrev pub is_allow : PermissionAction → Bool
is_allow allow = true
is_allow _ = false

Restricts : (String → Option PermissionDecision) → Type 0
Restricts decide =
    (raw : String) (d : PermissionDecision) → decide raw ≡ some d → is_allow d.action ≡ false

first_decision-Restricts :
    (decide : String → Option PermissionDecision)
    → Restricts decide
    → (paths : List String) (d : PermissionDecision) → first_decision decide paths ≡ some d
    → is_allow d.action ≡ false
unfolding Restricts first_decision
first_decision-Restricts decide restricts [] d h = cc
first_decision-Restricts decide restricts (raw ∷ rest) d h = elim (Option-cases (decide raw)) [
  | inl nothing ↦ first_decision-Restricts decide restricts rest d (rw nothing at h)
  | inr (first, found) ↦ restricts raw d (found ∙ (rw found at h))
]

first_decision-none :
    (decide : String → Option PermissionDecision) (paths : List String)
    → first_decision decide paths ≡ none
    → All (λ raw. decide raw ≡ none) paths
unfolding first_decision
first_decision-none decide [] h = tt
first_decision-none decide (raw ∷ rest) h = elim (Option-cases (decide raw)) [
  | inl nothing ↦ (nothing, first_decision-none decide rest (rw nothing at h))
  | inr (first, found) ↦ absurd (impossible first (rw found at h))
]
  where
    impossible : (first : PermissionDecision) → some first ≡ none → ⊥
    impossible first e = cc

module _ (env : PolicyEnv) (external_write_policy : PermissionAction) (key : String) where
  secret_decision-Restricts :
      (path : String) (action : Option PermissionAction) (d : PermissionDecision)
      → secret_decision env path action ≡ some d
      → is_allow d.action ≡ false
  unfolding secret_decision
  secret_decision-Restricts path action d h = ground arith

  check_path-Restricts :
      is_allow external_write_policy ≡ false → Restricts (check_path env external_write_policy key)
  unfolding Restricts check_path
  check_path-Restricts asks raw d h = ground (
    arith,
    secret_decision-Restricts (normalize_policy_path env raw)
        (secret_path_action env (normalize_policy_path env raw)) d,
  )

  -- what is known of a path that the loop passes over
  Open : String → Type 0
  Open raw =
      (secret_path_action env (normalize_policy_path env raw) ≡ none)
      × ((is_external_path env (normalize_policy_path env raw) && contains read_permission_keys key)
          ≡ false)

  secret_decision-none :
      (path : String)
      → secret_decision env path (secret_path_action env path) ≡ none
      → secret_path_action env path ≡ none
  unfolding secret_decision secret_path_action
  secret_decision-none path h = ground arith

  check_path-Open : (raw : String) → check_path env external_write_policy key raw ≡ none → Open raw
  unfolding Open check_path
  check_path-Open raw h = ground (arith, secret_decision-none (normalize_policy_path env raw))

settled :
    (a b : Option PermissionDecision) (c : PermissionDecision)
    → ((d : PermissionDecision) → a ≡ some d → is_allow d.action ≡ false)
    → ((d : PermissionDecision) → b ≡ some d → is_allow d.action ≡ false)
    → is_allow (or_else a (or_else b c)).action ≡ true
    → (a ≡ none) × (b ≡ none) × (is_allow c.action ≡ true)
settled none none c ra rb h = (refl, refl, h)
settled none (some d) c ra rb h = let refused : is_allow d.action ≡ false = rb d refl in cc
settled (some d) b c ra rb h = let refused : is_allow d.action ≡ false = ra d refl in cc

is_allow-true : (action : PermissionAction) → is_allow action ≡ true → action ≡ allow
is_allow-true allow h = refl
is_allow-true ask h = cc
is_allow-true deny h = cc

unfoldable pub guarded_key : String → Bool
guarded_key key = contains write_permission_keys key || str_eq key "bash.run"

which_key :
    (key : String)
    → guarded_key key ≡ true
    → ("write.file" ≡ key) ⊎ (("edit.file" ≡ key) ⊎ (("patch.apply" ≡ key) ⊎ ("bash.run" ≡ key)))
unfolding guarded_key
which_key key h = ground (
  arith,
  str_eq_iff "write.file" key,
  str_eq_iff "edit.file" key,
  str_eq_iff "patch.apply" key,
  str_eq_iff key "bash.run",
)

default_action-guarded : (key : String) → guarded_key key ≡ true → default_action key ≡ ask
unfolding default_action policy_of
default_action-guarded key h = elim (which_key key h) [
  | inl e ↦ subst (λ k. default_action k ≡ ask) e refl
  | inr (inl e) ↦ subst (λ k. default_action k ≡ ask) e refl
  | inr (inr (inl e)) ↦ subst (λ k. default_action k ≡ ask) e refl
  | inr (inr (inr e)) ↦ subst (λ k. default_action k ≡ ask) e refl
]

module _ (env : PolicyEnv) (external_write_policy : PermissionAction) (key resource : String)
    (input_json : Fields) where
  check_directory-Restricts : Restricts (check_directory env)
  unfolding Restricts check_directory
  check_directory-Restricts raw d h = ground arith

  shell_decision-restricts :
      (command : String) (paths : List String) (is_shell : Bool) (d : PermissionDecision)
      → (if is_shell then shell_decision env command resource paths else none) ≡ some d
      → is_allow d.action ≡ false
  unfolding shell_decision
  shell_decision-restricts command paths is_shell d h =
      ground
        (arith, first_decision-Restricts (check_directory env) check_directory-Restricts paths d)

  -- With external writes not allowed outright, a decision to allow is given only if the default for
  -- the permission key is to allow, no path of the resource names a secret file, and, for a reading
  -- key, no path lies outside the workspace.
  pub allow_is_open :
      is_allow external_write_policy ≡ false
      → is_allow (evaluate_default_policy env key resource input_json external_write_policy).action
        ≡ true
      → (default_action key ≡ allow)
        × All
            (λ raw.
              (secret_path_action env (normalize_policy_path env raw) ≡ none)
              × ((is_external_path env (normalize_policy_path env raw)
                    && contains read_permission_keys key)
                  ≡ false))
            (split_resource_paths env resource)
  unfolding evaluate_default_policy default_decision Open
  allow_is_open asks h =
      let paths = split_resource_paths env resource in
      let command = text_of (get input_json "command") in
      let check = check_path env external_write_policy key in
      let (no_shell, no_path, allowed) =
        settled (if str_eq key "bash.run" then shell_decision env command resource paths else none)
          (first_decision check paths) (default_decision env key resource)
          (shell_decision-restricts command paths (str_eq key "bash.run"))
          (first_decision-Restricts check (check_path-Restricts env external_write_policy key asks)
            paths)
          h in
      (
        is_allow-true (default_action key) allowed,
        All-map _ _ (check_path-Open env external_write_policy key) paths
            (first_decision-none check paths no_path),
      )

  -- With external writes not allowed outright, writing, editing, patching and running a command are
  -- never allowed without a person's consent.
  pub guarded_key-asks :
      is_allow external_write_policy ≡ false
      → guarded_key key ≡ true
      → is_allow (evaluate_default_policy env key resource input_json external_write_policy).action
        ≡ false
  guarded_key-asks asks guarded =
      elim (Bool-cases (
        is_allow
          (evaluate_default_policy env key resource input_json external_write_policy).action)) [
            | inl allowed ↦
                let by_default = (allow_is_open asks allowed).0 in
                absurd (differ (sym by_default ∙ default_action-guarded key guarded))
            | inr refused ↦ refused
          ]
    where
      differ : allow ≡ ask → ⊥
      differ e = cc

abbrev pub is_deny : PermissionAction → Bool
is_deny deny = true
is_deny _ = false

module _ (env : PolicyEnv) where
  abbrev pub leaves_workspace : String → Bool
  leaves_workspace raw = is_external_path env (normalize_policy_path env raw)

  directory_denied :
      (paths : List String) (other : PermissionDecision)
      → any leaves_workspace paths ≡ true
      → is_deny (or_else (first_decision (check_directory env) paths) other).action ≡ true
  unfolding first_decision check_directory
  directory_denied [] other h = cc
  directory_denied (raw ∷ rest) other h = ground (arith, directory_denied rest other)

  -- A shell command that matches a destructive pattern, or any of whose directories lies outside
  -- the workspace, is denied.
  pub shell_denied :
      (resource : String) (input_json : Fields) (external_write_policy : PermissionAction)
      → (env.destructive (text_of (get input_json "command"))
          || any leaves_workspace (split_resource_paths env resource))
        ≡ true
      → is_deny
          (evaluate_default_policy env "bash.run" resource input_json external_write_policy).action
        ≡ true
  unfolding evaluate_default_policy shell_decision
  shell_denied resource input_json external_write_policy h =
      let paths = split_resource_paths env resource in
      let rest =
        or_else (first_decision (check_path env external_write_policy "bash.run") paths)
          (default_decision env "bash.run" resource) in
      ground (arith, directory_denied paths rest)
