-- ===== src/Tests/Policy.antt =====
-- permissions/policy.py at concrete inputs: one path in the resource, inside the workspace.
use agent_v.Prelude.{
  Bool, true, false, ◌≡◌, refl, ◌&&◌, ◌||◌, none, some, [], ◌∷◌, All, any, str_eq, contains,
}
use agent_v.Json.{end, field, str, get, text_of}
use agent_v.Permissions.Policy.{
  PolicyEnv, allow, deny, evaluate_default_policy, default_action, secret_path_action,
  normalize_policy_path, is_external_path, read_permission_keys, split_resource_paths,
  first_decision, check_path,
}
use agent_v.Permissions.Policy.Allowed.{
  is_allow, is_deny, guarded_key, leaves_workspace, allow_is_open, guarded_key-asks, shell_denied,
}

abbrev env : PolicyEnv
env = record {
  destructive = λ command. str_eq command "sudo ls";
  shlex_split = λ command. some (command ∷ []);
  first_word = λ command. command;
  has_newline = λ text. false;
  splitlines = λ text. text ∷ [];
  split_commas = λ text. text ∷ [];
  strip = λ text. text;
  expanduser = λ text. text;
  is_absolute = λ text. true;
  join_root = λ text. text;
  resolve = λ text. text;
  is_inside = λ path. str_eq path "/w/a.py";
  lower_name = λ path. path;
  fnmatch = λ pattern name. str_eq pattern name;
}

reads_inside : is_allow (evaluate_default_policy env "read.file" "/w/a.py" end deny).action ≡ true
unfolding evaluate_default_policy default_action split_resource_paths first_decision check_path
    normalize_policy_path is_external_path secret_path_action
reads_inside = refl

allow_is_open_example :
    (default_action "read.file" ≡ allow)
    × All
        (λ raw.
          (secret_path_action env (normalize_policy_path env raw) ≡ none)
          × ((is_external_path env (normalize_policy_path env raw)
                && contains read_permission_keys "read.file")
              ≡ false))
        (split_resource_paths env "/w/a.py")
allow_is_open_example = allow_is_open env deny "read.file" "/w/a.py" end refl reads_inside

patch_guarded : guarded_key "patch.apply" ≡ true
unfolding guarded_key
patch_guarded = refl

guarded_key-asks_example :
    is_allow (evaluate_default_policy env "patch.apply" "/w/a.py" end deny).action ≡ false
guarded_key-asks_example = guarded_key-asks env deny "patch.apply" "/w/a.py" end refl patch_guarded

abbrev outside : Bool
outside =
    env.destructive (text_of (get (field "command" (str "ls") end) "command"))
    || any (leaves_workspace env) (split_resource_paths env "/etc")

leaves : outside ≡ true
unfolding get split_resource_paths normalize_policy_path is_external_path
leaves = refl

shell_denied_example :
    is_deny
      (evaluate_default_policy env "bash.run" "/etc" (field "command" (str "ls") end) allow).action
    ≡ true
shell_denied_example = shell_denied env "/etc" (field "command" (str "ls") end) allow leaves
