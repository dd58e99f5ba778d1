-- ===== src/Permissions/Policy.antt =====
-- permissions/policy.py: what is allowed, asked for or denied by default. Regular expressions,
-- `shlex`, `pathlib`, `fnmatch` and the splitting of texts are parameters.
pub mod Allowed
use agent_v.Prelude.{
  String, append, Bool, true, false, not, ◌&&◌, ◌||◌, Option, none, some, List, [], ◌∷◌, any,
  contains, str_eq, if◌then◌else◌,
}
use agent_v.Json.{Fields, get, text_of}

pub data PermissionAction : Type 0 where
  allow ask deny : PermissionAction

pub record PermissionDecision : Type 0 where
  pub action : PermissionAction
  pub reason : String
  pub permission_key : String
  pub resource : String

pub record PolicyEnv : Type 0 where
  -- some pattern of DESTRUCTIVE_SHELL_PATTERNS is found in the command
  pub destructive : String → Bool
  -- `shlex.split(command)`, none if it raises ValueError; `command.strip().split(" ", 1)[0]`
  pub shlex_split : String → Option (List String)
  pub first_word : String → String
  -- `"\n" in text`, `text.splitlines()`, `text.split(",")`, `text.strip()`
  pub has_newline : String → Bool
  pub splitlines : String → List String
  pub split_commas : String → List String
  pub strip : String → String
  -- `Path(raw).expanduser()`, `path.is_absolute()`, `workspace_root / path`, `path.resolve(strict=False)`
  pub expanduser : String → String
  pub is_absolute : String → Bool
  pub join_root : String → String
  pub resolve : String → String
  -- `is_inside(workspace_root, path)` (tools/base.py), `path.name.lower()`
  pub is_inside : String → Bool
  pub lower_name : String → String
  -- `fnmatch(value.lower(), pattern.lower())`
  pub fnmatch : String → String → Bool

-- `DEFAULT_TOOL_POLICY`
abbrev pub default_tool_policy : List (String × PermissionAction)
default_tool_policy =
    ("read.file", allow)
    ∷ ("grep.search", allow)
    ∷ ("glob.search", allow)
    ∷ ("todo.write", allow)
    ∷ ("question.ask", allow)
    ∷ ("code.index", allow)
    ∷ ("code.symbols", allow)
    ∷ ("code.definition", allow)
    ∷ ("code.references", allow)
    ∷ ("code.diagnostics", allow)
    ∷ ("code.map", allow)
    ∷ ("write.file", ask)
    ∷ ("edit.file", ask)
    ∷ ("patch.apply", ask)
    ∷ ("bash.run", ask)
    ∷ []

abbrev pub secret_ask_patterns : List String
secret_ask_patterns =
    ".env" ∷ ".env.*" ∷ "credentials.json" ∷ "secrets.*" ∷ "*secret*" ∷ "*token*" ∷ "*credential*"
    ∷ []

abbrev pub secret_deny_patterns : List String
secret_deny_patterns = "*.pem" ∷ "*.key" ∷ "id_rsa" ∷ "id_ed25519" ∷ []

abbrev pub secret_allow_exact : List String
secret_allow_exact = ".env.example" ∷ []

abbrev pub write_permission_keys : List String
write_permission_keys = "write.file" ∷ "edit.file" ∷ "patch.apply" ∷ []

abbrev pub read_permission_keys : List String
read_permission_keys = "read.file" ∷ "grep.search" ∷ "glob.search" ∷ []

abbrev two_word_commands : List String
two_word_commands = "git" ∷ "docker" ∷ "docker-compose" ∷ "npm" ∷ "pnpm" ∷ "yarn" ∷ []

-- `DEFAULT_TOOL_POLICY.get(permission_key, PermissionAction.ASK)`
policy_of : List (String × PermissionAction) → String → PermissionAction
policy_of [] key = ask
policy_of ((k, action) ∷ rest) key =
    let other = policy_of rest key in if str_eq k key then action else other

unfoldable pub default_action : String → PermissionAction
unfolding policy_of
default_action key = policy_of default_tool_policy key

prefix_of : List String → String
prefix_of [] = ""
prefix_of (token ∷ []) = token
prefix_of (token ∷ second ∷ rest) =
    if contains two_word_commands token then append token (append " " second) else token

abbrev pub first_of :
    Option PermissionDecision → Option PermissionDecision → Option PermissionDecision
first_of none later = later
first_of (some decision) later = some decision

-- the first decision that the loop over the paths makes
unfoldable pub first_decision :
    (String → Option PermissionDecision) → List String → Option PermissionDecision
first_decision decide [] = none
first_decision decide (raw ∷ rest) =
    let later = first_decision decide rest in first_of (decide raw) later

-- `[part.strip() for part in parts if part.strip()]`
stripped : (String → String) → List String → List String
stripped strip [] = []
stripped strip (part ∷ parts) =
    let rest = stripped strip parts in if str_eq (strip part) "" then rest else strip part ∷ rest

abbrev pub or_else : Option PermissionDecision → PermissionDecision → PermissionDecision
or_else none decision = decision
or_else (some decision) _ = decision

-- `prefix or resource`
abbrev text_or : String → String → String
text_or s other = if str_eq s "" then other else s

module _ (env : PolicyEnv) where
  prefix_or_word : String → Option (List String) → String
  unfolding prefix_of
  prefix_or_word command none = env.first_word command
  prefix_or_word command (some tokens) = prefix_of tokens

  unfoldable pub shell_prefix : String → String
  unfolding prefix_or_word
  shell_prefix command = prefix_or_word command (env.shlex_split command)

  unfoldable pub split_resource_paths : String → List String
  unfolding stripped
  split_resource_paths resource =
      if str_eq resource "" || str_eq resource "*"
      then []
      else if env.has_newline resource
      then stripped env.strip (env.splitlines resource)
      else stripped env.strip (env.split_commas resource)

  unfoldable pub normalize_policy_path : String → String
  normalize_policy_path raw =
      let path = env.expanduser raw in
      env.resolve (if env.is_absolute path then path else env.join_root path)

  unfoldable pub is_external_path : String → Bool
  is_external_path path = env.is_absolute path && not (env.is_inside path)

  unfoldable pub secret_path_action : String → Option PermissionAction
  secret_path_action path =
      let name = env.lower_name path in
      if contains secret_allow_exact name
      then none
      else if any (λ pattern. env.fnmatch pattern name) secret_deny_patterns
      then some deny
      else if any (λ pattern. env.fnmatch pattern name) secret_ask_patterns
      then some ask
      else none

  abbrev decision : PermissionAction → String → String → String → PermissionDecision
  decision action reason key resource = record {
    action = action;
    reason = reason;
    permission_key = key;
    resource = resource;
  }

  -- the loop of the shell branch
  unfoldable pub check_directory : String → Option PermissionDecision
  check_directory raw =
      let path = normalize_policy_path raw in
      if is_external_path path
      then some (
          decision deny "external bash working directory denied by default policy"
            "external_directory" path)
      else none

  secret_decision : String → Option PermissionAction → Option PermissionDecision
  secret_decision path (some deny) = some (
      decision deny "private key or binary secret file denied by default policy" "secret_file" path)
  secret_decision path (some ask) =
      some (decision ask "secret-like file access requires approval" "secret_file" path)
  secret_decision path _ = none

  -- the body of the second loop
  unfoldable pub check_path : PermissionAction → String → String → Option PermissionDecision
  unfolding secret_decision
  check_path external_write_policy key raw =
      let path = normalize_policy_path raw in
      if is_external_path path && contains write_permission_keys key
      then some (
          decision external_write_policy "external directory write denied by default policy"
            "external_directory" path)
      else if is_external_path path && contains read_permission_keys key
      then some
          (decision ask "external directory access requires approval" "external_directory" path)
      else secret_decision path (secret_path_action path)

  -- the shell branch: a destructive command, then the working directories
  shell_decision : String → String → List String → Option PermissionDecision
  shell_decision command resource paths =
      if env.destructive command
      then some (
          decision deny "destructive shell command denied by default policy" "bash.run"
            (text_or (shell_prefix command) resource))
      else first_decision check_directory paths

  default_decision : String → String → PermissionDecision
  default_decision key resource =
      decision (default_action key) (append "default policy for " key) key (text_or resource "*")

  unfoldable pub evaluate_default_policy :
      String → String → Fields → PermissionAction → PermissionDecision
  unfolding shell_decision default_decision
  evaluate_default_policy key resource input_json external_write_policy =
      let paths = split_resource_paths resource in
      let command = text_of (get input_json "command") in
      or_else (if str_eq key "bash.run" then shell_decision command resource paths else none) (
        or_else (first_decision (check_path external_write_policy key) paths)
          (default_decision key resource))
