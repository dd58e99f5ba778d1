-- ===== src/Redaction.antt =====
-- core/redaction.py: what is hidden before a text or a payload leaves the process.
pub mod Safety
use agent_v.Prelude.{Option, none, some, String, Bool, not, List, [], ◌∷◌, str_eq, if◌then◌else◌}
use agent_v.Json.{Json, null, bool, num, str, arr, obj, Items, nil, cons, Fields, end, field}
use agent_v.Env.{Env}

abbrev pub redacted : String
redacted = "[REDACTED]"

module _ (env : Env) where
  unfoldable pub is_sensitive_key : String → Bool
  is_sensitive_key key = env.key_matches key

  -- The five substitutions, in the order of the code.
  unfoldable pub redact_text : String → String
  redact_text value =
      if str_eq value ""
      then value
      else env.sub_long_token (
          env.sub_json_assignment (env.sub_assignment (env.sub_bearer (env.sub_private_key value))))

  unfoldable mutual
    pub redact_data : Json → Json
    redact_data null = null
    redact_data (bool b) = bool b
    redact_data (num n) = num n
    redact_data (str s) = str (redact_text s)
    redact_data (arr xs) = arr (redact_items xs)
    redact_data (obj fs) = obj (redact_fields fs)

    pub redact_items : Items → Items
    redact_items nil = nil
    redact_items (cons x xs) = cons (redact_data x) (redact_items xs)

    pub redact_fields : Fields → Fields
    redact_fields end = end
    redact_fields (field key item rest) =
        field key (if is_sensitive_key key then str redacted else redact_data item)
          (redact_fields rest)

  -- `{key: value for key, value in source.items() if not is_sensitive_key(key)}`
  unfoldable pub without_sensitive : List (String × String) → List (String × String)
  without_sensitive [] = []
  without_sensitive ((key, value) ∷ rest) =
      let kept = without_sensitive rest in
      if is_sensitive_key key then kept else (key, value) ∷ kept

  -- `env or os.environ`: an empty mapping counts as none given
  source_of : List (String × String) → Option (List (String × String)) → List (String × String)
  source_of environ none = environ
  source_of environ (some []) = environ
  source_of environ (some (entry ∷ rest)) = entry ∷ rest

  unfoldable pub scrub_process_env :
      List (String × String) → Option (List (String × String)) → List (String × String)
  unfolding source_of
  scrub_process_env environ given = without_sensitive (source_of environ given)
