-- ===== src/Redaction/Safety.antt =====
-- What redaction guarantees of its result (core/redaction.py).
use agent_v.Prelude.{
  String, ◌≡◌, refl, ap, Bool, true, false, Option, none, some, List, [], ◌∷◌, arith, str_eq,
  str_eq_iff, if◌then◌else◌,
}
use agent_v.Json.{Json, null, bool, num, str, arr, obj, Items, nil, cons, Fields, end, field, keys}
use agent_v.Env.{Env}
use agent_v.Redaction.{
  redacted, is_sensitive_key, redact_text, redact_data, redact_items, redact_fields,
  without_sensitive, scrub_process_env,
}

-- `env.get(key)`
pub lookup_env : String → List (String × String) → Option String
lookup_env key [] = none
lookup_env key ((k, v) ∷ rest) = if str_eq k key then some v else lookup_env key rest

module _ (env : Env) where
  -- Every text is one that `redact_text` let through, and every value under a sensitive key is the
  -- marker, at every depth.
  unfoldable mutual
    pub Hidden : Json → Type 0
    Hidden (str s) = (t : String) × (s ≡ redact_text env t)
    Hidden (arr xs) = HiddenItems xs
    Hidden (obj fs) = HiddenFields fs
    Hidden _ = Unit

    pub HiddenItems : Items → Type 0
    HiddenItems nil = Unit
    HiddenItems (cons x xs) = Hidden x × HiddenItems xs

    pub HiddenFields : Fields → Type 0
    HiddenFields end = Unit
    HiddenFields (field k v fs) =
        (if is_sensitive_key env k then v ≡ str redacted else Hidden v) × HiddenFields fs

  Hidden-value :
      (sensitive : Bool) (v : Json)
      → Hidden v
      → (if sensitive
          then (if sensitive then str redacted else v) ≡ str redacted
          else Hidden (if sensitive then str redacted else v))
  Hidden-value true v h = refl
  Hidden-value false v h = h

  mutual
    unfolding Hidden HiddenItems HiddenFields redact_data redact_items redact_fields

    pub Hidden-data : (j : Json) → Hidden (redact_data env j)
    Hidden-data null = tt
    Hidden-data (bool b) = tt
    Hidden-data (num n) = tt
    Hidden-data (str s) = (s, refl)
    Hidden-data (arr xs) = Hidden-items xs
    Hidden-data (obj fs) = Hidden-fields fs

    pub Hidden-items : (xs : Items) → HiddenItems (redact_items env xs)
    Hidden-items nil = tt
    Hidden-items (cons x xs) = (Hidden-data x, Hidden-items xs)

    pub Hidden-fields : (fs : Fields) → HiddenFields (redact_fields env fs)
    Hidden-fields end = tt
    Hidden-fields (field k v fs) = (
      Hidden-value (is_sensitive_key env k) (redact_data env v) (Hidden-data v),
      Hidden-fields fs,
    )

  keys-redact_fields : (fs : Fields) → keys (redact_fields env fs) ≡ keys fs
  unfolding redact_fields
  keys-redact_fields end = refl
  keys-redact_fields (field k v fs) = ap (λ ks. k ∷ ks) (keys-redact_fields fs)

  -- A redacted dictionary has the keys of the given one, in their order; at every depth each value
  -- under a sensitive key is the marker, and each other text went through `redact_text`.
  pub redact_data_safe :
      (fs : Fields) → Hidden (redact_data env (obj fs)) × (keys (redact_fields env fs) ≡ keys fs)
  redact_data_safe fs = (Hidden-data (obj fs), keys-redact_fields fs)

  lookup-without_sensitive :
      (key : String) (source : List (String × String))
      → lookup_env key (without_sensitive env source)
        ≡ (if is_sensitive_key env key then none else lookup_env key source)
  unfolding lookup_env without_sensitive
  lookup-without_sensitive key [] = ground arith
  lookup-without_sensitive key ((k, v) ∷ rest) =
      ground (arith, lookup-without_sensitive key rest, str_eq_iff k key)

  -- The scrubbed environment of a child process has no variable with a sensitive name, and every
  -- other variable with its value: of the given mapping if that has a variable, and of the
  -- environment of the process if none is given or an empty one.
  pub lookup-scrub_process_env :
      (key : String) (environ rest : List (String × String)) (entry : String × String)
      → let hide = λ (found : Option String). if is_sensitive_key env key then none else found in
        (lookup_env key (scrub_process_env env environ (some (entry ∷ rest)))
          ≡ hide (lookup_env key (entry ∷ rest)))
        × (lookup_env key (scrub_process_env env environ (some [])) ≡ hide (lookup_env key environ))
        × (lookup_env key (scrub_process_env env environ none) ≡ hide (lookup_env key environ))
  unfolding scrub_process_env
  lookup-scrub_process_env key environ rest entry = (
    lookup-without_sensitive key (entry ∷ rest),
    lookup-without_sensitive key environ,
    lookup-without_sensitive key environ,
  )
