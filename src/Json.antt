-- ===== src/Json.antt =====
-- The JSON values that payloads, tool inputs and metadata columns hold (Python's `Any`, `dict` and
-- `list`), with the lookups `value.get(key)` of the services. Numbers are the natural ones.
use agent_v.Prelude.{
  ℕ, length, String, Bool, true, false, not, Option, none, some, List, [], ◌∷◌, ◌&&◌, ◌==◌, str_eq,
  if◌then◌else◌,
}

mutual
  pub data Json : Type 0 where
    null : Json
    bool : Bool → Json
    num : ℕ → Json
    str : String → Json
    arr : Items → Json
    obj : Fields → Json

  pub data Items : Type 0 where
    nil : Items
    cons : Json → Items → Items

  pub data Fields : Type 0 where
    end : Fields
    field : String → Json → Fields → Fields

-- the keys of a dictionary, in their order
abbrev pub keys : Fields → List String
keys end = []
keys (field k v fs) = k ∷ keys fs

-- `fields.get(key)`
unfoldable pub get : Fields → String → Option Json
get end key = none
get (field k v fs) key = if str_eq k key then some v else get fs key

-- `{**fields, key: value}`
unfoldable pub set : String → Json → Fields → Fields
set key value end = field key value end
set key value (field k v fs) =
    let rest = set key value fs in if str_eq k key then field k value fs else field k v rest

-- `str(fields.get(key) or "")` where the column holds a text
abbrev pub text_of : Option Json → String
text_of (some (str s)) = s
text_of _ = ""

-- `bool(value)` of a value that may be missing
abbrev pub truthy : Option Json → Bool
truthy none = false
truthy (some null) = false
truthy (some (bool b)) = b
truthy (some (num n)) = not (n == 0)
truthy (some (str s)) = not (str_eq s "")
truthy (some (arr nil)) = false
truthy (some (arr (cons x xs))) = true
truthy (some (obj end)) = false
truthy (some (obj (field k v fs))) = true

-- `optional id as text, or None`
abbrev pub opt_str : (ℕ → String) → Option ℕ → Json
opt_str show none = null
opt_str show (some n) = str (show n)

abbrev pub text_or_null : Option String → Json
text_or_null none = null
text_or_null (some s) = str s

-- `a == b` on JSON values: two dictionaries are equal if they have as many keys, and every key of
-- the one has an equal value in the other. Python's `True == 1` is left out.
unfoldable mutual
  pub json_eq : Json → Json → Bool
  json_eq null null = true
  json_eq (bool true) (bool b) = b
  json_eq (bool false) (bool b) = not b
  json_eq (num m) (num n) = m == n
  json_eq (str s) (str t) = str_eq s t
  json_eq (arr xs) (arr ys) = items_eq xs ys
  json_eq (obj fs) (obj gs) = (length (keys fs) == length (keys gs)) && fields_in fs gs
  json_eq _ _ = false

  pub items_eq : Items → Items → Bool
  items_eq nil nil = true
  items_eq (cons x xs) (cons y ys) = json_eq x y && items_eq xs ys
  items_eq _ _ = false

  pub fields_in : Fields → Fields → Bool
  fields_in end gs = true
  fields_in (field k v fs) gs =
      (elim (get gs k) [ none ↦ false | some w ↦ json_eq v w ]) && fields_in fs gs
