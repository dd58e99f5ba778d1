-- ===== src/Table.antt =====
-- A table of rows by primary key: `db.get(Model, id)`, and writing a row back. A service changes a
-- loaded row in place; here the changed row is stored under its key.
use agent_v.Prelude.{
  ℕ, ◌≡◌, refl, Option, none, some, List, [], ◌∷◌, ◌++◌, arith, ◌==◌, if◌then◌else◌, Bool-cases,
  inl, inr, sym, ◌∙◌,
}
use mathlib.Core.Path.{subst₂}

pub record Table {ℓ} (V : Type ℓ) : Type ℓ where
  pub rows : List (ℕ × V)

module _ {ℓ} {V : Type ℓ} where
  find_row : ℕ → List (ℕ × V) → Option V
  find_row k [] = none
  find_row k ((j, v) ∷ t) = if j == k then some v else find_row k t

  -- The row keeps its place; a new row is added at the end.
  put_row : ℕ → V → List (ℕ × V) → List (ℕ × V)
  put_row k v [] = (k, v) ∷ []
  put_row k v ((j, w) ∷ t) = if j == k then (k, v) ∷ t else (j, w) ∷ put_row k v t

  values_of : List (ℕ × V) → List V
  values_of [] = []
  values_of ((j, v) ∷ t) = v ∷ values_of t

  unfoldable pub find : Table V → ℕ → Option V
  unfolding find_row
  find t k = find_row k t.rows

  unfoldable pub put : Table V → ℕ → V → Table V
  unfolding put_row
  put t k v = record { rows = put_row k v t.rows }

  -- all rows, in the order in which they were added
  unfoldable pub values : Table V → List V
  unfolding values_of
  values t = values_of t.rows

  find_row-put_row :
      (k j : ℕ) (v : V) (t : List (ℕ × V))
      → find_row j (put_row k v t) ≡ (if k == j then some v else find_row j t)
  unfolding find_row put_row
  find_row-put_row k j v [] = refl
  find_row-put_row k j v ((i, w) ∷ t) = ground (arith, find_row-put_row k j v t)

  pub find-put :
      (t : Table V) (k j : ℕ) (v : V) → find (put t k v) j ≡ (if k == j then some v else find t j)
  unfolding find put
  find-put t k j v = find_row-put_row k j v t.rows

  -- A row is found where it has just been put.
  pub find-put_same : (t : Table V) (k : ℕ) (v : V) → find (put t k v) k ≡ some v
  find-put_same t k v = rw find-put (ground arith)

module _ {ℓ} {V : Type ℓ} where
  values_of-put_row :
      (k : ℕ) (v : V) (t : List (ℕ × V))
      → find_row k t ≡ none
      → values_of (put_row k v t) ≡ values_of t ++ v ∷ []
  unfolding find_row put_row values_of
  values_of-put_row k v [] absent = refl
  values_of-put_row k v ((i, w) ∷ t) absent = ground (arith, values_of-put_row k v t)

  -- A row under a new key comes last.
  pub values-put :
      (t : Table V) (k : ℕ) (v : V) → find t k ≡ none → values (put t k v) ≡ values t ++ v ∷ []
  unfolding find put values
  values-put t k v absent = values_of-put_row k v t.rows absent

-- A predicate that holds of all rows of t and of the row put under k holds of every row afterwards.
pub at-put {ℓ κ} :
    {V : Type ℓ} (P : ℕ → V → Type κ) (t : Table V) (k j : ℕ) (v w : V) {o : Option V}
    → o ≡ (if k == j then some v else find t j)
    → o ≡ some w
    → P k v
    → ((i : ℕ) (u : V) → find t i ≡ some u → P i u)
    → P j w
at-put P t k j v w e h new old = elim (Bool-cases (k == j)) [
  | inl same ↦
      let at_j : k ≡ j = ground arith in let is_w : v ≡ w = ground arith in subst₂ P at_j is_w new
  | inr other ↦ old j w (sym (rw other at e) ∙ h)
]

unfoldable pub empty {ℓ} : {V : Type ℓ} → Table V
empty = record { rows = [] }

-- `db.get(Model, id) if id else None`
abbrev pub find_optional {ℓ} : {V : Type ℓ} → Table V → Option ℕ → Option V
find_optional table none = none
find_optional table (some id) = find table id
