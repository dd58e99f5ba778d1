-- ===== src/FileChanges/Batch/Touched.antt =====
-- Which paths the reverted changes of a batch touch (file_changes/file_change_service.py).
use agent_v.Prelude.{
  ℕ, String, true, false, ◌||◌, ◌≡◌, refl, ap, ◌∙◌, Option, none, some, List, [], ◌∷◌, ◌++◌, All,
  arith, str_eq,
}
use agent_v.World.Rows.{FileChange}
use agent_v.Table
use agent_v.Table.{Table}
use agent_v.FileChanges.Revert.Targets.{id_and_path, SameTargets}
use agent_v.FileChanges.Batch.{is_in}
use agent_v.FileChanges.Batch.RollBack.{is_touched}

-- what a list of reverted changes touches, a longer list touches too
pub is_in-append :
    (id : ℕ) (ids more : List ℕ) → is_in id (ids ++ more) ≡ (is_in id ids || is_in id more)
is_in-append id [] more = refl
is_in-append id (other ∷ ids) more = ground (arith, is_in-append id ids more)

pub touched-fewer :
    (path : String) (ids more : List ℕ) (rows : List FileChange)
    → is_touched path (ids ++ more) rows ≡ false
    → is_touched path ids rows ≡ false
touched-fewer path ids more [] untouched = refl
touched-fewer path ids more (row ∷ rows) untouched =
    ground (arith, is_in-append row.id ids more, touched-fewer path ids more rows)

-- a change that was reverted touches its path
abbrev pub IsOneOf : List FileChange → FileChange → Type 0
IsOneOf rows row =
    (path : String) (ids : List ℕ)
    → is_in row.id ids ≡ true
    → is_touched path ids rows ≡ false
    → str_eq row.resolved_path path ≡ false

pub All-IsOneOf-more :
    (first : FileChange) (rows rest : List FileChange)
    → All (IsOneOf rows) rest
    → All (IsOneOf (first ∷ rows)) rest
All-IsOneOf-more first rows [] all = tt
All-IsOneOf-more first rows (row ∷ rest) (one, all) = (
  (λ path ids here untouched. one path ids here (ground arith)),
  All-IsOneOf-more first rows rest all,
)

pub All-IsOneOf : (rows : List FileChange) → All (IsOneOf rows) rows
All-IsOneOf [] = tt
All-IsOneOf (row ∷ rows) =
    ((λ path ids here untouched. ground arith), All-IsOneOf-more row rows rows (All-IsOneOf rows))

pub last-is_in : (id : ℕ) (ids : List ℕ) → is_in id (ids ++ id ∷ []) ≡ true
last-is_in id ids = rw is_in-append (ground arith)

-- a stored change is still stored, with its id and its path
pub still_stored :
    (before after : Table FileChange) (row : FileChange)
    → SameTargets before after
    → Table.find before row.id ≡ some row
    → (now : FileChange) × (Table.find after row.id ≡ some now)
      × (now.id ≡ row.id)
      × (now.resolved_path ≡ row.resolved_path)
still_stored before after row same stored =
    go (Table.find after row.id) (same row.id ∙ ap id_and_path stored)
  where
    go :
        (found : Option FileChange)
        → id_and_path found ≡ some (row.id, row.resolved_path)
        → (now : FileChange) × (found ≡ some now)
          × (now.id ≡ row.id)
          × (now.resolved_path ≡ row.resolved_path)
    go none e = absurd cc
    go (some now) e = (now, refl, cc, cc)
