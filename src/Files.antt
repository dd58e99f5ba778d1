-- ===== src/Files.antt =====
-- The text files of a workspace, by path. Directories, links and bytes that are not UTF-8 are left out.
use agent_v.Prelude.{
  String, ◌≡◌, refl, Option, none, some, List, [], ◌∷◌, arith, str_eq, str_eq_iff, if◌then◌else◌,
}

pub record Files : Type 0 where
  pub entries : List (String × String)

read_entry : String → List (String × String) → Option String
read_entry path [] = none
read_entry path ((p, text) ∷ rest) = if str_eq p path then some text else read_entry path rest

write_entry : String → String → List (String × String) → List (String × String)
write_entry path text [] = (path, text) ∷ []
write_entry path text ((p, t) ∷ rest) =
    if str_eq p path then (path, text) ∷ rest else (p, t) ∷ write_entry path text rest

unlink_entry : String → List (String × String) → List (String × String)
unlink_entry path [] = []
unlink_entry path ((p, t) ∷ rest) =
    let others = unlink_entry path rest in if str_eq p path then others else (p, t) ∷ others

unfoldable pub read : Files → String → Option String
unfolding read_entry
read files path = read_entry path files.entries

unfoldable pub write : String → String → Files → Files
unfolding write_entry
write path text files = record { entries = write_entry path text files.entries }

unfoldable pub unlink : String → Files → Files
unfolding unlink_entry
unlink path files = record { entries = unlink_entry path files.entries }

read_entry-write_entry :
    (path other text : String) (rest : List (String × String))
    → read_entry other (write_entry path text rest)
      ≡ (if str_eq path other then some text else read_entry other rest)
unfolding read_entry write_entry
read_entry-write_entry path other text [] = refl
read_entry-write_entry path other text ((p, t) ∷ rest) = ground (
  arith,
  str_eq_iff p path,
  str_eq_iff p other,
  str_eq_iff path other,
  read_entry-write_entry path other text rest,
)

read_entry-unlink_entry :
    (path other : String) (rest : List (String × String))
    → read_entry other (unlink_entry path rest)
      ≡ (if str_eq path other then none else read_entry other rest)
unfolding read_entry unlink_entry
read_entry-unlink_entry path other [] = ground arith
read_entry-unlink_entry path other ((p, t) ∷ rest) = ground (
  arith,
  str_eq_iff p path,
  str_eq_iff p other,
  str_eq_iff path other,
  read_entry-unlink_entry path other rest,
)

-- A written file has its text, and every other file is as it was.
pub read-write :
    (path other text : String) (files : Files)
    → read (write path text files) other
      ≡ (if str_eq path other then some text else read files other)
unfolding read write
read-write path other text files = read_entry-write_entry path other text files.entries

-- A file that is unlinked is gone, and every other file is as it was.
pub read-unlink :
    (path other : String) (files : Files)
    → read (unlink path files) other ≡ (if str_eq path other then none else read files other)
unfolding read unlink
read-unlink path other files = read_entry-unlink_entry path other files.entries
