-- ===== src/Snapshots/Walk.antt =====
-- agent/worldbackup.py: `_walk`, the regular files of a folder less the excluded ones.
use bless_forge.Base.{
  List, [], ◌∷◌, ◌++◌, if◌then◌else◌, nat_eq, string_eq, Text, text_eq, is_empty, Result,
}
use bless_forge.Files.Paths.{slash}
use bless_forge.Snapshots.Model.{Stat, excluded}

-- What a folder lists: a regular file with what reading it gives (or why it is refused), a folder,
-- or another entry, such as a link.
pub data Listing : Type 0 where
  nothing : Listing
  file : Text → Stat → Result Text → Listing → Listing
  other : Text → Listing → Listing
  folder : Text → Listing → Listing → Listing

pub record Found : Type 0 where
  pub rel : Text
  pub st : Stat
  pub read : Result Text

-- `f"{rel_dir}/{name}" if rel_dir else name`
unfoldable pub below : Text → Text → Text
below dir name = if is_empty dir then name else dir ++ (slash ∷ name)

-- The files that a folder lists itself
unfoldable pub files_of : List Text → Text → Listing → List Found
files_of exclude dir nothing = []
files_of exclude dir (file name st read rest) =
    let others = files_of exclude dir rest in
    if excluded (below dir name) exclude
    then others
    else record { rel = below dir name; st = st; read = read } ∷ others
files_of exclude dir (other name rest) = files_of exclude dir rest
files_of exclude dir (folder name inner rest) = files_of exclude dir rest

-- Those of its folders, where the excluded ones are not entered
unfoldable pub files_below : List Text → Text → Listing → List Found
files_below exclude dir nothing = []
files_below exclude dir (file name st read rest) = files_below exclude dir rest
files_below exclude dir (other name rest) = files_below exclude dir rest
files_below exclude dir (folder name inner rest) =
    let entered = files_below exclude (below dir name) inner in
    let others = files_below exclude dir rest in
    if excluded (below dir name) exclude
    then others
    else files_of exclude (below dir name) inner ++ entered ++ others

unfoldable pub walk : List Text → Listing → List Found
walk exclude root = files_of exclude [] root ++ files_below exclude [] root
