-- ===== src/Snapshots/Restore.antt =====
-- agent/worldbackup.py: `restore`, on a folder kept as its files with their contents.
use bless_forge.Base.{
  Bool, ◌||◌, List, [], ◌∷◌, if◌then◌else◌, ◌==◌, nat_eq, string_eq, Text, text_eq, is_empty, all,
  Result, ok, ◌>>=◌, ◌>>◌, check,
}
use bless_forge.Base.Strings.{split_on}
use bless_forge.Files.Paths.{slash}
use bless_forge.Files.Panel.{first_of}
use bless_forge.Snapshots.Model.{
  Codec, Object, Entry, Store, native_tmp, default_exclude, excluded, manifest, has_object,
  read_object,
}

abbrev pub Folder : Type 0
Folder = List (Text × Text)

abbrev pub or_default : List Text → List Text
or_default exclude = if is_empty exclude then default_exclude else exclude

-- Whether an entry of the server's folder is left where it is
abbrev pub is_kept : List Text → Text → Bool
is_kept exclude name = excluded name exclude || name == native_tmp

-- What is left after every other entry was deleted, with all that is in it
unfoldable pub clear : List Text → Folder → Folder
clear exclude [] = []
clear exclude ((rel, bytes) ∷ rest) =
    let others = clear exclude rest in
    if is_kept exclude (first_of (split_on slash rel)) then (rel, bytes) ∷ others else others

unfoldable pub write : Text → Text → Folder → Folder
write rel bytes [] = (rel, bytes) ∷ []
write rel bytes ((old, before) ∷ rest) =
    let others = write rel bytes rest in
    if rel == old then (old, bytes) ∷ rest else (old, before) ∷ others

unfoldable pub write_all : Codec → List Object → List Entry → Folder → Result Folder
write_all codec objects [] root = ok root
write_all codec objects (e ∷ es) root = do
  bytes ← read_object codec objects e.sha
  write_all codec objects es (write e.rel bytes root)

abbrev pub holds_all : List Object → List Entry → Bool
holds_all objects = all (λ e. has_object objects e.sha)

unfoldable pub restore : Codec → Text → Store → Folder → Result Folder
restore codec snap_id s root = do
  m ← manifest snap_id s.snapshots
  check (holds_all s.objects m.files) "this backup is incomplete" 500
  write_all codec s.objects m.files (clear (or_default m.exclude) root)
