-- ===== src/Snapshots/Model.antt =====
-- agent/worldbackup.py: a server's backups (`Store`), the objects, the manifests and the index.
use bless_forge.Base.{
  String, ℕ, Bool, true, false, not, ◌&&◌, ◌||◌, Option, none, some, List, [], ◌∷◌, ◌++◌, map, eqb,
  if◌then◌else◌, is_some, ◌==◌, nat_eq, string_eq, Text, text_eq, contains, add_once, codes,
  is_empty, Refusal, Result, ok, err, ◌>>=◌,
}
use bless_forge.Base.Strings.{starts_with, join_with}
use bless_forge.Files.Paths.{slash, parts_of}

-- `hashlib.sha256` and `zlib`'s streams, each as what it makes of the whole content.
pub record Codec : Type 0 where
  pub sha256 : Text → Text
  pub zip : Text → Text
  pub unzip : Text → Text

-- A file of `objects/`, named by its hash, with `.z` where it is packed
pub record Object : Type 0 where
  pub sha : Text
  pub packed : Bool
  pub bytes : Text

pub record Stat : Type 0 where
  pub size : ℕ
  pub mtime : ℕ
  pub mode : ℕ

-- A row of a manifest's `files`
pub record Entry : Type 0 where
  pub rel : Text
  pub sha : Text
  pub st : Stat

pub record Manifest : Type 0 where
  pub id : Text
  pub created : ℕ
  pub reason : Text
  pub exclude : List Text
  pub files : List Entry
  pub skipped : List (Text × Refusal)

pub record Summary : Type 0 where
  pub id : Text
  pub created : ℕ
  pub reason : Text
  pub files : ℕ
  pub size : ℕ
  pub new_bytes : ℕ
  pub reused : ℕ
  pub skipped : ℕ
  pub status : String

-- The folder of one server's backups
pub record Store : Type 0 where
  pub objects : List Object
  pub snapshots : List Manifest
  pub index : List Summary

abbrev pub native_tmp : Text
native_tmp = codes ".blessforge-tmp"

abbrev pub default_exclude : List Text
default_exclude = map codes (
    "logs" ∷ "crash-reports" ∷ ".blessforge-tmp" ∷ "cache" ∷ ".cache" ∷ "debug" ∷ "backups"
    ∷ "simplebackups" ∷ ".connector" ∷ [])

unfoldable pub excluded : Text → List Text → Bool
excluded rel [] = false
excluded rel (ex ∷ exclude) =
    rel == ex || starts_with rel (ex ++ (slash ∷ [])) || excluded rel exclude

unfoldable pub add_excludes : List Text → List Text → Result (List Text)
add_excludes out [] = ok out
add_excludes out (item ∷ items) = do
  parts ← parts_of (some item)
  let rel = join_with slash parts
  add_excludes (if is_empty rel then out else add_once out rel) items

abbrev pub clean_exclude : List Text → Result (List Text)
clean_exclude extra = add_excludes default_exclude extra

-- `".." in s`
abbrev pub has_dots : Text → Bool
has_dots [] = false
has_dots (c ∷ []) = false
has_dots (c ∷ d ∷ s) = (eqb c b'.' && eqb d b'.') || has_dots (d ∷ s)

unfoldable pub find_snapshot : Text → List Manifest → Option Manifest
find_snapshot snap_id [] = none
find_snapshot snap_id (m ∷ ms) = if m.id == snap_id then some m else find_snapshot snap_id ms

abbrev pub no_backup : Refusal
no_backup = record { message = "no backup of that id"; status = 404 }

abbrev found_manifest : Option Manifest → Result Manifest
found_manifest none = err no_backup
found_manifest (some m) = ok m

abbrev pub is_bad_id : Text → Bool
is_bad_id snap_id = contains snap_id slash || contains snap_id b'\\' || has_dots snap_id

unfoldable pub manifest : Text → List Manifest → Result Manifest
manifest snap_id snapshots =
    if is_bad_id snap_id then err no_backup else found_manifest (find_snapshot snap_id snapshots)

-- The object of that hash, packed or not
unfoldable pub find_object : Text → Bool → List Object → Option Object
find_object sha packed [] = none
find_object sha packed (o ∷ os) =
    if o.sha == sha && (if packed then o.packed else not o.packed)
    then some o
    else find_object sha packed os

abbrev pub or_else {ℓ} : {A : Type ℓ} → Option A → Option A → Option A
or_else (some a) other = some a
or_else none other = other

unfoldable pub object_path : Text → List Object → Option Object
object_path sha objects = or_else (find_object sha false objects) (find_object sha true objects)

unfoldable pub has_object : List Object → Text → Bool
unfolding object_path
has_object objects sha = is_some (object_path sha objects)

abbrev pub content : Codec → Object → Text
content codec o = if o.packed then codec.unzip o.bytes else o.bytes

abbrev missing_object : Refusal
missing_object = record {
  message = "a file of this backup is missing from the store";
  status = 500;
}

abbrev pub read_found : Codec → Option Object → Result Text
read_found codec none = err missing_object
read_found codec (some o) = ok (content codec o)

-- `_read_object`, its chunks joined
unfoldable pub read_object : Codec → List Object → Text → Result Text
unfolding object_path
read_object codec objects sha = read_found codec (object_path sha objects)
