-- ===== src/Files/Archive.antt =====
-- agent/files.py: `check_archive`, every member of a zip checked before anything is written.
use bless_forge.Base.{
  ℕ, ◌+◌, ◌*◌, Bool, not, ◌&&◌, some, List, [], ◌∷◌, ltb, leb, nat_eq, string_eq, Text, text_eq,
  Result, ok, err, ◌>>=◌, ◌>>◌, raise, check,
}
use bless_forge.Files.Paths.{parts_of}

abbrev pub max_extract_bytes : ℕ
max_extract_bytes = 20 * 1024 * 1024 * 1024

abbrev pub max_extract_ratio : ℕ
max_extract_ratio = 200

-- A member's name, whether its mode is a symbolic link's, and the size it claims.
pub record Member : Type 0 where
  pub filename : Text
  pub is_symlink : Bool
  pub file_size : ℕ

-- The error of `parts_of` is replaced by the archive's own.
abbrev pub member_parts : Result (List Text) → Result (List Text)
member_parts (ok parts) = ok parts
member_parts (err e) = raise "the archive has a member outside its folder" 400

unfoldable pub check_members : List Member → Result (List (Member × List Text))
check_members [] = ok []
check_members (info ∷ infos) = do
  parts ← member_parts (parts_of (some info.filename))
  check (not info.is_symlink) "the archive contains a link" 400
  members ← check_members infos
  ok ((info, parts) ∷ members)

unfoldable pub total_size : List Member → ℕ
total_size [] = 0
total_size (info ∷ infos) = info.file_size + total_size infos

abbrev pub too_dense : ℕ → ℕ → Bool
too_dense archive_size total =
    ltb 0 archive_size && ltb (archive_size * max_extract_ratio) total && ltb (64 * 1048576) total

unfoldable pub check_archive : List Member → ℕ → ℕ → Result (List (Member × List Text))
check_archive infos archive_size limit = do
  members ← check_members infos
  let total = total_size infos
  check (leb total limit) "the archive unpacks to more than allowed" 413
  check (not (too_dense archive_size total))
      "the archive claims to unpack to far more than its size could hold" 413
  ok members
