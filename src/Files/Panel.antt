-- ===== src/Files/Panel.antt =====
-- app/files.py: the panel's checks of paths, and the guards of its rename and delete.
use bless_forge.Base.{
  ℕ, Bool, true, false, not, ◌&&◌, ◌||◌, some, List, [], ◌∷◌, map, leb, if◌then◌else◌, ◌==◌, nat_eq,
  string_eq, Text, text_eq, contains, codes, length, is_empty, Refusal, Result, ok, ◌>>=◌, ◌>>◌,
  raise, check,
}
use bless_forge.Base.Strings.{strip, split_on, join_with}
use bless_forge.Files.Paths.{
  slash, forward_slashes, single_dot, raw_path, is_absolute, second_is_colon, collect_parts,
  only_dots,
}

abbrev pub protected_roots : List Text
protected_roots = map codes (
    "world" ∷ "world_nether" ∷ "world_the_end" ∷ "backups" ∷ "libraries" ∷ "versions" ∷ "cache"
    ∷ ".mixin.out" ∷ [])

abbrev is_letter : ℕ → Bool
is_letter c = (leb b'A' c && leb c b'Z') || (leb b'a' c && leb c b'z')

-- `re.match(r"^[A-Za-z]:", raw)`
abbrev pub has_drive : Text → Bool
has_drive [] = false
has_drive (c ∷ s) = is_letter c && second_is_colon (c ∷ s)

abbrev pub outside_directory : Refusal
outside_directory = record {
  message = "that path points outside the server directory";
  status = 400;
}

-- The server root is `.`, where it is allowed.
abbrev pub or_root : Bool → List Text → Result Text
or_root allow_root [] = if allow_root then ok single_dot else raise "a file name is required" 400
or_root allow_root (p ∷ ps) = ok (join_with slash (p ∷ ps))

-- `guard_path`; a `FileError` has status 400
unfoldable pub guard_path : Text → Bool → Result Text
guard_path path allow_root =
    let raw = raw_path (some path) in
    if is_empty raw || raw == single_dot || raw == (b'.' ∷ slash ∷ [])
    then or_root allow_root []
    else (do
      check (not (contains raw 0)) "that path contains a null byte" 400
      check (not (is_absolute raw || has_drive raw))
          "only paths inside the server directory are allowed" 400
      parts ← collect_parts outside_directory (split_on slash raw)
      or_root allow_root parts)

unfoldable pub guard_name : Text → Result Text
unfolding strip
guard_name name = do
  let n = strip (forward_slashes name)
  check (not (is_empty n || contains n slash || contains n 0 || only_dots n)) "is not a valid name"
      400
  check (leb (length n) 255) "that name is too long" 400
  ok n

-- `p.split("/", 1)[0]`
abbrev pub first_of : List Text → Text
first_of [] = []
first_of (p ∷ ps) = p

unfoldable pub top_segment : Text → Result Text
top_segment path = do
  p ← guard_path path true
  if p == single_dot then ok single_dot else ok (first_of (split_on slash p))

unfoldable pub is_protected : Text → Result Bool
is_protected path = do top ← top_segment path; ok (contains protected_roots top)

-- The guards of `rename`, with the paths that it then asks the node to rename
unfoldable pub rename_request : Text → Text → Result (Text × Text)
rename_request path new_name = do
  p ← guard_path path false
  n ← guard_name new_name
  protected ← is_protected p
  top ← top_segment p
  check (not (protected && top == p)) "is a world directory and is not renameable here" 400
  ok (p, n)

unfoldable pub guard_all : List Text → Result (List Text)
guard_all [] = ok []
guard_all (p ∷ ps) = do q ← guard_path p false; qs ← guard_all ps; ok (q ∷ qs)

unfoldable pub any_protected : List Text → Result Bool
any_protected [] = ok false
any_protected (q ∷ qs) = do b ← is_protected q; rest ← any_protected qs; ok (b || rest)

-- The guards of `delete`, with the paths that it then asks the node to delete
unfoldable pub delete_request : List Text → Bool → Result (List Text)
delete_request paths allow_world = do
  check (not (is_empty paths)) "nothing was selected to delete" 400
  cleaned ← guard_all paths
  blocked ← any_protected cleaned
  check (not (blocked && not allow_world)) "these are world or runtime data and were not deleted"
      400
  ok cleaned
