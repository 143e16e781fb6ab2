-- ===== src/Files/Paths.antt =====
-- agent/files.py: `parts_of` and `check_name`, the node's reading of a server-relative path.
use bless_forge.Base.{
  ℕ, Bool, false, not, ◌||◌, Option, none, some, List, [], ◌∷◌, map, leb, eqb, if◌then◌else◌, ◌==◌,
  nat_eq, string_eq, Text, text_eq, contains, length, is_empty, all, Refusal, Result, ok, err,
  ◌>>=◌, ◌>>◌, check,
}
use bless_forge.Base.Strings.{strip, split_on}

abbrev pub slash : ℕ
slash = b'/'

-- `s.replace("\\", "/")`
abbrev pub forward : ℕ → ℕ
forward c = if eqb c b'\\' then slash else c

abbrev pub forward_slashes : Text → Text
forward_slashes = map forward

abbrev pub single_dot : Text
single_dot = b'.' ∷ []

abbrev pub double_dot : Text
double_dot = b'.' ∷ b'.' ∷ []

-- `(rel or ".").replace("\\", "/").strip()`; `none` is `None`
unfoldable pub raw_path : Option Text → Text
unfolding strip
raw_path none = single_dot
raw_path (some path) = if is_empty path then single_dot else strip (forward_slashes path)

abbrev pub is_absolute : Text → Bool
is_absolute [] = false
is_absolute (c ∷ s) = eqb c slash

abbrev pub second_is_colon : Text → Bool
second_is_colon [] = false
second_is_colon (c ∷ []) = false
second_is_colon (c ∷ d ∷ s) = eqb d b':'

-- The loop over `raw.split("/")`, with what to raise on `..`
unfoldable pub collect_parts : Refusal → List Text → Result (List Text)
collect_parts outside [] = ok []
collect_parts outside (part ∷ rest) =
    let others = collect_parts outside rest in
    if is_empty part || part == single_dot
    then others
    else if part == double_dot
    then err outside
    else others >>= λ parts. ok (part ∷ parts)

abbrev pub outside_folder : Refusal
outside_folder = record { message = "that path points outside the server folder"; status = 400 }

unfoldable pub parts_of : Option Text → Result (List Text)
parts_of rel = do
  let raw = raw_path rel
  check (not (contains raw 0)) "that path contains a null byte" 400
  check (not (is_absolute raw || second_is_colon raw))
      "only paths inside the server folder are allowed" 400
  collect_parts outside_folder (split_on slash raw)

-- `set(n) <= {"."}`
abbrev pub only_dots : Text → Bool
only_dots = all (λ c. eqb c b'.')

unfoldable pub check_name : Text → Result Text
unfolding strip
check_name name = do
  let n = strip name
  check (not (is_empty n || contains n slash || contains n b'\\' || contains n 0 || only_dots n))
      "is not a valid name" 400
  check (leb (length n) 255) "that name is too long" 400
  ok n
