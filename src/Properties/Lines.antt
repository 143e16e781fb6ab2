-- ===== src/Properties/Lines.antt =====
-- app/properties.py: `parse` and `render`, with Python's lines.
use bless_forge.Base.{
  ℕ, Bool, true, false, ◌&&◌, ◌||◌, Option, none, some, List, [], ◌∷◌, ◌++◌, leb, eqb,
  if◌then◌else◌, ◌==◌, nat_eq, string_eq, Text, text_eq, contains, get,
}
use bless_forge.Base.Strings.{strip, is_space, join_with}

-- The characters at which `str.splitlines` ends a line; a return and a newline are one end.
abbrev pub ends_line : ℕ → Bool
ends_line c =
    (leb 10 c && leb c 13) || (leb 28 c && leb c 30) || eqb c 0x85 || eqb c 0x2028 || eqb c 0x2029

abbrev onto_line : ℕ → List Text → List Text
onto_line c [] = (c ∷ []) ∷ []
onto_line c (l ∷ ls) = (c ∷ l) ∷ ls

-- What is read after a return: the newline that belongs to it is skipped.
abbrev is_newline_next : Text → Bool
is_newline_next [] = false
is_newline_next (c ∷ s) = eqb c 10

-- The lines, where text that ends with a line end has no empty last one
unfoldable pub splitlines : Text → List Text
splitlines [] = []
splitlines (c ∷ s) =
    let rest = splitlines s in
    if eqb c 13 && is_newline_next s
    then rest
    else if ends_line c
    then [] ∷ rest
    else onto_line c rest

abbrev is_comment : Text → Bool
is_comment [] = true
is_comment (c ∷ s) = eqb c b'#'

-- `line.partition("=")`: what stands before and after, if there is one
unfoldable pub partition : Text → Option (Text × Text)
partition [] = none
partition (c ∷ s) =
    let rest = partition s in
    if eqb c b'='
    then some ([], s)
    else elim rest [ none ↦ none | some (key, value) ↦ some (c ∷ key, value) ]

-- `d[key] = value`
unfoldable pub set_key : Text → Text → List (Text × Text) → List (Text × Text)
set_key key value [] = (key, value) ∷ []
set_key key value ((k, v) ∷ rest) =
    let others = set_key key value rest in if key == k then (k, value) ∷ rest else (k, v) ∷ others

abbrev pub set_part : Option (Text × Text) → List (Text × Text) → List (Text × Text)
set_part none values = values
set_part (some part) values = set_key (strip (part.0)) (strip (part.1)) values

unfoldable pub parse_lines : List Text → List (Text × Text) → List (Text × Text)
unfolding strip partition set_key
parse_lines [] values = values
parse_lines (line ∷ lines) values =
    if is_comment (strip line)
    then parse_lines lines values
    else parse_lines lines (set_part (partition line) values)

unfoldable pub parse : Text → List (Text × Text) × List Text
unfolding parse_lines splitlines
parse text = (parse_lines (splitlines text) [], splitlines text)

-- `[\w.\-]`, with what `\w` matches
abbrev pub is_name_char : (ℕ → Bool) → ℕ → Bool
is_name_char is_word c = is_word c || eqb c b'.' || eqb c b'-'

-- What follows a name: blanks and `=`
unfoldable pub assigns : Text → Bool
unfolding is_space
assigns [] = false
assigns (c ∷ s) = let rest = assigns s in if is_space c then rest else eqb c b'='

-- `re.match(r"^([\w.\-]+)\s*=", line)`: the name, if the line assigns to one
unfoldable pub key_of : (ℕ → Bool) → Text → Option Text
unfolding assigns
key_of is_word [] = none
key_of is_word (c ∷ s) =
    let rest = key_of is_word s in
    if is_name_char is_word c
    then (if assigns s
        then some (c ∷ [])
        else elim rest [ none ↦ none | some key ↦ some (c ∷ key) ])
    else none

abbrev pub assignment : Text → Text → Text
assignment key value = key ++ (b'=' ∷ value)

-- A line, with the key that is written in its place
abbrev render_line : Text → Option Text → List (Text × Text) → Text × List Text
render_line line none updates = (line, [])
render_line line (some key) updates = elim (get updates key) [
  | none ↦ (line, [])
  | some value ↦ (assignment key value, key ∷ [])
]

-- The lines with those of the updated keys replaced, and the keys seen
unfoldable pub replaced : (ℕ → Bool) → List Text → List (Text × Text) → List Text × List Text
unfolding key_of
replaced is_word [] updates = ([], [])
replaced is_word (line ∷ lines) updates =
    let first = render_line line (key_of is_word line) updates in
    let rest = replaced is_word lines updates in ((first.0) ∷ rest.0, first.1 ++ rest.1)

unfoldable pub unseen : List Text → List (Text × Text) → List Text
unseen seen [] = []
unseen seen ((key, value) ∷ rest) =
    let others = unseen seen rest in
    if contains seen key then others else assignment key value ∷ others

unfoldable pub render : (ℕ → Bool) → Text → List (Text × Text) → Text
unfolding splitlines replaced unseen join_with
render is_word original updates =
    let r = replaced is_word (splitlines original) updates in
    join_with 10 (r.0 ++ unseen r.1 updates) ++ (10 ∷ [])
