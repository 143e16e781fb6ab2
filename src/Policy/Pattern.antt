-- ===== src/Policy/Pattern.antt =====
-- app/policy.py: the path patterns that `_r` builds, and how a path is matched against one.
-- A pattern is the token list of the regular expression `^...$`: a literal character, or `[^/]+`
-- where the path has `{name}`. Paths and methods are lists of code points.
use bless_forge.Base.{
  ℕ, ◌-◌, Bool, true, false, not, ◌&&◌, ◌||◌, List, [], ◌∷◌, ◌++◌, map, Option, none, some, Text,
  eqb, leb, is_empty, if◌then◌else◌,
}

pub data Token : Type 0 where
  lit : ℕ → Token
  wild : Token

abbrev pub slash : ℕ
slash = b'/'

abbrev pub newline : ℕ
newline = 10

-- `[a-z_]`
abbrev pub is_name_char : ℕ → Bool
is_name_char c = (leb b'a' c && leb c b'z') || eqb c b'_'

-- `re.sub(r"\\\{[a-z_]+\\\}", "[^/]+", re.escape(path))`: the state is the name read so far, once a
-- brace is open. A brace that closes no name stands for itself.
unfoldable pub compile : Option Text → Text → List Token
compile none [] = []
compile none (c ∷ s) = elim (eqb c b'{') [
  | true ↦ compile (some []) s
  | false ↦ lit c ∷ compile none s
]
compile (some name) [] = lit b'{' ∷ map lit name
compile (some name) (c ∷ s) = elim (eqb c b'}' && not (is_empty name)) [
  | true ↦ wild ∷ compile none s
  | false ↦ elim (is_name_char c) [
    | true ↦ compile (some (name ++ (c ∷ []))) s
    | false ↦
        (lit b'{' ∷ map lit name)
        ++ (elim (eqb c b'{') [ true ↦ compile (some []) s | false ↦ lit c ∷ compile none s ])
  ]
]

-- `[^/]+`, and then the rest of the pattern: one character at least, none of them a slash.
abbrev pub some_segment : (Text → Bool) → Text → Bool
some_segment f [] = false
some_segment f (x ∷ xs) = not (eqb x slash) && (f xs || some_segment f xs)

-- `$` without MULTILINE: the end, or just before a newline that ends the text.
abbrev pub at_end : Text → Bool
at_end [] = true
at_end (x ∷ []) = eqb x newline
at_end (x ∷ y ∷ s) = false

-- `rule.pattern.match(path)`
unfoldable pub matches : List Token → Text → Bool
matches [] s = at_end s
matches (lit c ∷ p) [] = false
matches (lit c ∷ p) (x ∷ s) = eqb x c && matches p s
matches (wild ∷ p) s = some_segment (matches p) s

-- The text behind a literal prefix, if the text has the prefix.
unfoldable pub strip_prefix : Text → Text → Option Text
strip_prefix [] s = some s
strip_prefix (c ∷ t) [] = none
strip_prefix (c ∷ t) (x ∷ s) = if eqb x c then strip_prefix t s else none

-- `path.rstrip("/")`
unfoldable pub rstrip : Text → Text
rstrip [] = []
rstrip (x ∷ s) = let r = rstrip s in if eqb x slash && is_empty r then [] else x ∷ r

-- The characters before the first slash: what `([^/]+)` takes.
unfoldable pub segment : Text → Text
segment [] = []
segment (x ∷ s) = let r = segment s in if eqb x slash then [] else x ∷ r

-- `str.upper` on ASCII, which HTTP method names are.
unfoldable pub upper : Text → Text
upper = map (λ c. if leb b'a' c && leb c b'z' then c - 32 else c)
