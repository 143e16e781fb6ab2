-- ===== src/Base/Strings.antt =====
-- Python's text operations on lists of code points.
use Prim.Native.Nat.{ℕ, ◌+◌}
use mathlib.Core.Bool.{Bool, true, false, ◌&&◌, ◌||◌}
use mathlib.Core.List.{List, [], ◌∷◌, ◌++◌, map}
use bless_forge.Base.Equality.{Text}
use bless_forge.Base.Tests.{leb, eqb, if◌then◌else◌}
use bless_forge.Base.Lists.{is_empty}

-- `str.isspace` on one character
unfoldable pub is_space : ℕ → Bool
is_space c =
    (leb 9 c && leb c 13)
    || (leb 28 c && leb c 32)
    || eqb c 0x85
    || eqb c 0xa0
    || eqb c 0x1680
    || (leb 0x2000 c && leb c 0x200a)
    || eqb c 0x2028
    || eqb c 0x2029
    || eqb c 0x202f
    || eqb c 0x205f
    || eqb c 0x3000

unfoldable pub lstrip : Text → Text
unfolding is_space
lstrip [] = []
lstrip (c ∷ s) = let rest = lstrip s in if is_space c then rest else c ∷ s

unfoldable pub rstrip_space : Text → Text
unfolding is_space
rstrip_space [] = []
rstrip_space (c ∷ s) = let r = rstrip_space s in if is_space c && is_empty r then [] else c ∷ r

-- `str.strip()`
unfoldable pub strip : Text → Text
unfolding lstrip rstrip_space
strip s = rstrip_space (lstrip s)

abbrev pub lower_char : ℕ → ℕ
lower_char c = if leb b'A' c && leb c b'Z' then c + 32 else c

-- `str.lower()` on ASCII
unfoldable pub lower : Text → Text
lower = map lower_char

abbrev pub is_digit : ℕ → Bool
is_digit c = leb b'0' c && leb c b'9'

-- `s.split(c)`
abbrev pub onto_first : ℕ → List Text → List Text
onto_first c [] = (c ∷ []) ∷ []
onto_first c (w ∷ ws) = (c ∷ w) ∷ ws

unfoldable pub split_on : ℕ → Text → List Text
split_on sep [] = [] ∷ []
split_on sep (c ∷ s) =
    let rest = split_on sep s in if eqb c sep then [] ∷ rest else onto_first c rest

-- `sep.join(parts)`
unfoldable pub join_with : ℕ → List Text → Text
join_with sep [] = []
join_with sep (p ∷ []) = p
join_with sep (p ∷ q ∷ ps) = p ++ (sep ∷ join_with sep (q ∷ ps))

-- `s.startswith(prefix)`
unfoldable pub starts_with : Text → Text → Bool
starts_with s [] = true
starts_with [] (p ∷ prefix) = false
starts_with (c ∷ s) (p ∷ prefix) = eqb c p && starts_with s prefix

abbrev pub at_word_end : Text → Bool
at_word_end [] = true
at_word_end (c ∷ s) = is_space c

-- `s.split()`
unfoldable pub words : Text → List Text
unfolding is_space
words [] = []
words (c ∷ s) =
    let rest = words s in
    if is_space c then rest else if at_word_end s then (c ∷ []) ∷ rest else onto_first c rest
