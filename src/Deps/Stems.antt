-- ===== src/Deps/Stems.antt =====
-- app/deps.py: `_stem`, on ASCII names without newline.
use bless_forge.Base.{
  ℕ, ◌-◌, Bool, false, ◌&&◌, ◌||◌, List, [], ◌∷◌, ◌++◌, map, leb, eqb, if◌then◌else◌, ◌==◌, nat_eq,
  string_eq, Text, text_eq, contains, codes, length, take, drop,
}
use bless_forge.Base.Strings.{lower, is_digit}

-- Whether the text ends in the suffix, whatever its case
abbrev ends_in : Text → Text → Bool
ends_in s suffix = lower (drop (length s - length suffix) s) == suffix

-- `re.sub(suffix + "$", "", s, flags=re.I)`
abbrev without : Text → Text → Text
without suffix s = if ends_in s suffix then take (length s - length suffix) s else s

-- The first of the suffixes that the text ends in is cut off
unfoldable pub without_any : List Text → Text → Text
without_any [] s = s
without_any (suffix ∷ more) s =
    let rest = without_any more s in
    if ends_in s suffix then take (length s - length suffix) s else rest

-- `\.jar(\.disabled)?$`
abbrev without_jar : Text → Text
unfolding without_any
without_jar s = without_any (codes ".jar.disabled" ∷ codes ".jar" ∷ []) s

abbrev is_joint : ℕ → Bool
is_joint c = contains (b'-' ∷ b'_' ∷ b'+' ∷ []) c

abbrev starts_digit : Text → Bool
starts_digit [] = false
starts_digit (c ∷ s) = is_digit c

-- `v?\d` at the front
abbrev starts_version : Text → Bool
starts_version [] = false
starts_version (c ∷ s) = is_digit c || (eqb c b'v' && starts_digit s)

-- The text before the first `[-_+]v?\d`
unfoldable pub before_version : Text → Text
before_version [] = []
before_version (c ∷ s) =
    let rest = before_version s in if is_joint c && starts_version s then [] else c ∷ rest

-- `[-_+](neoforge|forge|fabric|quilt|mc)$`
abbrev loader_suffixes : List Text
loader_suffixes =
    let names = map codes ("neoforge" ∷ "forge" ∷ "fabric" ∷ "quilt" ∷ "mc" ∷ []) in
    map (◌∷◌ b'-') names ++ (map (◌∷◌ b'_') names ++ map (◌∷◌ b'+') names)

-- `re.sub(r"[^a-z0-9]", "", s)`
abbrev is_plain : ℕ → Bool
is_plain c = is_digit c || (leb b'a' c && leb c b'z')

unfoldable pub only_plain : Text → Text
only_plain [] = []
only_plain (c ∷ s) = let rest = only_plain s in if is_plain c then c ∷ rest else rest

unfoldable pub stem : Text → Text
unfolding only_plain lower without_any before_version
stem name = only_plain (lower (without_any loader_suffixes (before_version (without_jar name))))
