-- ===== src/Examples/Settings.antt =====
-- The file server.properties: runs on concrete inputs.
use bless_forge.Base.{
  ◌≡◌, refl, inl, inr, true, false, ◌&&◌, ◌||◌, none, some, List, [], ◌∷◌, ◌++◌, leb, if◌then◌else◌,
  Bool-cases, ◌==◌, nat_eq, string_eq, Text, text_eq, contains, codes, All, ok,
}
use bless_forge.Base.Strings.{strip, lower, is_digit, is_space, join_with}
use bless_forge.Properties.Lines.{
  parse, parse_lines, splitlines, partition, set_key, render, replaced, unseen, key_of, assigns,
}
use bless_forge.Properties.Edit.{Reading, Value, flag, text, coerce, is_key, accepted, save}
use bless_forge.Properties.Saved.{IsPlain, save-IsPlain}

-- Only twenty is read as a number; letters and digits are ASCII.
abbrev plain_reading : Reading
plain_reading = record {
  canonical_int = λ t. if t == codes "20" then some (codes "20") else none;
  is_word = λ c. is_digit c || (leb b'a' c && leb c b'z');
}

plain_printed :
    (t u : Text)
    → plain_reading.canonical_int t ≡ some u
    → (contains u 10 ≡ false) × (contains u 13 ≡ false)
plain_printed t u h = elim (Bool-cases (t == codes "20")) [
  | inl e ↦
      let k : some (codes "20") ≡ some u = rw e at h in
      let same : codes "20" ≡ u = cc in rw (← same) (refl, refl)
  | inr e ↦ let k : none ≡ some u = rw e at h in cc
]

abbrev changes : List (Text × Value)
changes =
    (codes "pvp", flag false)
    ∷ (codes "server-port", text (codes "1"))
    ∷ (codes "max-players", text (codes " 20 "))
    ∷ (codes "motd", text (codes "hi\nthere"))
    ∷ (codes "level-seed", text (codes "a=b"))
    ∷ []

abbrev saved_changes : List (Text × Text)
saved_changes =
    (codes "pvp", codes "false")
    ∷ (codes "max-players", codes "20")
    ∷ (codes "level-seed", codes "a=b")
    ∷ []

abbrev original : Text
original = codes "#Minecraft\npvp = true\nserver-port=25565\n"

abbrev written : Text
written = codes "#Minecraft\npvp=false\nserver-port=25565\nmax-players=20\nlevel-seed=a=b\n"

save-changes : save plain_reading changes original ≡ ok (saved_changes, some written)
unfolding save accepted coerce is_key strip lower render replaced unseen key_of assigns splitlines
    join_with is_space
save-changes = refl

save-IsPlain_example : All (IsPlain plain_reading) saved_changes
unfolding save accepted coerce is_key strip lower render replaced unseen key_of assigns splitlines
    join_with is_space
save-IsPlain_example =
    save-IsPlain plain_reading plain_printed changes original saved_changes (some written) refl

-- A line separator is no line break to `coerce`, but a line end to `splitlines`: the next change of
-- the file writes what follows it as a line of its own, here one of a key that is guarded.
abbrev smuggled : Text
smuggled = codes "x" ++ (0x2028 ∷ codes "server-port=1")

abbrev first_file : Text
first_file = codes "motd=x" ++ (0x2028 ∷ codes "server-port=1\n")

first_save :
    save plain_reading ((codes "motd", text smuggled) ∷ []) []
    ≡ ok ((codes "motd", smuggled) ∷ [], some first_file)
unfolding save accepted coerce is_key strip lower render replaced unseen key_of assigns splitlines
    join_with is_space
first_save = refl

second_save :
    save plain_reading ((codes "pvp", flag true) ∷ []) first_file
    ≡ ok ((codes "pvp", codes "true") ∷ [], some (codes "motd=x\nserver-port=1\npvp=true\n"))
unfolding save accepted coerce is_key strip lower render replaced unseen key_of assigns splitlines
    join_with is_space
second_save = refl

-- The test of names lets one newline at the end pass, and so the guarded name.
newline_key :
    save plain_reading ((codes "server-port\n", text (codes "1")) ∷ []) []
    ≡ ok ((codes "server-port\n", codes "1") ∷ [], some (codes "server-port\n=1\n"))
unfolding save accepted coerce is_key strip lower render replaced unseen key_of assigns splitlines
    join_with is_space
newline_key = refl

parse-original :
    (parse original).0 ≡ (codes "pvp", codes "true") ∷ (codes "server-port", codes "25565") ∷ []
unfolding parse parse_lines splitlines partition set_key strip is_space
parse-original = refl
